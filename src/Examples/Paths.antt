-- ===== src/Examples/Paths.antt =====
-- Paths of a workspace.
use sci_pegasus.Common.{false, none, some, [], ◌≡◌, refl}
use sci_pegasus.Workspace.Paths.{Unicode, normalize_path, write_path, default_policy}
use sci_pegasus.Workspace.Paths.Normal.{IsNormalization}
use sci_pegasus.Workspace.Paths.Written.{write_path-normal}
use sci_pegasus.Workspace.Acl.{
  Actor, member, agent_private, granted, write_allowed, agent_private_root, is_agent_id,
  private_path,
}
use sci_pegasus.Workspace.Acl.Segments.{policy_of, IsInOwnTree, private_write-segments}

-- Texts in which every character is normalised and in lower case.
abbrev plain_texts : Unicode
plain_texts = record { nfc = λ s. s; lower = λ s. s }

plain_texts-IsNormalization : IsNormalization plain_texts
plain_texts-IsNormalization = record { suffix_stable = λ n s. refl }

note_written :
    write_path plain_texts default_policy "workspace/notes/plan.md" ≡ some "notes/plan.md"
unfolding write_path
note_written = refl

escape_refused : normalize_path plain_texts "notes/../../etc/passwd" ≡ none
unfolding normalize_path
escape_refused = refl

write_path-normal_example : normalize_path plain_texts "notes/plan.md" ≡ some "notes/plan.md"
write_path-normal_example =
    write_path-normal plain_texts "workspace/notes/plan.md" "notes/plan.md"
      plain_texts-IsNormalization note_written

abbrev scout : Actor
scout = record {
  team_id = "t1";
  agent_id = "scout";
  root_agent_id = "root";
  role = member;
  private_path_references = [];
  is_managed_reference_tool = false;
}

draft_allowed :
    write_allowed
      (policy_of plain_texts)
      scout
      ".sci-pegasus/agents/scout/draft.md"
      agent_private
      (some "scout")
    ≡ granted ".sci-pegasus/agents/scout/draft.md"
unfolding write_allowed agent_private_root is_agent_id write_path normalize_path private_path
draft_allowed = refl

private_write-segments_example :
    IsInOwnTree scout (some "scout") ".sci-pegasus/agents/scout/draft.md"
private_write-segments_example =
    private_write-segments plain_texts scout ".sci-pegasus/agents/scout/draft.md"
      ".sci-pegasus/agents/scout/draft.md" (some "scout") plain_texts-IsNormalization draft_allowed
