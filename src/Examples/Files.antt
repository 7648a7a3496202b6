-- ===== src/Examples/Files.antt =====
-- lib/workspace/multi-agent/acl.ts: two members of a team and a private note.
use sci_pegasus.Common.{eq_iff, false≢true, ◌≡◌, ◌≢◌, refl, String, false, some, [], ◌⊎◌}
use sci_pegasus.Common.Texts.{starts_with}
use sci_pegasus.Workspace.Acl.{
  PathPolicy, Actor, member, agent_private, granted, write_allowed, write_by_visibility,
  private_path, is_agent_id, agent_private_root, is_identity_complete, is_role_right, read_allowed,
}
use sci_pegasus.Workspace.Acl.Writes.{IsReference, IsOwnFile, member_write_confined}
use sci_pegasus.Workspace.Acl.Reads.{written, written_readable}

abbrev open_policy : PathPolicy
open_policy = record { normalize = λ path. some path; write_path = λ path. some path }

abbrev first_member : Actor
first_member = record {
  team_id = "t";
  agent_id = "a";
  root_agent_id = "root";
  role = member;
  private_path_references = [];
  is_managed_reference_tool = false;
}

abbrev second_member : Actor
second_member = record first_member { agent_id = "b" }

abbrev note_path : String
note_path = ".sci-pegasus/agents/a/note.md"

note_allowed :
    write_allowed open_policy first_member note_path agent_private (some "a") ≡ granted note_path
unfolding write_allowed write_by_visibility private_path starts_with is_agent_id agent_private_root
    is_identity_complete is_role_right
note_allowed = refl

member_write_confined_example :
    IsReference first_member agent_private note_path
    ⊎ IsOwnFile open_policy first_member agent_private (some "a") note_path
member_write_confined_example =
    member_write_confined open_policy first_member note_path note_path agent_private (some "a") refl
      note_allowed

written_readable_example :
    (read_allowed open_policy first_member (written first_member note_path agent_private (some "a"))
      ≡ granted tt)
    × (agent_private ≡ agent_private
        → read_allowed open_policy second_member
            (written first_member note_path agent_private (some "a"))
          ≢ granted tt)
written_readable_example =
    written_readable open_policy first_member second_member note_path note_path agent_private
      (some "a") note_allowed refl (λ e. false≢true ((eq_iff "b" "a").1 e)) refl
