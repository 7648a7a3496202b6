-- ===== src/Examples/Grants.antt =====
-- lib/agent-team/policy.ts: a delegation that asks for too much, and two allowlists.
use sci_pegasus.Common.{◌≡◌, ◌↔◌, String, true, false, not, none, some, [], ◌∷◌, every}
use sci_pegasus.Team.Grants.{GrantRequest, member_delegation_grant}
use sci_pegasus.Team.Grants.Authority.{is_root_only, member_grant_authority}
use sci_pegasus.Team.Tools.{visible_agent_team_tools, is_tool_allowlist_subset}
use sci_pegasus.Team.Tools.Allowlists.{permits, allowlist_subset_iff}

abbrev greedy : GrantRequest
greedy = record {
  capabilities = some (record {
    is_coordinator = some true;
    can_create_agents = some true;
    can_delegate_tasks = some true;
    can_message_agents = none;
    can_inspect_team = none;
    can_wait_for_agents = none;
    can_submit_results = none;
    can_review_results = some true;
    can_manage_agents = some true;
    can_read_public_workspace = none;
    can_write_private_workspace = none;
    can_publish_references = none;
    can_ask_user = some true;
  });
  allowed_tool_names = some ("*" ∷ []);
  allowed_read_paths = none;
  budget = none;
}

member_grant_authority_example :
    (every (λ t. not (is_root_only t)) (visible_agent_team_tools (member_delegation_grant greedy))
      ≡ true)
    × ((member_delegation_grant greedy).capabilities.is_coordinator ≡ false)
    × ((member_delegation_grant greedy).capabilities.can_ask_user ≡ false)
member_grant_authority_example = member_grant_authority greedy

allowlist_subset_iff_example :
    (is_tool_allowlist_subset ("Read" ∷ []) ("Read" ∷ "Write" ∷ []) ≡ true) ↔ (
      (name : String)
      → permits ("Read" ∷ []) name ≡ true
      → permits ("Read" ∷ "Write" ∷ []) name ≡ true)
allowlist_subset_iff_example = allowlist_subset_iff ("Read" ∷ []) ("Read" ∷ "Write" ∷ [])
