-- ===== src/Team/Grants/Authority.antt =====
-- Which authority a member grant can carry.
use sci_pegasus.Common.{◌≡◌, refl, Bool, true, false, not, arith, every}
use sci_pegasus.Team.Grants.{GrantRequest, root_delegation_grant, member_delegation_grant}
use sci_pegasus.Team.Tools.{
  RootTool, agent, review_workspace_changes, manage_agent, root_tools, visible_agent_team_tools,
}

-- The three of the eight coordination tools that only the Root may be shown. The others (messages and
-- tasks) a member may be shown too.
unfoldable pub is_root_only : RootTool → Bool
is_root_only agent = true
is_root_only review_workspace_changes = true
is_root_only manage_agent = true
is_root_only t = false

-- Whatever a delegation requests, the member's grant shows none of the three tools that create agents,
-- review workspace changes or manage agents, and it carries neither coordination nor questions to the user.
pub member_grant_authority :
    (r : GrantRequest)
    → (every (λ t. not (is_root_only t)) (visible_agent_team_tools (member_delegation_grant r))
        ≡ true)
      × ((member_delegation_grant r).capabilities.is_coordinator ≡ false)
      × ((member_delegation_grant r).capabilities.can_ask_user ≡ false)
unfolding is_root_only visible_agent_team_tools member_delegation_grant
member_grant_authority r = (ground arith, refl, refl)

-- The Root's grant shows every coordination tool.
pub root_grant_shows_all : visible_agent_team_tools root_delegation_grant ≡ root_tools
unfolding visible_agent_team_tools root_delegation_grant
root_grant_shows_all = refl
