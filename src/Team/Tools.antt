-- ===== src/Team/Tools.antt =====
-- lib/agent-team/policy.ts: the coordination tools, their legacy names, tool allowlists, and when
-- messages and waits take effect.
pub mod Allowlists
use sci_pegasus.Common.{
  String, Bool, true, false, ◌&&◌, ◌||◌, List, [], ◌∷◌, ◌==◌, if◌then◌else◌, every, exists, select,
}
use sci_pegasus.Team.Grants.{Capabilities, Grant}

-- RootAgentToolName
pub data RootTool : Type 0 where
  agent send_message task_create task_update task_list task_get : RootTool
  review_workspace_changes manage_agent : RootTool

pub data LegacyTool : Type 0 where
  create_agent assign_agent_task send_agent_message inspect_agent_team : LegacyTool
  wait_for_agents submit_agent_result review_agent_result : LegacyTool

abbrev pub root_tools : List RootTool
root_tools =
    agent ∷ send_message ∷ task_create ∷ task_update ∷ task_list ∷ task_get
    ∷ review_workspace_changes ∷ manage_agent ∷ []

abbrev pub legacy_tools : List LegacyTool
legacy_tools =
    create_agent ∷ assign_agent_task ∷ send_agent_message ∷ inspect_agent_team ∷ wait_for_agents
    ∷ submit_agent_result ∷ review_agent_result ∷ []

unfoldable pub root_tool_name : RootTool → String
root_tool_name agent = "Agent"
root_tool_name send_message = "SendMessage"
root_tool_name task_create = "TaskCreate"
root_tool_name task_update = "TaskUpdate"
root_tool_name task_list = "TaskList"
root_tool_name task_get = "TaskGet"
root_tool_name review_workspace_changes = "ReviewWorkspaceChanges"
root_tool_name manage_agent = "ManageAgent"

unfoldable pub legacy_tool_name : LegacyTool → String
legacy_tool_name create_agent = "CreateAgent"
legacy_tool_name assign_agent_task = "AssignAgentTask"
legacy_tool_name send_agent_message = "SendAgentMessage"
legacy_tool_name inspect_agent_team = "InspectAgentTeam"
legacy_tool_name wait_for_agents = "WaitForAgents"
legacy_tool_name submit_agent_result = "SubmitAgentResult"
legacy_tool_name review_agent_result = "ReviewAgentResult"

-- LEGACY_TOOL_CANONICAL_NAME
unfoldable pub canonical_tool : LegacyTool → RootTool
canonical_tool create_agent = agent
canonical_tool assign_agent_task = task_create
canonical_tool send_agent_message = send_message
canonical_tool inspect_agent_team = task_list
canonical_tool wait_for_agents = task_list
canonical_tool submit_agent_result = task_update
canonical_tool review_agent_result = review_workspace_changes

-- xs.includes(name)
unfoldable pub includes : List String → String → Bool
includes names name = exists (λ n. n == name) names

-- The lookup in LEGACY_TOOL_CANONICAL_NAME, whose own keys are the legacy names.
canonical_name_in : List LegacyTool → String → String
unfolding legacy_tool_name root_tool_name canonical_tool
canonical_name_in [] name = name
canonical_name_in (t ∷ ts) name =
    if legacy_tool_name t == name
    then root_tool_name (canonical_tool t)
    else canonical_name_in ts name

unfoldable pub normalize_tool_name_for_execution : String → String
unfolding canonical_name_in
normalize_tool_name_for_execution name = canonical_name_in legacy_tools name

unfoldable pub is_legacy_tool_name : String → Bool
unfolding legacy_tool_name
is_legacy_tool_name name = exists (λ t. legacy_tool_name t == name) legacy_tools

abbrev reference_writers : List String
reference_writers =
    "SciverseSearchPapers" ∷ "SciverseSearchEvidence" ∷ "SciverseFetchPaper"
    ∷ "SciverseListRelations" ∷ "ArxivSearchPapers" ∷ "ArxivFetchPaper" ∷ []

unfoldable pub allowlist_needs_reference_publishing : List String → Bool
unfolding includes
allowlist_needs_reference_publishing names =
    includes names "*" || exists (includes reference_writers) names

-- TOOL_CAPABILITY
unfoldable pub tool_capability : RootTool → Capabilities → Bool
tool_capability agent c = c.can_create_agents
tool_capability send_message c = c.can_message_agents
tool_capability task_create c = c.can_delegate_tasks
tool_capability task_update c = c.can_inspect_team
tool_capability task_list c = c.can_inspect_team
tool_capability task_get c = c.can_inspect_team
tool_capability review_workspace_changes c = c.can_review_results
tool_capability manage_agent c = c.can_manage_agents

unfoldable pub visible_agent_team_tools : Grant → List RootTool
unfolding tool_capability
visible_agent_team_tools grant = select (λ t. tool_capability t grant.capabilities) root_tools

unfoldable pub is_tool_allowlist_subset : List String → List String → Bool
unfolding includes
is_tool_allowlist_subset child parent =
    if includes parent "*"
    then true
    else if includes child "*"
    then false
    else every (includes parent) child

pub data MessageKind : Type 0 where
  info request review response progress blocker error : MessageKind

unfoldable pub should_wake_for_message : MessageKind → Bool → Bool
should_wake_for_message kind false = true
should_wake_for_message blocker true = true
should_wake_for_message error true = true
should_wake_for_message kind true = false

pub data TaskStatus : Type 0 where
  queued running waiting submitted accepted rework failed cancelled : TaskStatus

-- READY_TASK_STATUSES
unfoldable pub is_ready : TaskStatus → Bool
is_ready submitted = true
is_ready accepted = true
is_ready failed = true
is_ready cancelled = true
is_ready status = false

pub data WaitMode : Type 0 where
  all any : WaitMode

unfoldable pub task_wait_satisfied : List TaskStatus → WaitMode → Bool
unfolding is_ready
task_wait_satisfied [] mode = true
task_wait_satisfied (s ∷ ss) all = every is_ready (s ∷ ss)
task_wait_satisfied (s ∷ ss) any = exists is_ready (s ∷ ss)
