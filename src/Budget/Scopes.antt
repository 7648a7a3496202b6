-- ===== src/Budget/Scopes.antt =====
-- lib/agent-team/execution-budget.ts: what a call's scopes have used, as the error path reads it.
use sci_pegasus.Common.{String, Option, none, some, List, [], ◌∷◌, if◌then◌else◌}
use sci_pegasus.Budget.Usage.{Totals, zero_totals, team, agent, task, ScopeUsage}
use sci_pegasus.Budget.Documents.{Context, State, truthy}
use sci_pegasus.Budget.Updates.{Scopes}

-- ScopesUsage of usageForScope.
pub record Used : Type 0 where
  pub team_used : Totals
  pub agent_used : Totals
  pub task_used : Totals

task_usage_of : (String → String) → Option String → State → Option Totals
task_usage_of scope_key none s = some zero_totals
task_usage_of scope_key (some id) s = s.task_usage (scope_key id)

used_by : Totals → Option Totals → Option Totals → Option Used
used_by t none k = none
used_by t (some a) none = none
used_by t (some a) (some k) = some (record { team_used = t; agent_used = a; task_used = k })

-- `none` is the TypeError of normalizedDelta(undefined): the agent, or the task, has no counters yet.
unfoldable pub usage_for_scope : (String → String) → State → Context → Option Used
unfolding task_usage_of used_by
usage_for_scope scope_key s c =
    used_by s.team_usage (s.agent_usage (scope_key c.agent_id))
      (task_usage_of scope_key (truthy c.task_id) s)

unfoldable pub scope_list : Scopes → Used → List ScopeUsage
scope_list b u =
    record { scope = team; budget = b.team_budget; usage = u.team_used }
    ∷ record { scope = agent; budget = b.agent_budget; usage = u.agent_used }
    ∷ (if b.has_task
        then record { scope = task; budget = b.task_budget; usage = u.task_used } ∷ []
        else [])

unfoldable pub scopes_from_state :
    (String → String) → State → Context → Scopes → Option (List ScopeUsage)
unfolding usage_for_scope scope_list
scopes_from_state scope_key s c b = elim (usage_for_scope scope_key s c) [
  | none ↦ none
  | some u ↦ some (scope_list b u)
]
