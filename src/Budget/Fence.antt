-- ===== src/Budget/Fence.antt =====
-- lib/agent-team/execution-budget.ts: the execution fence and the budgets of a call's scopes.
use sci_pegasus.Common.{
  String, ◌==◌, Bool, true, false, ◌&&◌, not, Option, none, some, if◌then◌else◌,
}
use sci_pegasus.Team.Grants.{Budget}
use sci_pegasus.Budget.Documents.{Context, truthy}
use sci_pegasus.Budget.Updates.{Scopes}
use sci_pegasus.Budget.Receipts.{
  Result, ok, err, fence_lost, conversation_mismatch, task_mismatch, Exec, guard,
}

-- The points of a method at which it asks for the fence.
pub data Moment : Type 0 where
  entry prior_attempt before_reserve recovery before_retry after_reserve after_start : Moment

-- AgentExecutionFenceValidator: the answers of its two methods at each point.
pub record Validator : Type 0 where
  pub validate_run : Moment → String → String → Bool
  pub validate_team : Moment → Context → String → Bool

unfoldable pub fence_valid : Validator → Moment → Context → Bool
fence_valid v at c =
    v.validate_run at c.run_id c.execution_owner_id
    && (if c.team_fence_required
        then elim (truthy c.agent_session_id) [
          | none ↦ false
          | some session_id ↦ v.validate_team at c session_id
        ]
        else true)

abbrev pub assert_fence : Validator → Moment → Context → Exec (Unit {0})
assert_fence v at c = guard (fence_valid v at c) fence_lost

-- What loadBudgetScopes reads: the team's conversation and policy, the active grant, and the task if
-- it belongs to the agent.
pub record ScopeReads : Type 0 where
  pub team_conversation_id : String
  pub global_budget : Option Budget
  pub grant_budget : Option Budget
  pub task : Option (Option Budget)

abbrev found_task : Option String → Option (Option Budget) → Option (Option Budget)
found_task none task = none
found_task (some id) task = task

abbrev task_budget_of : Option (Option Budget) → Option Budget
task_budget_of none = none
task_budget_of (some b) = b

abbrev is_some {ℓ} : {A : Type ℓ} → Option A → Bool
is_some none = false
is_some (some a) = true

unfoldable pub load_budget_scopes : Context → ScopeReads → Result Scopes
load_budget_scopes c reads =
    let task = found_task (truthy c.task_id) reads.task in
    if not (reads.team_conversation_id == c.conversation_id)
    then err conversation_mismatch
    else if is_some (truthy c.task_id) && not (is_some task)
    then err task_mismatch
    else ok (record {
      team_budget = reads.global_budget;
      agent_budget = reads.grant_budget;
      task_budget = task_budget_of task;
      has_task = is_some task;
    })
