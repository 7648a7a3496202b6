-- ===== src/Budget/Updates.antt =====
-- lib/agent-team/execution-budget.ts: the filters and the updates of the ledger's atomic writes to the
-- state document of a team.
use sci_pegasus.Common.{
  ℕ, String, ◌==◌, Bool, true, false, ◌&&◌, not, Option, none, some, [], ◌∷◌, ◌++◌, ltb,
  if◌then◌else◌,
}
use Prim.Native.String.{◌++◌ as ◌+++◌}
use sci_pegasus.Team.Grants.{Budget}
use sci_pegasus.Budget.Usage.{Totals, zero_totals, total_execution_tokens, CallKind, is_tool}
use sci_pegasus.Budget.Documents.{
  Context, Reservation, reserved, started, is_reserved, is_started, State, or_zero, truthy,
  increment, decrement_calls, adjust_scopes, find_reservation, without_reservation,
  change_reservation, holds,
}

-- LoadedBudgetScopes
pub record Scopes : Type 0 where
  pub team_budget : Option Budget
  pub agent_budget : Option Budget
  pub task_budget : Option Budget
  pub has_task : Bool

-- $lt of a counter and a limit that is set.
abbrev below : ℕ → Option ℕ → Bool
below used none = true
below used (some limit) = ltb used limit

-- budgetExpressions, joined by `$and`, over the counters of one scope.
unfoldable pub budget_expressions : Option Budget → Totals → CallKind → Bool
unfolding total_execution_tokens
budget_expressions none u kind = true
budget_expressions (some b) u kind =
    below (total_execution_tokens u) b.max_tokens
    && below u.cost_usd b.max_cost_usd
    && (if is_tool kind
        then below u.tool_calls b.max_tool_calls && below u.download_bytes b.max_download_bytes
        else true)

abbrev pub task_counters : (String → String) → Option String → State → Totals
task_counters scope_key none s = zero_totals
task_counters scope_key (some id) s = or_zero (s.task_usage (scope_key id))

abbrev is_some {ℓ} : {A : Type ℓ} → Option A → Bool
is_some none = false
is_some (some a) = true

-- The expressions of every scope of the call.
unfoldable pub within_budgets : (String → String) → Context → Scopes → CallKind → State → Bool
within_budgets scope_key c b kind s =
    budget_expressions b.team_budget s.team_usage kind
    && budget_expressions b.agent_budget (or_zero (s.agent_usage (scope_key c.agent_id))) kind
    && (if b.has_task && is_some (truthy c.task_id)
        then budget_expressions b.task_budget (task_counters scope_key (truthy c.task_id) s) kind
        else true)

-- reserveCall: one strict tool call, unless an earlier attempt of the same tool use consumed it.
unfoldable pub reserved_calls : CallKind → Bool → ℕ
reserved_calls kind prior_consumed = if is_tool kind && not prior_consumed then 1 else 0

unfoldable pub bypasses : CallKind → Bool → Bool
bypasses kind prior_consumed = is_tool kind && prior_consumed

-- The argument of reserveAtomic.
pub record ReserveInput : Type 0 where
  pub context : Context
  pub budgets : Scopes
  pub admission_id : String
  pub admission_key : String
  pub reservation_key : String
  pub kind : CallKind
  pub label : Option String
  pub attempt : ℕ
  pub reserved_tool_calls : ℕ
  pub bypass_budget_gates : Bool

abbrev pub calls : ℕ → Totals
calls n = record zero_totals { tool_calls = n }

unfoldable pub reservation_of : ReserveInput → ℕ → Reservation
reservation_of i now = record {
  admission_id = i.admission_id;
  admission_key = i.admission_key;
  kind = i.kind;
  label = i.label;
  conversation_id = i.context.conversation_id;
  user_id = i.context.user_id;
  agent_id = i.context.agent_id;
  task_id = i.context.task_id;
  run_id = i.context.run_id;
  execution_owner_id = i.context.execution_owner_id;
  agent_session_id = i.context.agent_session_id;
  team_fence_required = i.context.team_fence_required;
  status = reserved;
  attempt = i.attempt;
  reserved_tool_calls = i.reserved_tool_calls;
  created_at = now;
  started_at = none;
}

abbrev is_free : String → State → Bool
is_free key s = not (is_some (find_reservation key s.active_reservations))

-- The update of markCallStarted.
unfoldable pub start_update : String → ℕ → State → State
unfolding change_reservation
start_update key now s = record s {
  active_reservations =
      change_reservation key (λ r. record r { status = started; started_at = some now })
        s.active_reservations;
}

-- The update of abandonStartedInternal.
unfoldable pub abandon_update : String → State → State
unfolding without_reservation
abandon_update key s = record s {
  active_reservations = without_reservation key s.active_reservations;
}

-- SHA-256 of an id is a parameter of what follows.
module _ (scope_key : String → String) where
  unfoldable pub state_id : String → String
  state_id team_id = "execution_budget_" +++ scope_key team_id

  unfoldable pub admission_id : String → String → String
  admission_id team_id key = "budget_admission_" +++ scope_key (team_id +++ ("\0" +++ key))

  -- reserveAtomic
  unfoldable pub reserve_filter : ReserveInput → State → Bool
  unfolding find_reservation
  reserve_filter i s =
      s.budget_state_id == state_id i.context.team_id
      && s.team_id == i.context.team_id
      && s.conversation_id == i.context.conversation_id
      && s.user_id == i.context.user_id
      && is_free i.reservation_key s
      && (if i.bypass_budget_gates
          then true
          else within_budgets scope_key i.context i.budgets i.kind s)

  unfoldable pub reserve_update : ReserveInput → ℕ → State → State
  unfolding adjust_scopes increment reservation_of
  reserve_update i now s =
      let s' =
        adjust_scopes (increment (calls i.reserved_tool_calls)) scope_key i.context.agent_id
          i.context.task_id s in
      record s' {
        active_reservations =
            s'.active_reservations ++ (i.reservation_key, reservation_of i now) ∷ [];
      }

  -- markCallStarted
  unfoldable pub start_filter : Context → String → String → ℕ → State → Bool
  unfolding holds find_reservation
  start_filter c key id attempt s =
      s.budget_state_id == state_id c.team_id
      && holds key id attempt is_reserved s
      && elim (find_reservation key s.active_reservations) [
        | none ↦ false
        | some r ↦ r.execution_owner_id == c.execution_owner_id
      ]

  -- releaseReservationInternal
  unfoldable pub release_filter : String → String → Reservation → State → Bool
  unfolding holds
  release_filter team_id key r s =
      s.budget_state_id == state_id team_id && holds key r.admission_id r.attempt is_reserved s

  unfoldable pub release_update : String → Reservation → State → State
  unfolding adjust_scopes decrement_calls without_reservation
  release_update key r s =
      let s' =
        adjust_scopes (decrement_calls r.reserved_tool_calls) scope_key r.agent_id r.task_id s in
      record s' { active_reservations = without_reservation key s'.active_reservations }

  -- abandonStartedInternal, and the test of finishSettlingReceipt.
  unfoldable pub started_filter : String → String → String → ℕ → State → Bool
  unfolding holds
  started_filter team_id key id attempt s =
      s.budget_state_id == state_id team_id && holds key id attempt is_started s

  -- stateSettlementIncrement: the observed counters, without tool_calls.
  unfoldable pub settle_update : String → Context → Totals → State → State
  unfolding adjust_scopes increment without_reservation
  settle_update key c delta s =
      let s' =
        adjust_scopes (increment (record delta { tool_calls = 0 })) scope_key c.agent_id c.task_id
          s in
      record s' { active_reservations = without_reservation key s'.active_reservations }

  -- recordUsage
  unfoldable pub record_usage_update : Context → Totals → State → State
  unfolding adjust_scopes increment
  record_usage_update c delta s = adjust_scopes (increment delta) scope_key c.agent_id c.task_id s
