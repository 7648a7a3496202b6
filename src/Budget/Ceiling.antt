-- ===== src/Budget/Ceiling.antt =====
-- Any interleaving of the atomic writes that admit, start, release, abandon and settle calls.
-- recordUsage, which adds what it is given and tests no limit, is not among them.
pub mod Steps
pub mod Settling
use sci_pegasus.Common.{
  ℕ, ◌+◌, ◌≤◌, ◌≡◌, String, Bool, true, false, Option, none, some, arith, inl, inr, Option-cases,
  if◌then◌else◌,
}
use sci_pegasus.Team.Grants.{Budget}
use sci_pegasus.Budget.Usage.{Totals, CallKind}
use sci_pegasus.Budget.Documents.{Context, Reservation, State, or_zero, find_reservation}
use sci_pegasus.Budget.Updates.{
  ReserveInput, reserved_calls, bypasses, budget_expressions, within_budgets, reserve_filter,
  reserve_update, start_filter, start_update, release_filter, release_update, started_filter,
  abandon_update, settle_update,
}
use sci_pegasus.Budget.Pending.{pending}

-- An absent limit bounds nothing.
abbrev pub AtMost : ℕ → Option ℕ → Type 0
AtMost n none = Unit {0}
AtMost n (some limit) = n ≤ limit

abbrev pub max_calls : Option Budget → Option ℕ
max_calls none = none
max_calls (some b) = b.max_tool_calls

-- The limits on tool calls that the team's policy and each agent's grant set.
pub record Limits : Type 0 where
  pub team : Option ℕ
  pub agent : String → Option ℕ

-- One atomic write of one of the processes that share the document.
pub data Step (k : String → String) (l : Limits) (s : State) : State → Type 0 where
  reserve :
      (i : ReserveInput) (now : ℕ) (prior_consumed : Bool)
      → max_calls i.budgets.team_budget ≡ l.team
      → max_calls i.budgets.agent_budget ≡ l.agent (k i.context.agent_id)
      → i.reserved_tool_calls ≡ reserved_calls i.kind prior_consumed
      → i.bypass_budget_gates ≡ bypasses i.kind prior_consumed
      → reserve_filter k i s ≡ true
      → Step k l s (reserve_update k i now s)
  start :
      (c : Context) (key id : String) (attempt now : ℕ)
      → start_filter k c key id attempt s ≡ true
      → Step k l s (start_update key now s)
  release :
      (team_id key : String) (r : Reservation)
      → find_reservation key s.active_reservations ≡ some r
      → release_filter k team_id key r s ≡ true
      → Step k l s (release_update k key r s)
  abandon :
      (team_id key id : String) (attempt : ℕ)
      → started_filter k team_id key id attempt s ≡ true
      → Step k l s (abandon_update key s)
  settle :
      (key id : String) (attempt : ℕ) (c : Context) (delta : Totals)
      → started_filter k c.team_id key id attempt s ≡ true
      → Step k l s (settle_update k key c delta s)

pub data Reach (k : String → String) (l : Limits) (s : State) : State → Type 0 where
  here : Reach k l s s
  next : {t u : State} → Reach k l s t → Step k l t u → Reach k l s u

abbrev pub agent_calls : State → String → ℕ
agent_calls s key = (or_zero (s.agent_usage key)).tool_calls

-- The counters stay within their limits, and cover the reservations that may yet be released.
pub record IsWithin (l : Limits) (s : State) : Type 0 where
  pub team : AtMost s.team_usage.tool_calls l.team
  pub agent : (key : String) → AtMost (agent_calls s key) (l.agent key)
  pub booked : pending s.active_reservations ≤ s.team_usage.tool_calls

-- A reservation that passes its gate fits under the limit.
pub gate :
    (kind : CallKind) (prior_consumed : Bool) (b : Option Budget) (u : Totals)
    → (if bypasses kind prior_consumed then true else budget_expressions b u kind) ≡ true
    → AtMost u.tool_calls (max_calls b)
    → AtMost (u.tool_calls + reserved_calls kind prior_consumed) (max_calls b)
unfolding reserved_calls bypasses budget_expressions
gate kind prior_consumed none u h a = tt
gate kind prior_consumed (some b) u h a = elim (Option-cases b.max_tool_calls) [
  | inl e ↦ rw e tt
  | inr (m, e) ↦ rw e (ground arith)
]

-- What the filter of a reservation says of the gates of the team and the agent.
pub reserve_gates :
    (k : String → String) (i : ReserveInput) (s : State)
    → reserve_filter k i s ≡ true
    → ((if i.bypass_budget_gates
          then true
          else budget_expressions i.budgets.team_budget s.team_usage i.kind)
        ≡ true)
      × ((if i.bypass_budget_gates
            then true
            else budget_expressions i.budgets.agent_budget
                (or_zero (s.agent_usage (k i.context.agent_id)))
                i.kind)
          ≡ true)
unfolding reserve_filter within_budgets
reserve_gates k i s h = (ground arith, ground arith)
