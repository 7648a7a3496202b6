-- ===== src/Budget/Documents.antt =====
-- lib/agent-team/types.ts and execution-budget.ts: the documents of the ledger, and the counters of a
-- call's scopes. `scope_key` is SHA-256, which is not under the repository.
use sci_pegasus.Common.{
  ℕ, ◌-◌, String, ◌==◌, Bool, true, false, ◌&&◌, Option, none, some, List, [], ◌∷◌, eqb,
  if◌then◌else◌,
}
use sci_pegasus.Budget.Usage.{Totals, zero_totals, add_usage, CallKind}

pub record Context : Type 0 where
  pub team_id : String
  pub conversation_id : String
  pub user_id : String
  pub agent_id : String
  pub task_id : Option String
  pub run_id : String
  pub execution_owner_id : String
  pub agent_session_id : Option String
  pub team_fence_required : Bool

-- AgentBudgetActiveReservation.status
pub data ReservationStatus : Type 0 where
  reserved started : ReservationStatus

abbrev pub is_reserved : ReservationStatus → Bool
is_reserved reserved = true
is_reserved started = false

abbrev pub is_started : ReservationStatus → Bool
is_started reserved = false
is_started started = true

pub record Reservation : Type 0 where
  pub admission_id : String
  pub admission_key : String
  pub kind : CallKind
  pub label : Option String
  pub conversation_id : String
  pub user_id : String
  pub agent_id : String
  pub task_id : Option String
  pub run_id : String
  pub execution_owner_id : String
  pub agent_session_id : Option String
  pub team_fence_required : Bool
  pub status : ReservationStatus
  pub attempt : ℕ
  pub reserved_tool_calls : ℕ
  pub created_at : ℕ
  pub started_at : Option ℕ

-- An object from hashed ids to counters; a key that is not there is `none`.
abbrev pub UsageMap : Type 0
UsageMap = String → Option Totals

pub record State : Type 0 where
  pub budget_state_id : String
  pub team_id : String
  pub conversation_id : String
  pub user_id : String
  pub team_usage : Totals
  pub agent_usage : UsageMap
  pub task_usage : UsageMap
  pub active_reservations : List (String × Reservation)
  pub initialized_at : ℕ

-- A counter that is not there reads as 0 (`$ifNull`).
abbrev pub or_zero : Option Totals → Totals
or_zero none = zero_totals
or_zero (some t) = t

-- An empty id is falsy.
abbrev pub truthy : Option String → Option String
truthy none = none
truthy (some id) = if id == "" then none else some id

abbrev is_zero : Totals → Bool
is_zero t =
    eqb t.input_tokens 0
    && eqb t.output_tokens 0
    && eqb t.cache_creation_input_tokens 0
    && eqb t.cache_read_input_tokens 0
    && eqb t.cost_usd 0
    && eqb t.tool_calls 0
    && eqb t.download_bytes 0

-- `$inc` with the positive counters of `d`: with none the entry is not even made.
unfoldable pub increment : Totals → Option Totals → Option Totals
increment d entry = if is_zero d then entry else some (add_usage (or_zero entry) d)

-- `$inc` of tool_calls by -n. The counter is at least n wherever the ledger does this.
unfoldable pub decrement_calls : ℕ → Option Totals → Option Totals
decrement_calls n entry =
    if eqb n 0
    then entry
    else some (record (or_zero entry) { tool_calls = (or_zero entry).tool_calls - n })

abbrev pub adjust_at : (Option Totals → Option Totals) → String → UsageMap → UsageMap
adjust_at f key m k = if key == k then f (m k) else m k

abbrev adjust_task :
    (Option Totals → Option Totals) → (String → String) → Option String → UsageMap → UsageMap
adjust_task f scope_key none m = m
adjust_task f scope_key (some id) m = adjust_at f (scope_key id) m

-- One `$inc` under each of scopePrefixes(context): the team, the agent, and the task if there is one.
unfoldable pub adjust_scopes :
    (Option Totals → Option Totals) → (String → String) → String → Option String → State → State
adjust_scopes f scope_key agent_id task_id s = record s {
  team_usage = or_zero (f (some s.team_usage));
  agent_usage = adjust_at f (scope_key agent_id) s.agent_usage;
  task_usage = adjust_task f scope_key (truthy task_id) s.task_usage;
}

unfoldable pub find_reservation : String → List (String × Reservation) → Option Reservation
find_reservation key [] = none
find_reservation key ((k, r) ∷ rs) = if k == key then some r else find_reservation key rs

-- `$unset` of a key.
unfoldable pub without_reservation :
    String → List (String × Reservation) → List (String × Reservation)
without_reservation key [] = []
without_reservation key ((k, r) ∷ rs) =
    let rest = without_reservation key rs in if k == key then rs else (k, r) ∷ rest

-- `$set` on a key that is there.
unfoldable pub change_reservation :
    String → (Reservation → Reservation) → List (String × Reservation) → List (String × Reservation)
change_reservation key f [] = []
change_reservation key f ((k, r) ∷ rs) =
    let rest = change_reservation key f rs in if k == key then (k, f r) ∷ rs else (k, r) ∷ rest

-- The document that an id, an attempt and a status select.
unfoldable pub holds : String → String → ℕ → (ReservationStatus → Bool) → State → Bool
unfolding find_reservation
holds key admission_id attempt status s = elim (find_reservation key s.active_reservations) [
  | none ↦ false
  | some r ↦ r.admission_id == admission_id && eqb r.attempt attempt && status r.status
]

-- contextFromReservation
unfoldable pub context_from_reservation : String → Reservation → Context
context_from_reservation team_id r = record {
  team_id = team_id;
  conversation_id = r.conversation_id;
  user_id = r.user_id;
  agent_id = r.agent_id;
  task_id = r.task_id;
  run_id = r.run_id;
  execution_owner_id = r.execution_owner_id;
  agent_session_id = r.agent_session_id;
  team_fence_required = r.team_fence_required;
}
