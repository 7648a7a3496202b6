-- ===== src/Examples/Ledger.antt =====
-- lib/agent-team/execution-budget.ts: a team of one agent that may make two tool calls.
use sci_pegasus.Common.{◌≡◌, ◌≢◌, ◌↔◌, refl, String, true, false, none, some, [], arith}
use sci_pegasus.Mongo.{plain}
use sci_pegasus.Team.Grants.{Budget}
use sci_pegasus.Budget.Usage.{Totals, zero_totals, tool, exhausted_budget_scope}
use sci_pegasus.Budget.Documents.{Context, Reservation, State, find_reservation}
use sci_pegasus.Budget.Updates.{
  Scopes, ReserveInput, within_budgets, reservation_of, reserve_filter, reserve_update,
  start_filter, start_update, started_filter, release_filter, release_update, reserved_calls,
  bypasses, state_id, budget_expressions,
}
use sci_pegasus.Budget.Scopes.{Used, scope_list, scopes_from_state}
use sci_pegasus.Budget.Pending.{pending}
use sci_pegasus.Budget.Admission.{ungated, admission_agrees}
use sci_pegasus.Budget.Ceiling.{Limits, Step, reserve, start, Reach, here, next, IsWithin}
use sci_pegasus.Budget.Ceiling.Steps.{tool_call_ceiling}
use sci_pegasus.Budget.RoundTrip.{SameLedger, reserve_release}
use sci_pegasus.Budget.Receipts.{Ledger, ok, err, type_error}
use sci_pegasus.Budget.Fence.{Validator, entry, fence_valid, load_budget_scopes}
use sci_pegasus.Budget.Calls.{Texts, Request}
use sci_pegasus.Budget.Reserving.{assert_can_call}
use sci_pegasus.Budget.Diagnosis.{assert_can_call_lem}
use sci_pegasus.Budget.Boundary.{start_boundary}

-- A stand-in for the hash.
abbrev pub same_key : String → String
same_key id = id

abbrev pub call_context : Context
call_context = record {
  team_id = "t";
  conversation_id = "c";
  user_id = "u";
  agent_id = "a";
  task_id = none;
  run_id = "r";
  execution_owner_id = "o";
  agent_session_id = none;
  team_fence_required = false;
}

abbrev two_calls : Budget
two_calls = record {
  max_tokens = some 1000;
  max_cost_usd = none;
  max_tool_calls = some 2;
  max_download_bytes = none;
}

abbrev call_budgets : Scopes
call_budgets = record {
  team_budget = some two_calls;
  agent_budget = none;
  task_budget = none;
  has_task = false;
}

abbrev call_input : ReserveInput
call_input = record {
  context = call_context;
  budgets = call_budgets;
  admission_id = "i";
  admission_key = "k";
  reservation_key = "i";
  kind = tool;
  label = none;
  attempt = 1;
  reserved_tool_calls = 1;
  bypass_budget_gates = false;
}

abbrev one_call : Totals
one_call = record zero_totals { tool_calls = 1 }

-- One call has been made.
abbrev pub open_state : State
open_state = record {
  budget_state_id = "execution_budget_t";
  team_id = "t";
  conversation_id = "c";
  user_id = "u";
  team_usage = one_call;
  agent_usage = λ key. some one_call;
  task_usage = λ key. none;
  active_reservations = [];
  initialized_at = 0;
}

abbrev call_limits : Limits
call_limits = record { team = some 2; agent = λ key. none }

open_state-IsWithin : IsWithin call_limits open_state
unfolding pending
open_state-IsWithin = record { team = omega arith; agent = λ key. tt; booked = omega arith }

call_input-free : reserve_filter same_key call_input open_state ≡ true
unfolding reserve_filter within_budgets state_id budget_expressions
call_input-free = refl

abbrev reserved_state : State
reserved_state = reserve_update same_key call_input 7 open_state

reserved_state-Step : Step same_key call_limits open_state reserved_state
unfolding reserved_calls bypasses
reserved_state-Step = reserve call_input 7 false refl refl refl refl call_input-free

call_startable : start_filter same_key call_context "i" "i" 1 reserved_state ≡ true
unfolding start_filter reserve_update state_id
call_startable = refl

abbrev started_state : State
started_state = start_update "i" 8 reserved_state

started_state-Reach : Reach same_key call_limits open_state started_state
started_state-Reach =
    next (next here reserved_state-Step) (start call_context "i" "i" 1 8 call_startable)

tool_call_ceiling_example : IsWithin call_limits started_state
tool_call_ceiling_example =
    tool_call_ceiling same_key call_limits open_state started_state open_state-IsWithin
      started_state-Reach

reserve_release_example :
    (find_reservation "i" reserved_state.active_reservations ≡ some (reservation_of call_input 7))
    × (release_filter same_key "t" "i" (reservation_of call_input 7) reserved_state ≡ true)
    × SameLedger
        (release_update same_key "i" (reservation_of call_input 7) reserved_state)
        open_state
reserve_release_example = reserve_release same_key call_input 7 open_state call_input-free

abbrev used_once : Used
used_once = record { team_used = one_call; agent_used = one_call; task_used = zero_totals }

scopes_read :
    scopes_from_state same_key open_state call_context call_budgets
    ≡ some (scope_list call_budgets used_once)
unfolding scopes_from_state
scopes_read = refl

call_input-ungated : reserve_filter same_key (ungated call_input) open_state ≡ true
unfolding reserve_filter within_budgets state_id budget_expressions
call_input-ungated = refl

admission_agrees_example :
    (reserve_filter same_key call_input open_state ≡ true)
    ↔ (exhausted_budget_scope (scope_list call_budgets used_once) tool ≡ none)
admission_agrees_example =
    admission_agrees same_key open_state call_input (scope_list call_budgets used_once) refl
      call_input-ungated (λ e. absurd (ground arith)) scopes_read

-- Before any call of the agent.
abbrev fresh_state : State
fresh_state = record open_state { team_usage = zero_totals; agent_usage = λ key. none }

abbrev fresh_ledger : Ledger
fresh_ledger = record { state = some fresh_state; receipts = λ id. none; telemetry = λ id. none }

abbrev plain_texts : Texts
plain_texts = record { trim = λ s. s; length_utf16 = λ s. 1; has_control = λ s. false }

abbrev all_valid : Validator
all_valid = record { validate_run = λ at run owner. true; validate_team = λ at c session. true }

abbrev call_request : Request
call_request = record {
  context = call_context;
  kind = tool;
  label = none;
  attempt_key = some "k";
  uuid = "x";
  reads = record {
    team_conversation_id = "c";
    global_budget = some two_calls;
    grant_budget = none;
    task = none;
  };
  rows = [];
}

-- The check of an agent that has no counters yet ends in a TypeError.
fresh_agent_throws :
    assert_can_call plain same_key plain_texts all_valid 7 call_request fresh_ledger
    ≡ (err type_error, fresh_ledger)
unfolding assert_can_call fence_valid
fresh_agent_throws = refl

abbrev open_ledger : Ledger
open_ledger = record fresh_ledger { state = some open_state }

fence_open : fence_valid all_valid entry call_context ≡ true
unfolding fence_valid
fence_open = refl

scopes_loaded : load_budget_scopes call_context call_request.reads ≡ ok call_budgets
unfolding load_budget_scopes
scopes_loaded = refl

assert_can_call_lem_example :
    ((assert_can_call plain same_key plain_texts all_valid 7 call_request open_ledger).1
      ≡ open_ledger)
    × (((assert_can_call plain same_key plain_texts all_valid 7 call_request open_ledger).0 ≡ ok tt)
        ↔ ((scopes_from_state same_key open_state call_context call_budgets ≢ none)
            × (within_budgets same_key call_context call_budgets tool open_state ≡ true)))
    × (((assert_can_call plain same_key plain_texts all_valid 7 call_request open_ledger).0
          ≡ err type_error)
        ↔ (scopes_from_state same_key open_state call_context call_budgets ≡ none))
assert_can_call_lem_example =
    assert_can_call_lem plain same_key plain_texts all_valid 7 call_request open_ledger open_state
      call_budgets fence_open scopes_loaded refl refl

start_boundary_example :
    ((team : String) (r : Reservation) → release_filter same_key team "i" r started_state ≡ false)
    × (started_filter same_key "t" "i" "i" 1 started_state ≡ true)
    × (started_state.team_usage ≡ reserved_state.team_usage)
    × (started_state.agent_usage ≡ reserved_state.agent_usage)
    × (started_state.task_usage ≡ reserved_state.task_usage)
start_boundary_example =
    start_boundary same_key call_context "i" "i" 1 8 reserved_state call_startable
