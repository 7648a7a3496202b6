-- ===== src/Examples/Settling.antt =====
-- lib/agent-team/execution-budget.ts: a crash after the settling of a call.
use sci_pegasus.Common.{arith, ◌≡◌, refl, none, some, [], ◌∷◌, true, false}
use sci_pegasus.Mongo.{plain, plain-IsMongo}
use sci_pegasus.Budget.Usage.{Totals, zero_totals, tool}
use sci_pegasus.Budget.Documents.{Reservation, State, started, find_reservation}
use sci_pegasus.Budget.Updates.{started_filter, state_id}
use sci_pegasus.Budget.Receipts.{
  Ledger, Receipt, ReceiptStatus, Telemetry, ok, receipt_from_reservation, update_receipt, settled,
}
use sci_pegasus.Budget.Settlement.{
  finish_settling_receipt, settle_state, apply_telemetry_once, has_identity, context_from_receipt,
  complete_receipt, is_applied, mark_completed, fresh_telemetry, apply_contribution,
}
use sci_pegasus.Budget.Fence.{Validator}
use sci_pegasus.Budget.Recovery.{recover_stale_admissions}
use sci_pegasus.Budget.Recovery.Stale.{IsRecovered, recover_stale_admissions_lem}
use sci_pegasus.Budget.Pending.{pending}
use sci_pegasus.Budget.Ceiling.{Limits, IsWithin}
use sci_pegasus.Budget.Ceiling.Settling.{Arrives, finish_settling_receipt-Arrives}
use sci_pegasus.Budget.Keys.{IsUnique}
use sci_pegasus.Budget.Idempotence.Settling.{finish_settling_receipt-once}
use sci_pegasus.Examples.Ledger.{same_key, call_context, open_state}

abbrev started_call : Reservation
started_call = record {
  admission_id = "i";
  admission_key = "k";
  kind = tool;
  label = none;
  conversation_id = "c";
  user_id = "u";
  agent_id = "a";
  task_id = none;
  run_id = "r";
  execution_owner_id = "o";
  agent_session_id = none;
  team_fence_required = false;
  status = started;
  attempt = 1;
  reserved_tool_calls = 1;
  created_at = 3;
  started_at = some 4;
}

abbrev observed : Totals
observed = record zero_totals { tool_calls = 1; download_bytes = 50 }

abbrev settling_receipt : Receipt
settling_receipt = record (receipt_from_reservation "t" "i" started_call) {
  status = ReceiptStatus.settling;
  usage_delta = observed;
  usage_observed = true;
}

abbrev running_state : State
running_state = record open_state { active_reservations = ("i", started_call) ∷ [] }

abbrev before_settling : Ledger
before_settling = record {
  state = some running_state;
  receipts = λ id. some settling_receipt;
  telemetry = λ id. none;
}

abbrev counted : Telemetry
counted = apply_contribution (settled "i" 1) observed (fresh_telemetry call_context)

abbrev after_settling : Ledger
after_settling = (finish_settling_receipt plain same_key 9 settling_receipt before_settling).1

running_state-IsUnique : IsUnique running_state.active_reservations
unfolding find_reservation
running_state-IsUnique = (refl, tt)

settled_first :
    finish_settling_receipt plain same_key 9 settling_receipt before_settling
    ≡ (ok counted, after_settling)
unfolding finish_settling_receipt settle_state started_filter state_id receipt_from_reservation
    apply_telemetry_once has_identity fresh_telemetry context_from_receipt complete_receipt
    apply_contribution is_applied
settled_first = refl

finish_settling_receipt-once_example :
    finish_settling_receipt plain same_key 12 settling_receipt after_settling
    ≡ (ok counted, update_receipt plain "i" 1 (mark_completed 12) after_settling)
unfolding receipt_from_reservation
finish_settling_receipt-once_example =
    finish_settling_receipt-once plain plain-IsMongo same_key 9 12 settling_receipt before_settling
      after_settling running_state counted refl running_state-IsUnique settled_first

-- The Run of the started call has lost its lease.
abbrev lease_lost : Validator
lease_lost = record { validate_run = λ at run owner. false; validate_team = λ at c session. true }

running_state-of_team : running_state.budget_state_id ≡ state_id same_key running_state.team_id
unfolding state_id
running_state-of_team = refl

recover_stale_admissions_lem_example :
    IsRecovered same_key lease_lost running_state
      (recover_stale_admissions plain same_key 20 lease_lost before_settling)
recover_stale_admissions_lem_example =
    recover_stale_admissions_lem plain plain-IsMongo same_key 20 lease_lost before_settling
      running_state refl running_state-of_team running_state-IsUnique

abbrev two_at_most : Limits
two_at_most = record { team = some 2; agent = λ key. none }

running_state-IsWithin : IsWithin two_at_most running_state
unfolding pending
running_state-IsWithin = record { team = omega arith; agent = λ key. tt; booked = omega arith }

finish_settling_receipt-Arrives_example :
    (a : Arrives same_key two_at_most running_state
      (finish_settling_receipt plain same_key 9 settling_receipt before_settling).1)
    × IsWithin two_at_most a.document
finish_settling_receipt-Arrives_example =
    finish_settling_receipt-Arrives plain plain-IsMongo same_key two_at_most 9 settling_receipt
      before_settling running_state refl running_state-IsWithin
