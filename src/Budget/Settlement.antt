-- ===== src/Budget/Settlement.antt =====
-- lib/agent-team/execution-budget.ts: settling a call that has ended, and usage that is recorded
-- directly.
use sci_pegasus.Common.{
  ℕ, String, ◌==◌, Bool, true, false, ◌&&◌, not, Option, none, some, List, [], ◌∷◌, ◌++◌, eqb,
  exists, same_text, if◌then◌else◌,
}
use sci_pegasus.Mongo.{Mongo}
use sci_pegasus.Budget.Usage.{Amount, Delta, Totals, zero_totals, normalized_delta, add_usage}
use sci_pegasus.Budget.Documents.{Context, Reservation, is_reserved}
use sci_pegasus.Budget.Updates.{
  Scopes, started_filter, settle_update, record_usage_update, state_id,
}
use sci_pegasus.Budget.Receipts.{
  Receipt, ReceiptStatus, Contribution, settled, direct, Telemetry, Ledger, fence_lost,
  receipt_missing, not_started, settlement_lost, telemetry_conflict, started_cannot_release,
  release_lost, Exec, ok, err, ◌>>=◌, ◌>>◌, throw, update_receipt, update_state,
}
use sci_pegasus.Budget.Fence.{Validator, entry, ScopeReads, load_budget_scopes, assert_fence}
use sci_pegasus.Budget.Initialize.{UsageRow, initialize_state}
use sci_pegasus.Budget.Recovery.{active_reservation, release_reservation}

-- AgentExternalCallAdmission
pub record Admission : Type 0 where
  pub admission_id : String
  pub admission_key : String
  pub reservation_key : String
  pub attempt : ℕ
  pub reserved_tool_calls : ℕ

same_contribution : Contribution → Contribution → Bool
same_contribution (settled a n) (settled b p) = a == b && eqb n p
same_contribution (direct a) (direct b) = a == b
same_contribution (settled a n) (direct b) = false
same_contribution (direct a) (settled b p) = false

unfoldable pub has_identity : Context → Telemetry → Bool
has_identity c t =
    t.team_id == c.team_id
    && t.conversation_id == c.conversation_id
    && t.user_id == c.user_id
    && t.agent_id == c.agent_id
    && same_text t.task_id c.task_id
    && t.run_id == c.run_id

unfoldable pub is_applied : Contribution → Telemetry → Bool
unfolding same_contribution
is_applied id t = exists (same_contribution id) t.applied

unfoldable pub fresh_telemetry : Context → Telemetry
fresh_telemetry c = record {
  team_id = c.team_id;
  conversation_id = c.conversation_id;
  user_id = c.user_id;
  agent_id = c.agent_id;
  task_id = c.task_id;
  run_id = c.run_id;
  totals = zero_totals;
  applied = [];
}

unfoldable pub apply_contribution : Contribution → Totals → Telemetry → Telemetry
unfolding add_usage
apply_contribution id delta t = record t {
  totals = add_usage t.totals delta;
  applied = t.applied ++ id ∷ [];
}

unfoldable pub put_telemetry : String → Option Telemetry → Ledger → Ledger
put_telemetry run_id slot l = record l {
  telemetry = λ j. if run_id == j then slot else l.telemetry j;
}

-- The context that finishSettlingReceipt rebuilds from a receipt.
unfoldable pub context_from_receipt : Receipt → Context
context_from_receipt r = record {
  team_id = r.team_id;
  conversation_id = r.conversation_id;
  user_id = r.user_id;
  agent_id = r.agent_id;
  task_id = r.task_id;
  run_id = r.run_id;
  execution_owner_id = r.execution_owner_id;
  agent_session_id = r.agent_session_id;
  team_fence_required = r.team_fence_required;
}

unfoldable pub mark_completed : ℕ → Receipt → Receipt
mark_completed now r = record r { status = ReceiptStatus.completed; completed_at = some now }

unfoldable pub mark_settling : Totals → Bool → Receipt → Receipt
mark_settling delta observed r = record r {
  status = ReceiptStatus.settling;
  usage_delta = delta;
  usage_observed = observed;
}

abbrev pub is_settling : ReceiptStatus → Bool
is_settling ReceiptStatus.settling = true
is_settling _ = false

abbrev pub is_completed : ReceiptStatus → Bool
is_completed ReceiptStatus.completed = true
is_completed _ = false

abbrev pub has_started : ReceiptStatus → Bool
has_started ReceiptStatus.started = true
has_started _ = false

-- The receipt of one attempt.
unfoldable pub receipt_of : String → ℕ → Ledger → Option Receipt
receipt_of id attempt l = elim (l.receipts id) [
  | none ↦ none
  | some r ↦ if eqb r.attempt attempt then some r else none
]

module _ (m : Mongo) (k : String → String) (now : ℕ) where
  -- applyTelemetryOnce. A Run whose telemetry has another identity is a duplicate key.
  unfoldable pub apply_telemetry_once : Context → Contribution → Totals → Exec Telemetry
  apply_telemetry_once c id delta l =
      let t = m.upsert Telemetry (fresh_telemetry c) (λ t. t) (l.telemetry c.run_id) in
      let (applied, left) =
        m.find_one_and_update Telemetry (λ t. not (is_applied id t)) (apply_contribution id delta)
          (some t) in
      if has_identity c t
      then (ok (elim applied [ none ↦ t | some after ↦ after ]), put_telemetry c.run_id left l)
      else (err telemetry_conflict, l)

  unfoldable pub settle_state : Receipt → Exec (Unit {0})
  unfolding update_state
  settle_state r l =
      let (hit, l') =
        update_state m (started_filter k r.team_id r.reservation_key r.admission_id r.attempt)
          (settle_update k r.reservation_key (context_from_receipt r) r.usage_delta) l in
      elim hit [
        | some s ↦ (ok tt, l')
        | none ↦ elim (active_reservation l'.state r.reservation_key) [
          | none ↦ (ok tt, l')
          | some still ↦ (err settlement_lost, l')
        ]
      ]

  unfoldable pub complete_receipt : Receipt → Telemetry → Exec Telemetry
  complete_receipt r t l = (ok t, update_receipt m r.admission_id r.attempt (mark_completed now) l)

  -- finishSettlingReceipt
  unfoldable pub finish_settling_receipt : Receipt → Exec Telemetry
  finish_settling_receipt r = do
    settle_state r
    t ←
        apply_telemetry_once (context_from_receipt r) (settled r.admission_id r.attempt)
          r.usage_delta
    complete_receipt r t

  -- The branch of completeCall for a receipt that has started: its CAS to `settling`.
  begin_settling : Context → Admission → Totals → Bool → Exec Receipt
  unfolding mark_settling
  begin_settling c a delta observed l =
      let (hit, left) =
        m.find_one_and_update Receipt
          (λ r.
            eqb r.attempt a.attempt
            && has_started r.status
            && r.execution_owner_id == c.execution_owner_id)
          (mark_settling delta observed) (l.receipts a.admission_id) in
      let l' = record l { receipts = λ j. if a.admission_id == j then left else l.receipts j } in
      elim hit [ none ↦ (err fence_lost, l') | some r ↦ (ok r, l') ]

  complete_by_status : Context → Admission → Totals → Bool → Receipt → Exec Telemetry
  unfolding begin_settling finish_settling_receipt
  complete_by_status c a delta observed r =
      if is_completed r.status
      then apply_telemetry_once c (settled r.admission_id r.attempt) r.usage_delta
      else if has_started r.status
      then begin_settling c a delta observed >>= finish_settling_receipt
      else if is_settling r.status
      then finish_settling_receipt r
      else throw not_started

  -- completeCall: the tool calls are those that were reserved, whatever the caller reports.
  unfoldable pub complete_call : Validator → Context → Admission → Delta → Bool → Exec Telemetry
  unfolding complete_by_status receipt_of normalized_delta
  complete_call v c a raw observed = do
    assert_fence v entry c
    let delta = normalized_delta (record raw { tool_calls = Amount.finite a.reserved_tool_calls })
    λ l. elim (receipt_of a.admission_id a.attempt l) [
      | none ↦ (err receipt_missing, l)
      | some r ↦ complete_by_status c a delta observed r l
    ]

  release_by_status : Context → String → String → Reservation → Exec (Unit {0})
  unfolding release_reservation
  release_by_status c key reason r l =
      let (released, l') = release_reservation m k now c.team_id key r reason l in
      if is_reserved r.status
      then (if released then (ok tt, l') else (err release_lost, l'))
      else (err started_cannot_release, l)

  -- releaseCall
  unfoldable pub release_call :
      Validator → Context → List UsageRow → Admission → String → Exec (Unit {0})
  unfolding release_by_status initialize_state active_reservation
  release_call v c rows a reason = do
    assert_fence v entry c
    s ← initialize_state m k c rows now
    λ l. elim (active_reservation (some s) a.reservation_key) [
      | none ↦ (ok tt, l)
      | some r ↦ release_by_status c a.reservation_key reason r l
    ]

  bump_state : Context → Totals → Exec (Unit {0})
  unfolding update_state record_usage_update state_id
  bump_state c delta l = (
    ok tt,
    (update_state m
        (λ s.
          s.budget_state_id == state_id k c.team_id
          && s.team_id == c.team_id
          && s.user_id == c.user_id)
        (record_usage_update k c delta) l).1,
  )

  lift_scopes : Context → ScopeReads → Exec Scopes
  unfolding load_budget_scopes
  lift_scopes c reads l = (load_budget_scopes c reads, l)

  -- recordUsage; `fresh` is the uuid of the contribution.
  unfoldable pub record_usage :
      Validator → Context → ScopeReads → List UsageRow → String → Delta → Exec Telemetry
  unfolding bump_state lift_scopes initialize_state apply_telemetry_once normalized_delta
  record_usage v c reads rows fresh raw = do
    assert_fence v entry c
    lift_scopes c reads
    initialize_state m k c rows now
    bump_state c (normalized_delta raw)
    apply_telemetry_once c (direct fresh) (normalized_delta raw)
