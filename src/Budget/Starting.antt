-- ===== src/Budget/Starting.antt =====
-- lib/agent-team/execution-budget.ts: crossing the start of a call.
use sci_pegasus.Common.{ℕ, String, none, some, if◌then◌else◌}
use sci_pegasus.Mongo.{Mongo}
use sci_pegasus.Budget.Documents.{Context, State}
use sci_pegasus.Budget.Updates.{start_filter, start_update}
use sci_pegasus.Budget.Receipts.{
  Receipt, ReceiptStatus, fence_lost, not_startable, ok, err, Exec, ◌>>◌, update_receipt,
  update_state,
}
use sci_pegasus.Budget.Fence.{Validator, entry, after_start, fence_valid, assert_fence}
use sci_pegasus.Budget.Recovery.{active_reservation, abandon_started}
use sci_pegasus.Budget.Settlement.{Admission, receipt_of, has_started}

module _ (m : Mongo) (k : String → String) (v : Validator) (now : ℕ) where
  mark_started : Receipt → Receipt
  mark_started r = record r { status = ReceiptStatus.started; started_at = some now }

  -- The end of markCallStarted: a fence that is lost at the boundary abandons the call.
  cross_start : Context → Admission → State → Exec (Unit {0})
  unfolding update_receipt mark_started active_reservation abandon_started
  cross_start c a s l =
      let l₁ = update_receipt m a.admission_id a.attempt mark_started l in
      if fence_valid v after_start c
      then (ok tt, l₁)
      else elim (active_reservation (some s) a.reservation_key) [
        | none ↦ (err fence_lost, l₁)
        | some r ↦ (
          err fence_lost,
          (abandon_started m k now c.team_id a.reservation_key r
              "execution_fence_lost_at_start_boundary_usage_unobserved" l₁).1,
        )
      ]

  -- markCallStarted
  unfoldable pub mark_call_started : Context → Admission → Exec (Unit {0})
  unfolding cross_start update_state receipt_of
  mark_call_started c a = assert_fence v entry c >> λ l.
      let (hit, l') =
        update_state m (start_filter k c a.reservation_key a.admission_id a.attempt)
          (start_update a.reservation_key now) l in
      elim hit [
        | some s ↦ cross_start c a s l'
        | none ↦ elim (receipt_of a.admission_id a.attempt l') [
          | none ↦ (err not_startable, l')
          | some r ↦ (if has_started r.status then ok tt else err not_startable, l')
        ]
      ]
