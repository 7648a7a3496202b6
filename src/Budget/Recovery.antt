-- ===== src/Budget/Recovery.antt =====
-- lib/agent-team/execution-budget.ts: giving up a reservation, and the recovery of those whose fence is
-- lost.
pub mod Entry
pub mod Stale
use sci_pegasus.Common.{
  ℕ, ◌+◌, String, Bool, true, false, Option, none, some, List, [], ◌∷◌, if◌then◌else◌,
}
use sci_pegasus.Mongo.{Mongo}
use sci_pegasus.Budget.Usage.{zero_totals}
use sci_pegasus.Budget.Documents.{
  Reservation, is_reserved, State, find_reservation, context_from_reservation,
}
use sci_pegasus.Budget.Updates.{release_filter, release_update, started_filter, abandon_update}
use sci_pegasus.Budget.Receipts.{
  Receipt, ReceiptStatus, Ledger, upsert_receipt, update_receipt, update_state,
}
use sci_pegasus.Budget.Fence.{Validator, recovery, fence_valid}

-- activeReservation, on a document that may be missing.
unfoldable pub active_reservation : Option State → String → Option Reservation
unfolding find_reservation
active_reservation none key = none
active_reservation (some s) key = find_reservation key s.active_reservations

abbrev is_some {ℓ} : {A : Type ℓ} → Option A → Bool
is_some none = false
is_some (some a) = true

unfoldable pub mark_releasing : String → Receipt → Receipt
mark_releasing reason r = record r {
  status = ReceiptStatus.releasing;
  release_reason = some reason;
}

unfoldable pub mark_released : ℕ → String → Receipt → Receipt
mark_released now reason r = record r {
  status = ReceiptStatus.released;
  released_at = some now;
  release_reason = some reason;
  usage_observed = false;
}

unfoldable pub mark_abandoned : ℕ → String → Receipt → Receipt
mark_abandoned now reason r = record r {
  status = ReceiptStatus.abandoned;
  abandoned_at = some now;
  release_reason = some reason;
  usage_delta = zero_totals;
  usage_observed = false;
}

pub record Recovered : Type 0 where
  pub released : ℕ
  pub abandoned : ℕ

module _ (m : Mongo) (k : String → String) (now : ℕ) where
  -- releaseReservationInternal: false where the reservation is still there, no longer reserved.
  unfoldable pub release_reservation :
      String → String → Reservation → String → Ledger → Bool × Ledger
  unfolding upsert_receipt update_receipt update_state active_reservation mark_releasing
      mark_released
  release_reservation team_id key r reason l =
      let l₁ = upsert_receipt m now team_id key r l in
      let l₂ = update_receipt m r.admission_id r.attempt (mark_releasing reason) l₁ in
      let (released, l₃) =
        update_state m (release_filter k team_id key r) (release_update k key r) l₂ in
      let l₄ = update_receipt m r.admission_id r.attempt (mark_released now reason) l₃ in
      if is_some released
      then (true, l₄)
      else if is_some (active_reservation l₃.state key)
      then (false, l₃)
      else (true, l₄)

  -- abandonStartedInternal
  unfoldable pub abandon_started : String → String → Reservation → String → Ledger → Bool × Ledger
  unfolding upsert_receipt update_receipt update_state mark_abandoned
  abandon_started team_id key r reason l =
      let l₁ = upsert_receipt m now team_id key r l in
      let l₂ = update_receipt m r.admission_id r.attempt (mark_abandoned now reason) l₁ in
      let (left, l₃) =
        update_state m (started_filter k team_id key r.admission_id r.attempt) (abandon_update key)
          l₂ in
      (is_some left, l₃)

  -- One stale entry: released before the start, abandoned after it.
  unfoldable pub recover_entry :
      String → String × Reservation → Recovered × Ledger → Recovered × Ledger
  unfolding release_reservation abandon_started
  recover_entry team_id (key, r) (n, l) =
      let (released, l₁) =
        release_reservation team_id key r "execution_fence_lost_before_start" l in
      let (abandoned, l₂) =
        abandon_started team_id key r "execution_fence_lost_after_start_usage_unobserved" l in
      if is_reserved r.status
      then (if released then record n { released = n.released + 1 } else n, l₁)
      else (if abandoned then record n { abandoned = n.abandoned + 1 } else n, l₂)

  -- The loop of recoverStaleAdmissions over the entries of a team's document as it was read.
  unfoldable pub recover_entries :
      Validator → String → List (String × Reservation) → Recovered × Ledger → Recovered × Ledger
  unfolding recover_entry
  recover_entries v team_id [] acc = acc
  recover_entries v team_id (e ∷ es) acc = recover_entries v team_id es (
      if fence_valid v recovery (context_from_reservation team_id e.1)
      then acc
      else recover_entry team_id e acc)

  unfoldable pub recover_stale_admissions : Validator → Ledger → Recovered × Ledger
  unfolding recover_entries
  recover_stale_admissions v l = elim l.state [
    | none ↦ (record { released = 0; abandoned = 0 }, l)
    | some s ↦
        recover_entries v s.team_id s.active_reservations
          (record { released = 0; abandoned = 0 }, l)
  ]
