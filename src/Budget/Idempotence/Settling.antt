-- ===== src/Budget/Idempotence/Settling.antt =====
-- Finishing a settling receipt once more, as after a crash, counts nothing twice.
use sci_pegasus.Common.{
  ℕ, ◌≡◌, sym, ap, ◌∙◌, String, true, Option, none, some, arith, inl, inr, Bool-cases, subst,
}
use sci_pegasus.Mongo.{Mongo, IsMongo, plain, eq_plain}
use sci_pegasus.Budget.Usage.{Totals}
use sci_pegasus.Budget.Documents.{Context, State}
use sci_pegasus.Budget.Keys.{IsUnique, find-without}
use sci_pegasus.Budget.Updates.{settle_update}
use sci_pegasus.Budget.Receipts.{
  Ledger, Receipt, ok, Telemetry, Contribution, telemetry_conflict, settled, put_receipt,
  update_receipt,
}
use sci_pegasus.Budget.Recovery.{active_reservation}
use sci_pegasus.Budget.Settlement.{
  has_identity, put_telemetry, apply_telemetry_once, context_from_receipt, settle_state,
  complete_receipt, mark_completed, finish_settling_receipt,
}
use sci_pegasus.Budget.Idempotence.{
  continue-ok, if-ok, once, settle_state-gone, apply_twice, apply_telemetry_once-eq, telemetry_of,
}

-- Once a receipt's state is settled its reservation is gone.
settle_state-removes :
    (k : String → String) (now : ℕ) (r : Receipt) (l l₁ : Ledger) (s : State)
    → l.state ≡ some s
    → IsUnique s.active_reservations
    → settle_state plain k now r l ≡ (ok tt, l₁)
    → active_reservation l₁.state r.reservation_key ≡ none
unfolding settle_state active_reservation settle_update
settle_state-removes k now r l l₁ s e u h =
    ground (arith, find-without r.reservation_key s.active_reservations u)

-- The telemetry does not depend on the receipts.
apply-receipts :
    (k : String → String) (now : ℕ) (c : Context) (id : Contribution) (delta : Totals) (l : Ledger)
    (f : String → Option Receipt) (t : Telemetry)
    → apply_telemetry_once plain k now c id delta l ≡ (ok t, l)
    → apply_telemetry_once plain k now c id delta (record l { receipts = f })
      ≡ (ok t, record l { receipts = f })
unfolding put_telemetry
apply-receipts k now c id delta l f t h =
    let (known, same, left) =
      if-ok (has_identity c (telemetry_of c l)) (once id delta (telemetry_of c l)) t
        telemetry_conflict (put_telemetry c.run_id (some (once id delta (telemetry_of c l))) l) l l
        (sym (apply_telemetry_once-eq k now c id delta l) ∙ h) in
    apply_telemetry_once-eq k now c id delta (record l { receipts = f })
    ∙ rw known (λ i. (ok (same i), record (left i) { receipts = f }))

pub apply-state :
    (k : String → String) (now : ℕ) (c : Context) (id : Contribution) (delta : Totals) (l : Ledger)
    → (apply_telemetry_once plain k now c id delta l).1.state ≡ l.state
unfolding put_telemetry
apply-state k now c id delta l = elim (Bool-cases (has_identity c (telemetry_of c l))) [
  | inl e ↦ rw (apply_telemetry_once-eq, e)
  | inr e ↦ rw (apply_telemetry_once-eq, e)
]

replay :
    (k : String → String) (now : ℕ) (r : Receipt) (l : Ledger) (t : Telemetry)
    → settle_state plain k now r l ≡ (ok tt, l)
    → apply_telemetry_once plain k now
        (context_from_receipt r)
        (settled r.admission_id r.attempt)
        r.usage_delta
        l
      ≡ (ok t, l)
    → finish_settling_receipt plain k now r l
      ≡ (ok t, update_receipt plain r.admission_id r.attempt (mark_completed now) l)
unfolding finish_settling_receipt complete_receipt
replay k now r l t h g = rw (h, g)

module _ (k : String → String) (now later : ℕ) (r : Receipt) (l l' : Ledger) (s : State)
    (t : Telemetry) where
  finish_twice_plain :
      l.state ≡ some s
      → IsUnique s.active_reservations
      → finish_settling_receipt plain k now r l ≡ (ok t, l')
      → finish_settling_receipt plain k later r l'
        ≡ (ok t, update_receipt plain r.admission_id r.attempt (mark_completed later) l')
  unfolding finish_settling_receipt complete_receipt update_receipt put_receipt
  finish_twice_plain e u h =
      let (v, e1, e2) =
        continue-ok (settle_state plain k now r l).0 _ (settle_state plain k now r l).1 l' t h in
      let L1 = (settle_state plain k now r l).1 in
      let c = context_from_receipt r in
      let id = settled r.admission_id r.attempt in
      let (t0, e3, e4) =
        continue-ok (apply_telemetry_once plain k now c id r.usage_delta L1).0 _
          (apply_telemetry_once plain k now c id r.usage_delta L1).1 l' t e2 in
      let L2 = (apply_telemetry_once plain k now c id r.usage_delta L1).1 in
      let (ok_t, same, left) =
        if-ok true t0 t telemetry_conflict
          (update_receipt plain r.admission_id r.attempt (mark_completed now) L2) l l' e4 in
      let gone : active_reservation l'.state r.reservation_key ≡ none =
        rw (← left, apply-state) (settle_state-removes k now r l L1 s e u (ap (λ x. (x, L1)) e1)) in
      let applied : apply_telemetry_once plain k later c id r.usage_delta l' ≡ (ok t, l') =
        rw (← left, ← same)
          (apply-receipts k later c id r.usage_delta L2 _ t0
            (apply_twice k now later c id r.usage_delta L1 L2 t0 (ap (λ x. (x, L2)) e3))) in
      replay k later r l' t (settle_state-gone k later r l' gone) applied

-- Finishing the same settling receipt again, as recovery does after a crash between the writes and
-- the answer, returns the same telemetry, and writes nothing but the receipt's time of completion:
-- neither the state's counters nor the Run's telemetry count the usage twice. The first run found a
-- state document in which no key has two reservations, and succeeded.
pub finish_settling_receipt-once :
    (m : Mongo)
    → IsMongo m
    → (k : String → String) (now later : ℕ) (r : Receipt) (l l' : Ledger) (s : State)
      (t : Telemetry)
    → l.state ≡ some s
    → IsUnique s.active_reservations
    → finish_settling_receipt m k now r l ≡ (ok t, l')
    → finish_settling_receipt m k later r l'
      ≡ (ok t, update_receipt m r.admission_id r.attempt (mark_completed later) l')
finish_settling_receipt-once m documented k now later r l l' s t e u =
    subst
      (λ x.
        finish_settling_receipt x k now r l ≡ (ok t, l')
        → finish_settling_receipt x k later r l'
          ≡ (ok t, update_receipt x r.admission_id r.attempt (mark_completed later) l'))
      (sym (eq_plain m documented)) (finish_twice_plain k now later r l l' s t e u)
