-- ===== src/Budget/Idempotence.antt =====
-- Completing a call once more changes nothing.
pub mod Settling
use sci_pegasus.Common.{
  ℕ, ◌≡◌, refl, sym, ap, ◌∙◌, fun_ext, String, ◌==◌, eq_iff, eq_refl, Bool, true, false, Option,
  none, some, List, [], ◌∷◌, ◌++◌, arith, inl, inr, exists, Bool-cases, Option-cases, subst,
  if◌then◌else◌,
}
use sci_pegasus.Mongo.{Mongo, IsMongo, plain, insert_or_update, plain-IsMongo, eq_plain}
use sci_pegasus.Budget.Usage.{Totals, Delta}
use sci_pegasus.Budget.Documents.{Context}
use sci_pegasus.Budget.Receipts.{
  Ledger, Receipt, Error, ReceiptStatus, Result, ok, err, Exec, continue, Telemetry, Contribution,
  settled, direct, telemetry_conflict,
}
use sci_pegasus.Budget.Fence.{Validator, entry, fence_valid}
use sci_pegasus.Budget.Documents.{State, Reservation, find_reservation, without_reservation, holds}
use sci_pegasus.Budget.Updates.{started_filter, settle_update}
use sci_pegasus.Budget.Recovery.{active_reservation}
use sci_pegasus.Budget.Settlement.{
  Admission, is_applied, apply_telemetry_once, apply_contribution, has_identity, fresh_telemetry,
  put_telemetry, finish_settling_receipt, complete_call, receipt_of, settle_state, complete_receipt,
}

exists-append_one :
    {A : Type 0} (p : A → Bool) (xs : List A) (a : A) → p a ≡ true → exists p (xs ++ a ∷ []) ≡ true
exists-append_one p [] a h = ground arith
exists-append_one p (x ∷ xs) a h = ground (arith, exists-append_one p xs a h)

-- The telemetry after a contribution, which counts once.
abbrev pub once : Contribution → Totals → Telemetry → Telemetry
once id delta t = if is_applied id t then t else apply_contribution id delta t

same_contribution_refl :
    (id : Contribution) (delta : Totals) (t : Telemetry)
    → is_applied id (apply_contribution id delta t) ≡ true
unfolding is_applied apply_contribution
same_contribution_refl (settled a n) delta t =
    exists-append_one _ t.applied (settled a n) (ground (arith, eq_refl a))
same_contribution_refl (direct a) delta t = exists-append_one _ t.applied (direct a) (eq_refl a)

is_applied-once :
    (id : Contribution) (delta : Totals) (t : Telemetry) → is_applied id (once id delta t) ≡ true
is_applied-once id delta t = elim (Bool-cases (is_applied id t)) [
  | inl e ↦ rw e e
  | inr e ↦ rw e (same_contribution_refl id delta t)
]

has_identity-once :
    (c : Context) (id : Contribution) (delta : Totals) (t : Telemetry)
    → has_identity c (once id delta t) ≡ has_identity c t
unfolding has_identity apply_contribution
has_identity-once c id delta t = elim (Bool-cases (is_applied id t)) [ inl e ↦ rw e | inr e ↦ rw e ]

abbrev pub telemetry_of : Context → Ledger → Telemetry
telemetry_of c l = insert_or_update Telemetry (fresh_telemetry c) (λ t. t) (l.telemetry c.run_id)

-- What applyTelemetryOnce does, in one equation.
pub apply_telemetry_once-eq :
    (k : String → String) (now : ℕ) (c : Context) (id : Contribution) (delta : Totals) (l : Ledger)
    → apply_telemetry_once plain k now c id delta l ≡ (
        if has_identity c (telemetry_of c l)
        then (
          ok (once id delta (telemetry_of c l)),
          put_telemetry c.run_id (some (once id delta (telemetry_of c l))) l,
        )
        else (err telemetry_conflict, l))
unfolding apply_telemetry_once
apply_telemetry_once-eq k now c id delta l = elim (Bool-cases (is_applied id (telemetry_of c l))) [
  | inl e ↦ rw e
  | inr e ↦ rw e
]

put-put :
    (run_id : String) (slot : Option Telemetry) (l : Ledger)
    → put_telemetry run_id slot (put_telemetry run_id slot l) ≡ put_telemetry run_id slot l
unfolding put_telemetry
put-put run_id slot l =
    ap (λ (f : String → Option Telemetry). record l { telemetry = f })
      (fun_ext λ j. elim (Bool-cases (run_id == j)) [ inl e ↦ rw e | inr e ↦ rw e ])

telemetry_of-put :
    (c : Context) (t : Telemetry) (l : Ledger)
    → telemetry_of c (put_telemetry c.run_id (some t) l) ≡ t
unfolding put_telemetry
telemetry_of-put c t l = rw (eq_refl c.run_id, insert_or_update)

pub if-ok :
    {A : Type 0} (b : Bool) (x t : A) (e : Error) (m n l' : Ledger)
    → (let r : Result A × Ledger = (ok t, l') in (if b then (ok x, m) else (err e, n)) ≡ r)
    → (b ≡ true) × (x ≡ t) × (m ≡ l')
if-ok true x t e m n l' h = (refl, cc, cc)
if-ok false x t e m n l' h = absurd (ground arith)

-- Applying a contribution once more returns the same telemetry and changes nothing.
pub apply_twice :
    (k : String → String) (now later : ℕ) (c : Context) (id : Contribution) (delta : Totals)
    (l l' : Ledger) (t : Telemetry)
    → apply_telemetry_once plain k now c id delta l ≡ (ok t, l')
    → apply_telemetry_once plain k later c id delta l' ≡ (ok t, l')
apply_twice k now later c id delta l l' t h =
    let (known, same, left) =
      if-ok (has_identity c (telemetry_of c l)) (once id delta (telemetry_of c l)) t
        telemetry_conflict (put_telemetry c.run_id (some (once id delta (telemetry_of c l))) l) l l'
        (sym (apply_telemetry_once-eq k now c id delta l) ∙ h) in
    rw (
      apply_telemetry_once-eq,
      ← left,
      telemetry_of-put,
      has_identity-once,
      known,
      is_applied-once,
      put-put,
      same,
    )

pub continue-ok :
    {A B : Type 0} (r : Result A) (f : A → Exec B) (l l' : Ledger) (b : B)
    → continue r f l ≡ (ok b, l')
    → (a : A) × (r ≡ ok a) × (f a l ≡ (ok b, l'))
continue-ok (ok a) f l l' b h = (a, refl, h)
continue-ok (err e) f l l' b h = absurd (ground arith)

-- Where the reservation is gone there is nothing to settle.
pub settle_state-gone :
    (k : String → String) (now : ℕ) (r : Receipt) (l : Ledger)
    → active_reservation l.state r.reservation_key ≡ none
    → settle_state plain k now r l ≡ (ok tt, l)
unfolding settle_state active_reservation started_filter holds
settle_state-gone k now r l gone = elim (Option-cases l.state) [
  | inl e ↦ ground arith
  | inr (s, e) ↦ ground arith
]
