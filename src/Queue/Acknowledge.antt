-- ===== src/Queue/Acknowledge.antt =====
-- What an acknowledgement does to each row, in one pass.
use sci_pegasus.Common.{
  ◌≡◌, refl, sym, ap, ◌∙◌, String, false, ◌&&◌, not, List, [], ◌∷◌, select, arith, Bool-cases, inl,
  inr, if◌then◌else◌,
}
use sci_pegasus.Queue.Rows.{Row, Collection, IsCollection, change_where}
use sci_pegasus.Queue.Claims.{in_claim, has_receipt, acknowledge_row, acknowledge_dequeued}

-- A claimed row with a key is kept as a receipt, one without is removed, and all others stay.
unfoldable pub after_acknowledgement : List String → String → List Row → List Row
after_acknowledgement ids claim [] = []
after_acknowledgement ids claim (r ∷ rows) =
    let rest = after_acknowledgement ids claim rows in
    if in_claim ids claim r
    then (if has_receipt r then acknowledge_row r ∷ rest else rest)
    else r ∷ rest

acknowledged_unclaimed :
    (ids : List String) (claim : String) (r : Row) → in_claim ids claim (acknowledge_row r) ≡ false
unfolding in_claim acknowledge_row
acknowledged_unclaimed ids claim r = ground arith

two_passes :
    (ids : List String) (claim : String) (rows : List Row)
    → select
        (λ r. not (in_claim ids claim r && not (has_receipt r)))
        (change_where (λ r. in_claim ids claim r && has_receipt r) acknowledge_row rows)
      ≡ after_acknowledgement ids claim rows
unfolding after_acknowledgement
two_passes ids claim [] = refl
two_passes ids claim (r ∷ rows) = elim (Bool-cases (in_claim ids claim r)) [
  | inl e ↦ elim (Bool-cases (has_receipt r)) [
    | inl k ↦
        rw (e, k, acknowledged_unclaimed)
          (ap (λ rs. acknowledge_row r ∷ rs) (two_passes ids claim rows))
    | inr k ↦ rw (e, k) (rw (e, k) (two_passes ids claim rows))
  ]
  | inr e ↦ rw e (rw e (ap (λ rs. r ∷ rs) (two_passes ids claim rows)))
]

in_claim-nil : (claim : String) (rows : List Row) → after_acknowledgement [] claim rows ≡ rows
unfolding after_acknowledgement in_claim
in_claim-nil claim [] = refl
in_claim-nil claim (r ∷ rows) = ap (λ rs. r ∷ rs) (in_claim-nil claim rows)

-- An acknowledgement keeps each row of the claim that has an idempotency key as an acknowledged
-- receipt, removes those that have none, and leaves every other row as it is, in its place.
pub acknowledge_dequeued_lem :
    (c : Collection)
    → IsCollection c
    → (ids : List String) (claim : String) (rows : List Row)
    → acknowledge_dequeued c ids claim rows ≡ after_acknowledgement ids claim rows
unfolding acknowledge_dequeued
acknowledge_dequeued_lem c documented [] claim rows = sym (in_claim-nil claim rows)
acknowledge_dequeued_lem c documented (id ∷ ids) claim rows =
    documented.deleted _ _
    ∙ ap (select (λ r. not (in_claim (id ∷ ids) claim r && not (has_receipt r))))
        (documented.many (λ r. in_claim (id ∷ ids) claim r && has_receipt r) acknowledge_row rows)
    ∙ two_passes (id ∷ ids) claim rows
