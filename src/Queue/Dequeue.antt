-- ===== src/Queue/Dequeue.antt =====
-- One dequeue claims every message that it may.
use sci_pegasus.Common.{
  ℕ, zero, suc, ◌<◌, ◌≡◌, refl, sym, ap, ◌∙◌, true, false, Option, none, some, List, [], ◌∷◌, map,
  select, length, arith, Bool-cases, inl, inr,
}
use sci_pegasus.Queue.Rows.{Row, Collection, IsCollection, first_changed, change_where}
use sci_pegasus.Queue.Claims.{
  Consumer, push, is_eligible, claim_row, dequeued, DequeuedMessage, claim_all, dequeue_messages,
}

-- A row in front that is not claimed.
abbrev in_front : Row → Option (List Row × List Row) → Option (List Row × List Row)
in_front r none = none
in_front r (some (docs, rows)) = some (docs, r ∷ rows)

in_front-push :
    (r d : Row) (o : Option (List Row × List Row)) → in_front r (push d o) ≡ push d (in_front r o)
in_front-push r d none = refl
in_front-push r d (some (docs, rows)) = refl

pub claimed_ineligible : (q : Consumer) (r : Row) → is_eligible q (claim_row q r) ≡ false
unfolding is_eligible claim_row
claimed_ineligible q r = ground arith

module _ (c : Collection) (documented : IsCollection c) (q : Consumer) where
  -- What a round does with what it found.
  abbrev continue_with : ℕ → Option Row × List Row → Option (List Row × List Row)
  continue_with fuel found = elim found.0 [
    | none ↦ some ([], found.1)
    | some r ↦ push r (claim_all c fuel q found.1)
  ]

  claim_all-round :
      (fuel : ℕ) (rows : List Row)
      → claim_all c (suc fuel) q rows
        ≡ continue_with fuel (first_changed (is_eligible q) (claim_row q) rows)
  unfolding claim_all
  claim_all-round fuel rows =
      ap (continue_with fuel) (documented.first (is_eligible q) (claim_row q) rows)

  skip_found :
      (fuel : ℕ) (r : Row)
      → ((left : List Row) → claim_all c fuel q (r ∷ left) ≡ in_front r (claim_all c fuel q left))
      → (hit : Option Row) (left : List Row)
      → continue_with fuel (hit, r ∷ left) ≡ in_front r (continue_with fuel (hit, left))
  skip_found fuel r skip none left = refl
  skip_found fuel r skip (some d) left =
      ap (push d) (skip left) ∙ sym (in_front-push r d (claim_all c fuel q left))

  first_changed-skip :
      (r : Row) (rows : List Row)
      → is_eligible q r ≡ false
      → first_changed (is_eligible q) (claim_row q) (r ∷ rows) ≡ (
        (first_changed (is_eligible q) (claim_row q) rows).0,
        r ∷ (first_changed (is_eligible q) (claim_row q) rows).1,
      )
  first_changed-skip r rows h = rw h

  claim_all-skip :
      (fuel : ℕ) (r : Row) (rows : List Row)
      → is_eligible q r ≡ false
      → claim_all c fuel q (r ∷ rows) ≡ in_front r (claim_all c fuel q rows)
  unfolding claim_all
  claim_all-skip zero r rows h = refl
  claim_all-skip (suc fuel) r rows h =
      let found = first_changed (is_eligible q) (claim_row q) rows in
      claim_all-round fuel (r ∷ rows)
      ∙ ap (continue_with fuel) (first_changed-skip r rows h)
      ∙ skip_found fuel r (λ left. claim_all-skip fuel r left h) found.0 found.1
      ∙ ap (in_front r) (sym (claim_all-round fuel rows))

  claim_all-take :
      (fuel : ℕ) (r : Row) (rows : List Row)
      → is_eligible q r ≡ true
      → claim_all c (suc fuel) q (r ∷ rows)
        ≡ push (claim_row q r) (claim_all c fuel q (claim_row q r ∷ rows))
  claim_all-take fuel r rows h = claim_all-round fuel (r ∷ rows) ∙ rw h

  claim_all_lem :
      (fuel : ℕ) (rows : List Row)
      → length rows < fuel
      → claim_all c fuel q rows
        ≡ some (
          map (claim_row q) (select (is_eligible q) rows),
          change_where (is_eligible q) (claim_row q) rows,
        )
  claim_all_lem zero rows h = absurd (omega arith)
  claim_all_lem (suc fuel) [] h = claim_all-round fuel []
  claim_all_lem (suc fuel) (r ∷ rows) h = elim (Bool-cases (is_eligible q r)) [
    | inl e ↦
        claim_all-take fuel r rows e
        ∙ ap (push (claim_row q r)) (
            claim_all-skip fuel (claim_row q r) rows (claimed_ineligible q r)
            ∙ ap (in_front (claim_row q r)) (claim_all_lem fuel rows (omega arith)))
        ∙ rw e
    | inr e ↦
        claim_all-skip (suc fuel) r rows e
        ∙ ap (in_front r) (claim_all_lem (suc fuel) rows (omega arith))
        ∙ rw e
  ]

-- A dequeue returns, for every collection that behaves as documented, the messages of all rows that
-- the consumer may take, in their order, and leaves exactly these rows claimed by it.
pub dequeue_messages_lem :
    (c : Collection)
    → IsCollection c
    → (q : Consumer) (rows : List Row)
    → dequeue_messages c q rows
      ≡ some (
        map (dequeued q) (map (claim_row q) (select (is_eligible q) rows)),
        change_where (is_eligible q) (claim_row q) rows,
      )
unfolding dequeue_messages
dequeue_messages_lem c documented q rows =
    ap report (claim_all_lem c documented q (suc (length rows)) rows (omega arith))
  where
    report : Option (List Row × List Row) → Option (List DequeuedMessage × List Row)
    report none = none
    report (some done) = some (map (dequeued q) done.0, done.1)
