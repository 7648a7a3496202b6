-- ===== src/Queue/Privacy.antt =====
-- A message of one Run does not leak to another consumer when its claim is released.
use sci_pegasus.Common.{
  ◌≡◌, refl, ap, ◌∙◌, String, ◌==◌, Bool, true, false, not, none, some, List, [], ◌∷◌, select, All,
  arith, Bool-cases, inl, inr, if◌then◌else◌,
}
use sci_pegasus.Budget.Documents.{truthy}
use sci_pegasus.Queue.Rows.{Row, Collection, IsCollection, change_where}
use sci_pegasus.Queue.Claims.{Consumer, is_eligible, in_claim, release_row, release_claim}

-- Every row of the claim is bound to one Run.
abbrev pub IsBound : List String → String → String → List Row → Type 0
IsBound ids claim run rows =
    All (λ r. in_claim ids claim r ≡ true → r.target_run_id ≡ some run) rows

-- A consumer that works for another Run, or for the conversation.
unfoldable pub is_other : String → Consumer → Bool
is_other run q = elim (truthy q.target_run_id) [ none ↦ true | some mine ↦ not (run == mine) ]

released_ineligible :
    (run : String) (q : Consumer) (r : Row)
    → is_other run q ≡ true
    → r.target_run_id ≡ some run
    → is_eligible q (release_row r) ≡ false
unfolding is_other is_eligible release_row
released_ineligible run q r o t = ground arith

claimed_ineligible_lem :
    (ids : List String) (claim : String) (q : Consumer) (r : Row)
    → in_claim ids claim r ≡ true
    → is_eligible q r ≡ false
unfolding in_claim is_eligible
claimed_ineligible_lem ids claim q r h = ground arith

released_rows :
    (ids : List String) (claim run : String) (q : Consumer) (rows : List Row)
    → is_other run q ≡ true
    → IsBound ids claim run rows
    → select (is_eligible q) (change_where (in_claim ids claim) release_row rows)
      ≡ select (is_eligible q) rows
released_rows ids claim run q [] o b = refl
released_rows ids claim run q (r ∷ rows) o b = elim (Bool-cases (in_claim ids claim r)) [
  | inl e ↦
      rw (e, released_ineligible run q r o (b.0 e), claimed_ineligible_lem ids claim q r e)
        (released_rows ids claim run q rows o b.1)
  | inr e ↦
      rw e (
        ap (λ rs. if is_eligible q r then r ∷ rs else rs)
          (released_rows ids claim run q rows o b.1))
]

-- Releasing a claim whose rows are bound to a Run gives no consumer that works for another Run, or
-- for the conversation, anything that it could not take before: member-only messages do not leak.
pub release_claim_private :
    (c : Collection)
    → IsCollection c
    → (ids : List String) (claim run : String) (q : Consumer) (rows : List Row)
    → is_other run q ≡ true
    → IsBound ids claim run rows
    → select (is_eligible q) (release_claim c ids claim rows) ≡ select (is_eligible q) rows
unfolding release_claim
release_claim_private c documented [] claim run q rows o b = refl
release_claim_private c documented (id ∷ ids) claim run q rows o b =
    ap (select (is_eligible q)) (documented.many (in_claim (id ∷ ids) claim) release_row rows)
    ∙ released_rows (id ∷ ids) claim run q rows o b
