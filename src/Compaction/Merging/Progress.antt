-- ===== src/Compaction/Merging/Progress.antt =====
-- A merge that only appended messages delay goes through.
use sci_pegasus.Common.{
  ℕ, zero, suc, ◌+◌, ◌≤◌, ◌<◌, String, true, false, Option, none, some, List, [], ◌∷◌, ◌++◌, ◌≡◌,
  refl, sym, ap, ◌∙◌, subst, length, take, drop, arith, length-append, Bool-cases, inl, inr,
}
use sci_pegasus.Compaction.Merging.{
  Context, Prepared, Change, appended, merged, Round, active_of, active_messages, appended_to,
  change, changed, holds_fence, may_swap, swapped, refusal, swap_rounds, swap_with,
  apply_prepared_merge,
}

-- Only new messages arrive.
pub data OnlyAppends {ℓ} {M : Type ℓ} : List (Change M) → Type ℓ where
  quiet : OnlyAppends []
  arrives :
      (batch : List M) (changes : List (Change M))
      → OnlyAppends changes
      → OnlyAppends (appended batch ∷ changes)

module _ {ℓ} {M : Type ℓ} where
  take-append : (n : ℕ) (xs ys : List M) → n ≤ length xs → take n (xs ++ ys) ≡ take n xs
  take-append zero xs ys h = refl
  take-append (suc n) [] ys h = absurd (omega (arith, h))
  take-append (suc n) (x ∷ xs) ys h = ap (λ zs. x ∷ zs) (take-append n xs ys (omega (arith, h)))

  active_of-append :
      (compacted messages batch : List M)
      → active_of (appended_to compacted batch) (messages ++ batch)
        ≡ active_of compacted messages ++ batch
  active_of-append [] messages batch = refl
  active_of-append (m ∷ compacted) messages batch = refl

module _ {ℓ} {M : Type ℓ} (hash_messages : List M → String) (hash_value : M → String)
    (j : Prepared M) (r : M) (hash : String) where
  -- A merge that is not refused is not refused after more messages.
  appended-refusal :
      (batch : List M) (c : Context M)
      → refusal hash_messages hash_value j r hash c ≡ none
      → refusal hash_messages hash_value j r hash (change (appended batch) c) ≡ none
  unfolding refusal change
  appended-refusal batch c h =
      let longer = active_of-append c.compacted_messages c.messages batch in
      let count = ap (λ xs. length xs) longer ∙ length-append (active_messages c) batch in
      let same = λ (p : j.prefix_length ≤ length (active_messages c)).
        ap (λ xs. hash_messages (take j.prefix_length xs)) longer
        ∙ ap hash_messages (take-append j.prefix_length (active_messages c) batch p) in
      ground (arith, count, same)

  appends-refusal :
      (changes : List (Change M)) (c : Context M)
      → OnlyAppends changes
      → refusal hash_messages hash_value j r hash c ≡ none
      → refusal hash_messages hash_value j r hash (changed changes c) ≡ none
  unfolding changed
  appends-refusal [] c quiet h = h
  appends-refusal (x ∷ changes) c (arrives batch rest only) h =
      appends-refusal rest (change (appended batch) c) only (appended-refusal batch c h)

  appends-fence :
      (changes : List (Change M)) (c : Context M)
      → OnlyAppends changes
      → (changed changes c).context_compaction_fence ≡ c.context_compaction_fence
  unfolding changed change
  appends-fence [] c quiet = refl
  appends-fence (x ∷ changes) c (arrives batch rest only) =
      appends-fence rest (change (appended batch) c) only

  quiet-may_swap :
      (changes : List (Change M)) (now : ℕ) (c : Context M)
      → changes ≡ []
      → holds_fence j now c.context_compaction_fence ≡ true
      → may_swap j c.context_revision now (changed changes c) ≡ true
  unfolding may_swap changed
  quiet-may_swap changes now c e h =
      subst (λ last. may_swap j c.context_revision now (changed last c) ≡ true) (sym e)
        (ground arith)

  module _ (rounds : ℕ → Round M) (live : (n : ℕ) → (rounds n).is_live ≡ true) where
    swap_rounds-now :
        (fuel k : ℕ) (c : Context M)
        → refusal hash_messages hash_value j r hash c ≡ none
        → may_swap j c.context_revision (rounds k).now (changed (rounds k).changes c) ≡ true
        → (n : ℕ) × (after : Context M) × (swap_rounds hash_messages hash_value
              (suc fuel)
              k
              rounds
              j
              r
              hash
              c
            ≡ (merged n, after))
    unfolding swap_rounds
    swap_rounds-now fuel k c h g =
        let there = changed (rounds k).changes c in
        (
          suc c.context_revision,
          swapped j c.context_revision (r ∷ drop j.prefix_length (active_messages c)) there,
          rw (live k, h, g),
        )

    swap_rounds-later :
        (fuel k : ℕ) (c : Context M)
        → refusal hash_messages hash_value j r hash c ≡ none
        → may_swap j c.context_revision (rounds k).now (changed (rounds k).changes c) ≡ false
        → swap_rounds hash_messages hash_value (suc fuel) k rounds j r hash c
          ≡ swap_rounds hash_messages hash_value fuel
              (suc k)
              rounds
              j
              r
              hash
              (changed (rounds k).changes c)
    unfolding swap_rounds
    swap_rounds-later fuel k c h g = rw (live k, h, g)

    -- The quiet round is the q-th from now.
    swap_rounds-merges :
        (only : (n : ℕ) → OnlyAppends (rounds n).changes) (fuel k i q : ℕ) (c : Context M)
        → i ≡ k + q
        → q < fuel
        → (rounds i).changes ≡ []
        → holds_fence j (rounds i).now c.context_compaction_fence ≡ true
        → refusal hash_messages hash_value j r hash c ≡ none
        → (n : ℕ) × (after : Context M) × (swap_rounds hash_messages hash_value fuel k rounds j r
              hash c
            ≡ (merged n, after))
    swap_rounds-merges only zero k i q c at enough e held h = absurd (omega (arith, enough))
    swap_rounds-merges only (suc fuel) k i zero c at enough e held h =
        let here : i ≡ k = omega (arith, at) in
        swap_rounds-now fuel k c h (
          quiet-may_swap (rounds k).changes (rounds k).now c
            (subst (λ n. (rounds n).changes ≡ []) here e)
            (subst (λ n. holds_fence j (rounds n).now c.context_compaction_fence ≡ true) here held))
    swap_rounds-merges only (suc fuel) k i (suc q) c at enough e held h =
        let changes = (rounds k).changes in
        elim (Bool-cases (may_swap j c.context_revision (rounds k).now (changed changes c))) [
          | inl g ↦ swap_rounds-now fuel k c h g
          | inr g ↦
              let rest =
                swap_rounds-merges only fuel (suc k) i q (changed changes c) (omega (arith, at))
                  (omega (arith, enough)) e
                  (ap (λ fence. holds_fence j (rounds i).now fence)
                      (appends-fence changes c (only k))
                    ∙ held)
                  (appends-refusal changes c (only k) h) in
              (rest.0, rest.1, swap_rounds-later fuel k c h g ∙ rest.2)
        ]

  swap_with-merges :
      (rounds : ℕ → Round M) (live : (n : ℕ) → (rounds n).is_live ≡ true)
      (only : (n : ℕ) → OnlyAppends (rounds n).changes) (i : ℕ) (c : Context M)
      (replacement : Option M) (replacement_hash : Option String)
      → replacement ≡ some r
      → replacement_hash ≡ some hash
      → i < 8
      → (rounds i).changes ≡ []
      → holds_fence j (rounds i).now c.context_compaction_fence ≡ true
      → refusal hash_messages hash_value j r hash c ≡ none
      → (n : ℕ) × (after : Context M) × (swap_with hash_messages hash_value rounds j replacement
            replacement_hash c
          ≡ (merged n, after))
  unfolding swap_with
  swap_with-merges rounds live only i c replacement replacement_hash er eh enough e held h =
      let found = swap_rounds-merges rounds live only 8 0 i i c (omega arith) enough e held h in
      (found.0, found.1, rw (er, eh, found.2))

-- A prepared merge that is not refused on the document as it stands, whose lease is live in every round and
-- whose owner's fence is its own and has not run out at a round i, is made: if others only append messages,
-- and append none in round i, one of the eight, then it reports success.
pub apply_prepared_merge-merges {ℓ} :
    {M : Type ℓ} (hash_messages : List M → String) (hash_value : M → String) (j : Prepared M)
    (r : M) (hash : String) (rounds : ℕ → Round M) (live : (n : ℕ) → (rounds n).is_live ≡ true)
    (only : (n : ℕ) → OnlyAppends (rounds n).changes) (i : ℕ) (c : Context M)
    → j.replacement_message ≡ some r
    → j.replacement_hash ≡ some hash
    → i < 8
    → (rounds i).changes ≡ []
    → holds_fence j (rounds i).now c.context_compaction_fence ≡ true
    → refusal hash_messages hash_value j r hash c ≡ none
    → (n : ℕ) × (after : Context M) × (apply_prepared_merge hash_messages hash_value rounds j c
        ≡ (merged n, after))
unfolding apply_prepared_merge
apply_prepared_merge-merges hash_messages hash_value j r hash rounds live only i c =
    swap_with-merges hash_messages hash_value j r hash rounds live only i c j.replacement_message
      j.replacement_hash
