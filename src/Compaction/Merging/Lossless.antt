-- ===== src/Compaction/Merging/Lossless.antt =====
-- A merge loses no message, whatever other processes do meanwhile.
use sci_pegasus.Common.{
  ℕ, zero, suc, ◌+◌, ◌≤◌, ◌<◌, ltb, ◌⊎◌, ◌≢◌, false, String, true, Option, none, some, List, [],
  ◌∷◌, ◌≡◌, refl, sym, ap, ◌∙◌, subst, take, drop, arith, Bool-cases, Option-cases, inl, inr,
  eq_iff,
}
use sci_pegasus.Compaction.Merging.{
  Context, Prepared, Change, appended, rewritten, fenced, MergeOutcome, lost_lease, merged, Round,
  active_messages, holds_fence, change, changed, may_swap, swapped, given_up, refusal, swap_rounds,
  swap_with, apply_prepared_merge,
}

module _ {ℓ} {M : Type ℓ} where
  changed-revision-le :
      (changes : List (Change M)) (c : Context M)
      → c.context_revision ≤ (changed changes c).context_revision
  unfolding changed
  changed-revision-le [] c = omega arith
  changed-revision-le (appended batch ∷ changes) c =
      omega (arith, changed-revision-le changes (change (appended batch) c))
  changed-revision-le (rewritten messages compacted ∷ changes) c =
      omega (arith, changed-revision-le changes (change (rewritten messages compacted) c))
  changed-revision-le (fenced fence ∷ changes) c =
      changed-revision-le changes (change (fenced fence) c)

  -- As long as the revision has not moved, the active messages are those that were read.
  changed_same :
      (changes : List (Change M)) (c : Context M)
      → (changed changes c).context_revision ≡ c.context_revision
      → active_messages (changed changes c) ≡ active_messages c
  unfolding changed
  changed_same [] c h = refl
  changed_same (appended batch ∷ changes) c h =
      absurd (omega (arith, h, changed-revision-le changes (change (appended batch) c)))
  changed_same (rewritten messages compacted ∷ changes) c h =
      absurd
        (omega (arith, h, changed-revision-le changes (change (rewritten messages compacted) c)))
  changed_same (fenced fence ∷ changes) c h = changed_same changes (change (fenced fence) c) h

-- The document before round k, and so when round k - 1 writes, as the others made it; no write of the
-- merge is in it.
unfoldable pub document_at {ℓ} : {M : Type ℓ} → (ℕ → Round M) → Context M → ℕ → Context M
unfolding changed
document_at rounds c zero = c
document_at rounds c (suc k) = changed (rounds k).changes (document_at rounds c k)

-- The revision moved between the read and the write of round k.
abbrev pub IsMoved {ℓ} : {M : Type ℓ} → (ℕ → Round M) → Context M → ℕ → Type 0
IsMoved rounds c k =
    (document_at rounds c (suc k)).context_revision ≢ (document_at rounds c k).context_revision

-- The write of round k would have met a changed document, or a fence that is not the merge's.
abbrev pub IsPrevented {ℓ} : {M : Type ℓ} → (ℕ → Round M) → Prepared M → Context M → ℕ → Type 0
IsPrevented rounds j c k =
    IsMoved rounds c k
    ⊎ (holds_fence j (rounds k).now (document_at rounds c (suc k)).context_compaction_fence ≡ false)

-- The merge was made in the first of the eight rounds that nothing prevented, on the document as all
-- changes of the others up to its write had left it, and replaced just the frozen prefix of the messages
-- that stood there.
pub record IsLossless {ℓ} {M : Type ℓ} (hash_messages : List M → String) (rounds : ℕ → Round M)
    (j : Prepared M) (r : M) (c : Context M) (n : ℕ) (after : Context M) : Type ℓ where
  pub reported : n ≡ after.context_revision
  pub round : ℕ
  pub in_time : round < 8
  pub prevented : (i : ℕ) → i < round → IsPrevented rounds j c i
  pub unmoved :
      (document_at rounds c (suc round)).context_revision
      ≡ (document_at rounds c round).context_revision
  pub fenced :
      holds_fence j (rounds round).now (document_at rounds c (suc round)).context_compaction_fence
      ≡ true
  pub prefix_unchanged :
      hash_messages (take j.prefix_length (active_messages (document_at rounds c (suc round))))
      ≡ j.prefix_hash
  pub active :
      active_messages after
      ≡ r ∷ drop j.prefix_length (active_messages (document_at rounds c (suc round)))
  pub audit : after.messages ≡ (document_at rounds c (suc round)).messages
  pub revision : after.context_revision ≡ suc (document_at rounds c (suc round)).context_revision
  pub applied : after.last_applied_compaction_id ≡ some j.job_id
  pub unfenced : after.context_compaction_fence ≡ none

module _ {ℓ} {M : Type ℓ} (hash_messages : List M → String) (hash_value : M → String) where
  refusal-none :
      (j : Prepared M) (r : M) (hash : String) (c : Context M)
      → refusal hash_messages hash_value j r hash c ≡ none
      → hash_messages (take j.prefix_length (active_messages c)) ≡ j.prefix_hash
  unfolding refusal
  refusal-none j r hash c h =
      ground
        (arith, eq_iff (hash_messages (take j.prefix_length (active_messages c))) j.prefix_hash)

  may_swap-true :
      (j : Prepared M) (n now : ℕ) (c : Context M)
      → may_swap j n now c ≡ true
      → (c.context_revision ≡ n) × (holds_fence j now c.context_compaction_fence ≡ true)
  unfolding may_swap
  may_swap-true j n now c h = ground arith

  may_swap-false :
      (j : Prepared M) (n now : ℕ) (c : Context M)
      → may_swap j n now c ≡ false
      → (c.context_revision ≢ n) ⊎ (holds_fence j now c.context_compaction_fence ≡ false)
  unfolding may_swap
  may_swap-false j n now c h = elim (Bool-cases (holds_fence j now c.context_compaction_fence)) [
    | inl e ↦ inl (λ same. ground arith)
    | inr e ↦ inr e
  ]

  swapped-IsLossless :
      (rounds : ℕ → Round M) (j : Prepared M) (r : M) (hash : String) (k : ℕ) (c : Context M)
      → k < 8
      → ((i : ℕ) → i < k → IsPrevented rounds j c i)
      → refusal hash_messages hash_value j r hash (document_at rounds c k) ≡ none
      → may_swap j
          (document_at rounds c k).context_revision
          (rounds k).now
          (document_at rounds c (suc k))
        ≡ true
      → IsLossless hash_messages rounds j r c (suc (document_at rounds c k).context_revision) (
          swapped j
            (document_at rounds c k).context_revision
            (r ∷ drop j.prefix_length (active_messages (document_at rounds c k)))
            (document_at rounds c (suc k)))
  unfolding swapped document_at
  swapped-IsLossless rounds j r hash k c early before e h =
      let read = document_at rounds c k in
      let there = document_at rounds c (suc k) in
      let (still, held) = may_swap-true j read.context_revision (rounds k).now there h in
      let same = changed_same (rounds k).changes read still in
      record {
        reported = refl;
        round = k;
        in_time = early;
        prevented = before;
        unmoved = still;
        fenced = held;
        prefix_unchanged =
            ap (λ active. hash_messages (take j.prefix_length active)) same
            ∙ refusal-none j r hash read e;
        active = ap (λ active. r ∷ drop j.prefix_length active) (sym same);
        audit = refl;
        revision = ap (λ n. suc n) (sym still);
        applied = refl;
        unfenced = refl;
      }

  IsPrevented-suc :
      (rounds : ℕ → Round M) (j : Prepared M) (k : ℕ) (c : Context M)
      → ((i : ℕ) → i < k → IsPrevented rounds j c i)
      → IsPrevented rounds j c k
      → (i : ℕ) → i < suc k
      → IsPrevented rounds j c i
  IsPrevented-suc rounds j k c before last i h = elim (Bool-cases (ltb i k)) [
    | inl e ↦ before i (ground arith)
    | inr e ↦ let same : k ≡ i = ground arith in subst (λ n. IsPrevented rounds j c n) same last
  ]

  given_up_unmerged :
      (j : Prepared M) (c after : Context M) (n : ℕ) → given_up j c ≡ (merged n, after) → ⊥
  unfolding given_up
  given_up_unmerged j c after n h = ground arith

  lost_lease_unmerged :
      (c after : Context M) (n : ℕ)
      → ◌≡◌ {A = MergeOutcome × Context M} (lost_lease, c) (merged n, after)
      → ⊥
  lost_lease_unmerged c after n h = ground arith

  refusal_unmerged :
      (j : Prepared M) (r : M) (hash : String) (c after : Context M) (outcome : MergeOutcome)
      (n : ℕ)
      → refusal hash_messages hash_value j r hash c ≡ some outcome
      → ◌≡◌ {A = MergeOutcome × Context M} (outcome, c) (merged n, after)
      → ⊥
  unfolding refusal
  refusal_unmerged j r hash c after outcome n f h =
      let same : outcome ≡ merged n = ap (λ answer. answer.0) h in ground arith

  merged-IsLossless :
      (rounds : ℕ → Round M) (j : Prepared M) (r : M) (c : Context M) {m n : ℕ}
      {last after : Context M}
      → ◌≡◌ {A = MergeOutcome × Context M} (merged m, last) (merged n, after)
      → IsLossless hash_messages rounds j r c m last
      → IsLossless hash_messages rounds j r c n after
  merged-IsLossless rounds j r c {m} {n} {last} {after} h l =
      let outcome : merged m ≡ merged n = ap (λ answer. answer.0) h in
      let same : m ≡ n = ground arith in
      subst (λ k. IsLossless hash_messages rounds j r c k after) same
        (subst (λ d. IsLossless hash_messages rounds j r c m d) (ap (λ answer. answer.1) h) l)

  -- From round k on, on the document that the rounds before have left.
  swap_rounds-IsLossless :
      (fuel k : ℕ) (rounds : ℕ → Round M) (j : Prepared M) (r : M) (hash : String)
      (c after : Context M) (n : ℕ)
      → k + fuel ≡ 8
      → ((i : ℕ) → i < k → IsPrevented rounds j c i)
      → swap_rounds hash_messages hash_value fuel k rounds j r hash (document_at rounds c k)
        ≡ (merged n, after)
      → IsLossless hash_messages rounds j r c n after
  unfolding swap_rounds document_at
  swap_rounds-IsLossless zero k rounds j r hash c after n all before h =
      absurd (given_up_unmerged j (document_at rounds c k) after n h)
  swap_rounds-IsLossless (suc fuel) k rounds j r hash c after n all before h =
      let read = document_at rounds c k in
      let there = changed (rounds k).changes read in
      elim (Bool-cases (rounds k).is_live) [
        | inr e ↦ absurd (lost_lease_unmerged read after n (rw e at h))
        | inl e ↦ elim (Option-cases (refusal hash_messages hash_value j r hash read)) [
          | inr (outcome, f) ↦
              absurd (refusal_unmerged j r hash read after outcome n f (rw (e, f) at h))
          | inl f ↦ elim (Bool-cases (may_swap j read.context_revision (rounds k).now there)) [
            | inl g ↦
                merged-IsLossless rounds j r c (rw (e, f, g) at h)
                  (swapped-IsLossless rounds j r hash k c (omega (arith, all)) before f g)
            | inr g ↦
                swap_rounds-IsLossless fuel (suc k) rounds j r hash c after n (omega (arith, all))
                  (IsPrevented-suc rounds j k c before
                    (may_swap-false j read.context_revision (rounds k).now there g))
                  (rw (e, f, g) at h)
          ]
        ]
      ]

  swap_with-IsLossless :
      (rounds : ℕ → Round M) (j : Prepared M) (replacement : Option M) (hash : Option String)
      (c after : Context M) (n : ℕ)
      → swap_with hash_messages hash_value rounds j replacement hash c ≡ (merged n, after)
      → (r : M) × (replacement ≡ some r) × IsLossless hash_messages rounds j r c n after
  unfolding swap_with document_at
  swap_with-IsLossless rounds j (some r) (some hash) c after n h = (
    r,
    refl,
    swap_rounds-IsLossless 8 0 rounds j r hash c after n refl (λ i below. absurd (omega arith)) h,
  )
  swap_with-IsLossless rounds j (some r) none c after n h = absurd (ground arith)
  swap_with-IsLossless rounds j none hash c after n h = absurd (ground arith)

-- Others may append messages or rewrite the conversation, each with an advance of its revision, or move the
-- fence between the reads and the writes of a merge; `rounds` says what they do in each round. A merge that
-- reports success was made in the first of the eight rounds in which the revision did not move between the
-- read and the write and the merge held its fence at the write. On the document as all that the others did
-- up to that write, and nothing else, left it: its first `prefix_length` active messages have the hash that
-- was frozen, and what is active afterwards is the replacement followed by all its other active messages in
-- order, those appended meanwhile included. The list of all messages is kept, the revision is advanced by
-- one and reported, the job is marked as applied and the fence is gone.
pub apply_prepared_merge-IsLossless {ℓ} :
    {M : Type ℓ} (hash_messages : List M → String) (hash_value : M → String) (rounds : ℕ → Round M)
    (j : Prepared M) (c after : Context M) (n : ℕ)
    → apply_prepared_merge hash_messages hash_value rounds j c ≡ (merged n, after)
    → (r : M) × (j.replacement_message ≡ some r) × IsLossless hash_messages rounds j r c n after
unfolding apply_prepared_merge
apply_prepared_merge-IsLossless hash_messages hash_value rounds j c after n h =
    swap_with-IsLossless hash_messages hash_value rounds j j.replacement_message j.replacement_hash
      c after n h
