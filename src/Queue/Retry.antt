-- ===== src/Queue/Retry.antt =====
-- Enqueueing the same message again.
use sci_pegasus.Common.{
  ℕ, ◌≡◌, sym, ap, ◌∙◌, String, eq_refl, Bool, true, none, some, List, [], ◌∷◌, ◌++◌, arith,
  Option-cases, inl, inr,
}
use sci_pegasus.Budget.Documents.{truthy}
use sci_pegasus.Queue.Rows.{Row, Collection, IsCollection, find_first}
use sci_pegasus.Queue.Intake.{
  QueueReceipt, Submission, accepted, has_key, row_of, enqueue_message, enqueue_keyed, answer,
  same_payload,
}

find_first-append :
    (p : Row → Bool) (rows : List Row) (new : Row)
    → find_first p rows ≡ none
    → p new ≡ true
    → find_first p (rows ++ new ∷ []) ≡ some new
find_first-append p [] new h n = rw n
find_first-append p (r ∷ rows) new h n = ground (arith, find_first-append p rows new)

row_of-key :
    (key : String) (q : Submission) → has_key q.conversation_id key (row_of (some key) q) ≡ true
unfolding has_key row_of
row_of-key key q = ground (arith, eq_refl q.conversation_id, eq_refl key)

-- What a process that takes over submits: the payload is the same, the rest is new.
abbrev pub resubmitted : Submission → String → String → ℕ → Submission
resubmitted q uuid object_id now = record q { uuid = uuid; object_id = object_id; now = now }

answer_again :
    (q : Submission) (uuid object_id mid : String) (now : ℕ) (r : Row)
    → q.message_id ≡ some mid
    → answer (resubmitted q uuid object_id now) r ≡ answer q r
unfolding answer same_payload
answer_again q uuid object_id mid now r h = rw h

module _ (c : Collection) (documented : IsCollection c) (key : String) where
  -- Where the key is known, nothing is written.
  known_again :
      (q : Submission) (stored : Row) (rows : List Row)
      → find_first (has_key q.conversation_id key) rows ≡ some stored
      → enqueue_keyed c key q rows ≡ (answer q stored, rows)
  unfolding enqueue_keyed
  known_again q stored rows h = rw (
    documented.known (has_key q.conversation_id key) (row_of (some key) q) stored rows h,
    enqueue_keyed,
  )

  new_row :
      (q : Submission) (rows : List Row)
      → c.find_or_insert (has_key q.conversation_id key) (row_of (some key) q) rows
        ≡ some (row_of (some key) q, rows ++ row_of (some key) q ∷ [])
      → enqueue_keyed c key q rows
        ≡ (answer q (row_of (some key) q), rows ++ row_of (some key) q ∷ [])
  unfolding enqueue_keyed
  new_row q rows h = rw (h, enqueue_keyed)

  no_row :
      (q : Submission) (rows left : List Row) (rc : QueueReceipt)
      → find_first (has_key q.conversation_id key) rows ≡ none
      → c.find_or_insert (has_key q.conversation_id key) (row_of (some key) q) rows ≡ none
      → enqueue_keyed c key q rows ≡ (accepted rc, left)
      → ⊥
  unfolding enqueue_keyed
  no_row q rows left rc e d h = ground arith

  -- After an accepted submission the key is known.
  stored_after :
      (q : Submission) (rows left : List Row) (rc : QueueReceipt)
      → enqueue_keyed c key q rows ≡ (accepted rc, left)
      → (r : Row) × (find_first (has_key q.conversation_id key) left ≡ some r)
        × (answer q r ≡ accepted rc)
  unfolding enqueue_keyed
  stored_after q rows left rc h =
      elim (Option-cases (find_first (has_key q.conversation_id key) rows)) [
        | inr (r, e) ↦
            let both = sym (known_again q r rows e) ∙ h in
            (r, rw (← ap (λ x. x.1) both) e, ap (λ x. x.0) both)
        | inl e ↦
            elim (documented.inserted (has_key q.conversation_id key) (row_of (some key) q) rows
              e) [
                | inl new ↦
                    let both = sym (new_row q rows new) ∙ h in
                    (
                      row_of (some key) q,
                      rw (← ap (λ x. x.1) both)
                          (find_first-append _ rows (row_of (some key) q) e (row_of-key key q)),
                      ap (λ x. x.0) both,
                    )
                | inr duplicate ↦ absurd (no_row q rows left rc e duplicate h)
              ]
      ]

  again :
      (q : Submission) (uuid object_id mid : String) (now : ℕ) (rows left : List Row)
      (rc : QueueReceipt)
      → q.message_id ≡ some mid
      → enqueue_keyed c key q rows ≡ (accepted rc, left)
      → enqueue_keyed c key (resubmitted q uuid object_id now) left ≡ (accepted rc, left)
  again q uuid object_id mid now rows left rc i h =
      let (r, found, answered) = stored_after q rows left rc h in
      known_again (resubmitted q uuid object_id now) r left found
      ∙ ap (λ x. (x, left)) (answer_again q uuid object_id mid now r i ∙ answered)

-- A message that was accepted under an idempotency key and a stable message id is accepted again with
-- the same receipt, and nothing is written, when another process submits it right after: the uuid,
-- the document id and the time of the new submission do not matter.
pub enqueue_message-once :
    (c : Collection)
    → IsCollection c
    → (q : Submission) (key mid uuid object_id : String) (now : ℕ) (rows left : List Row)
      (rc : QueueReceipt)
    → truthy q.idempotency_key ≡ some key
    → q.message_id ≡ some mid
    → enqueue_message c q rows ≡ (accepted rc, left)
    → enqueue_message c (resubmitted q uuid object_id now) left ≡ (accepted rc, left)
unfolding enqueue_message
enqueue_message-once c documented q key mid uuid object_id now rows left rc k i h =
    rw (k, enqueue_message)
      (again c documented key q uuid object_id mid now rows left rc i
        (rw (k, enqueue_message) at h))
