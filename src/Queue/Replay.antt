-- ===== src/Queue/Replay.antt =====
-- lib/agent/message-queue.ts: telling the messages of a claim that are already in the conversation.
use sci_pegasus.Common.{
  ◌≡◌, refl, sym, subst, ap, String, ◌==◌, eq_refl, Bool, true, false, ◌||◌, not, Option, some,
  List, [], ◌∷◌, ◌++◌, exists, select, map, All, same_text, arith, Bool-cases, inl, inr,
}
use sci_pegasus.Budget.Documents.{truthy}
use sci_pegasus.Queue.Claims.{DequeuedMessage}

-- What partitionQueuedMessages reads of a ConversationMessage.
pub record Persisted : Type 0 where
  pub source_queue_id : Option String
  pub message_id : Option String

pub record Partition : Type 0 where
  pub fresh : List DequeuedMessage
  pub duplicate : List DequeuedMessage

abbrev from_queue : DequeuedMessage → Persisted → Bool
from_queue d m = same_text (truthy m.source_queue_id) (some d.queue_id)

abbrev has_id : DequeuedMessage → Persisted → Bool
has_id d m = same_text (truthy m.message_id) (some d.message_id)

unfoldable pub is_persisted : List Persisted → DequeuedMessage → Bool
is_persisted messages d = exists (from_queue d) messages || exists (has_id d) messages

-- partitionQueuedMessages
unfoldable pub partition_queued : List Persisted → List DequeuedMessage → Partition
unfolding is_persisted
partition_queued messages queued = record {
  fresh = select (λ d. not (is_persisted messages d)) queued;
  duplicate = select (is_persisted messages) queued;
}

-- The message that a loop appends for a fresh one.
unfoldable pub checkpoint : DequeuedMessage → Persisted
checkpoint d = record { source_queue_id = some d.queue_id; message_id = some d.message_id }

exists-more :
    {A : Type 0} (p : A → Bool) (xs ys : List A) (a : A)
    → exists p (xs ++ ys) ≡ true
    → exists p (xs ++ a ∷ ys) ≡ true
exists-more p [] ys a h = ground arith
exists-more p (x ∷ xs) ys a h = ground (arith, exists-more p xs ys a)

exists-left :
    {A : Type 0} (p : A → Bool) (xs ys : List A) → exists p xs ≡ true → exists p (xs ++ ys) ≡ true
exists-left p (x ∷ xs) ys h = ground (arith, exists-left p xs ys)
exists-left p [] ys h = absurd (ground arith)

exists-here :
    {A : Type 0} (p : A → Bool) (xs ys : List A) (a : A)
    → p a ≡ true
    → exists p (xs ++ a ∷ ys) ≡ true
exists-here p [] ys a h = ground arith
exists-here p (x ∷ xs) ys a h = ground (arith, exists-here p xs ys a)

module _ (messages : List Persisted) (d : DequeuedMessage) where
  persisted_more :
      (later : List Persisted) (m : Persisted)
      → is_persisted (messages ++ later) d ≡ true
      → is_persisted (messages ++ m ∷ later) d ≡ true
  unfolding is_persisted
  persisted_more later m h =
      ground (
        arith,
        exists-more (from_queue d) messages later m,
        exists-more (has_id d) messages later m,
      )

  persisted_left :
      (later : List Persisted)
      → is_persisted messages d ≡ true
      → is_persisted (messages ++ later) d ≡ true
  unfolding is_persisted
  persisted_left later h =
      ground
        (arith, exists-left (from_queue d) messages later, exists-left (has_id d) messages later)

  persisted_here :
      (later : List Persisted)
      → (d.queue_id == "") ≡ false
      → is_persisted (messages ++ checkpoint d ∷ later) d ≡ true
  unfolding is_persisted checkpoint
  persisted_here later h =
      ground (arith, exists-here (from_queue d) messages later (checkpoint d), eq_refl d.queue_id)

-- What the fresh messages of a claim append.
abbrev appended : List Persisted → List DequeuedMessage → List Persisted
appended messages queued = map checkpoint (select (λ d. not (is_persisted messages d)) queued)

abbrev AllPersisted : List Persisted → List DequeuedMessage → Type 0
AllPersisted messages queued = All (λ d. is_persisted messages d ≡ true) queued

AllPersisted-later :
    (messages later : List Persisted) (m : Persisted) (queued : List DequeuedMessage)
    → AllPersisted (messages ++ later) queued
    → AllPersisted (messages ++ m ∷ later) queued
AllPersisted-later messages later m [] h = tt
AllPersisted-later messages later m (d ∷ queued) h =
    (persisted_more messages d later m h.0, AllPersisted-later messages later m queued h.1)

-- Each message of a claim is in the conversation once the fresh ones have been appended.
appended-AllPersisted :
    (messages : List Persisted) (queued : List DequeuedMessage)
    → All (λ d. (d.queue_id == "") ≡ false) queued
    → AllPersisted (messages ++ appended messages queued) queued
appended-AllPersisted messages [] h = tt
appended-AllPersisted messages (d ∷ queued) h =
    let rest = appended messages queued in
    let later = appended-AllPersisted messages queued h.1 in
    elim (Bool-cases (is_persisted messages d)) [
      | inl e ↦
          subst (λ added. AllPersisted (messages ++ added) (d ∷ queued))
            (sym (dropped messages d queued e)) (persisted_left messages d rest e, later)
      | inr e ↦
          subst (λ added. AllPersisted (messages ++ added) (d ∷ queued))
            (sym (added_first messages d queued e))
            (
              persisted_here messages d rest h.0,
              AllPersisted-later messages rest (checkpoint d) queued later,
            )
    ]
  where
    dropped :
        (messages : List Persisted) (d : DequeuedMessage) (queued : List DequeuedMessage)
        → is_persisted messages d ≡ true
        → appended messages (d ∷ queued) ≡ appended messages queued
    dropped messages d queued e = rw e

    added_first :
        (messages : List Persisted) (d : DequeuedMessage) (queued : List DequeuedMessage)
        → is_persisted messages d ≡ false
        → appended messages (d ∷ queued) ≡ checkpoint d ∷ appended messages queued
    added_first messages d queued e = rw e

none_fresh :
    (messages : List Persisted) (queued : List DequeuedMessage)
    → All (λ d. is_persisted messages d ≡ true) queued
    → (select (λ d. not (is_persisted messages d)) queued ≡ [])
      × (select (is_persisted messages) queued ≡ queued)
none_fresh messages [] h = (refl, refl)
none_fresh messages (d ∷ queued) h =
    let (fresh, duplicate) = none_fresh messages queued h.1 in
    (rw h.0 fresh, rw h.0 (ap (λ ds. d ∷ ds) duplicate))

-- Once the fresh messages of a claim are in the conversation, the same claim, delivered again after a
-- crash, has no fresh message: all of it is duplicate, whatever the conversation held before. The
-- queue's ids are not empty.
pub partition_queued-replay :
    (messages : List Persisted) (queued : List DequeuedMessage)
    → All (λ d. (d.queue_id == "") ≡ false) queued
    → partition_queued (messages ++ map checkpoint (partition_queued messages queued).fresh) queued
      ≡ record { fresh = []; duplicate = queued }
unfolding partition_queued
partition_queued-replay messages queued h =
    let (fresh, duplicate) =
      none_fresh (messages ++ appended messages queued) queued
        (appended-AllPersisted messages queued h) in
    λ i. record { fresh = fresh i; duplicate = duplicate i }
