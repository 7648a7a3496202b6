-- ===== src/Queue/Claims.antt =====
-- lib/agent/message-queue.ts: claiming, acknowledging and releasing messages.
use sci_pegasus.Common.{
  ℕ, zero, suc, String, ◌==◌, Bool, true, false, ◌&&◌, ◌||◌, not, Option, none, some, List, [], ◌∷◌,
  exists, map, same_text, leb, length, if◌then◌else◌,
}
use sci_pegasus.Budget.Documents.{truthy}
use sci_pegasus.Queue.Rows.{
  Status, Visibility, SourceKind, Row, Collection, is_pending, is_claimed, is_live,
}
use sci_pegasus.Queue.Intake.{message_id_of}

-- DequeuedMessage
pub record DequeuedMessage : Type 0 where
  pub queue_id : String
  pub message_id : String
  pub claim_id : String
  pub content : String
  pub images : Option String
  pub visibility : Visibility
  pub source_kind : SourceKind

-- The arguments of dequeueMessages, with the new claim id and the time.
pub record Consumer : Type 0 where
  pub conversation_id : String
  pub target_run_id : Option String
  pub is_targeted_only : Bool
  pub claim : String
  pub now : ℕ

abbrev is_untargeted : Option String → Bool
is_untargeted none = true
is_untargeted (some run) = false

-- Whether a consumer's Run may take a row with a target.
abbrev pub reaches : Option String → Bool → Option String → Bool
reaches none only target = is_untargeted target
reaches (some run) only target =
    same_text target (some run) || (if only then false else is_untargeted target)

unfoldable pub is_eligible : Consumer → Row → Bool
is_eligible q r =
    r.conversation_id == q.conversation_id
    && is_pending r.status
    && reaches (truthy q.target_run_id) q.is_targeted_only r.target_run_id

abbrev bound_to : Option String → Option String → Option String
bound_to none target = target
bound_to (some run) target = some run

unfoldable pub claim_row : Consumer → Row → Row
claim_row q r = record r {
  status = Status.claimed;
  claim_id = some q.claim;
  claimed_at = some q.now;
  target_run_id = bound_to (truthy q.target_run_id) r.target_run_id;
}

unfoldable pub dequeued : Consumer → Row → DequeuedMessage
unfolding message_id_of
dequeued q r = record {
  queue_id = r.queue_id;
  message_id = message_id_of r;
  claim_id = q.claim;
  content = r.content;
  images = r.images;
  visibility = r.visibility;
  source_kind = r.source_kind;
}

abbrev pub push : Row → Option (List Row × List Row) → Option (List Row × List Row)
push r none = none
push r (some (docs, rows)) = some (r ∷ docs, rows)

-- `_id: { $in: queueIds }, status: 'claimed', claim_id: claimId`
unfoldable pub in_claim : List String → String → Row → Bool
in_claim ids claim r =
    exists (λ id. id == r.queue_id) ids && is_claimed r.status && same_text r.claim_id (some claim)

abbrev pub has_receipt : Row → Bool
has_receipt r = elim r.idempotency_key [ none ↦ false | some key ↦ true ]

unfoldable pub acknowledge_row : Row → Row
acknowledge_row r = record r { status = Status.acknowledged; claim_id = none; claimed_at = none }

unfoldable pub release_row : Row → Row
release_row r = record r { status = Status.pending; claim_id = none; claimed_at = none }

unfoldable pub untarget_row : Row → Row
untarget_row r = record r {
  target_run_id = none;
  status = Status.pending;
  claim_id = none;
  claimed_at = none;
}

abbrev pub is_empty : List String → Bool
is_empty [] = true
is_empty (id ∷ ids) = false

abbrev since : ℕ → Option ℕ → Bool
since limit none = false
since limit (some at) = leb at limit

module _ (c : Collection) where
  -- The loop of dequeueMessages, which ends when nothing is left; `none` is fuel that has run out.
  unfoldable pub claim_all : ℕ → Consumer → List Row → Option (List Row × List Row)
  unfolding is_eligible claim_row
  claim_all zero q rows = none
  claim_all (suc fuel) q rows =
      let (hit, left) = c.update_first (is_eligible q) (claim_row q) rows in
      elim hit [ none ↦ some ([], left) | some r ↦ push r (claim_all fuel q left) ]

  -- dequeueMessages. A round claims one row, so that one round more than there are rows is enough.
  unfoldable pub dequeue_messages : Consumer → List Row → Option (List DequeuedMessage × List Row)
  unfolding claim_all dequeued
  dequeue_messages q rows = elim (claim_all (suc (length rows)) q rows) [
    | none ↦ none
    | some done ↦ some (map (dequeued q) done.0, done.1)
  ]

  -- acknowledgeDequeuedMessages
  unfoldable pub acknowledge_dequeued : List String → String → List Row → List Row
  unfolding in_claim acknowledge_row
  acknowledge_dequeued ids claim rows =
      if is_empty ids
      then rows
      else (c.delete_many (λ r. in_claim ids claim r && not (has_receipt r))
          (c.update_many (λ r. in_claim ids claim r && has_receipt r) acknowledge_row rows).1).1

  -- releaseDequeuedMessageClaim
  unfoldable pub release_claim : List String → String → List Row → List Row
  unfolding in_claim release_row
  release_claim ids claim rows =
      if is_empty ids then rows else (c.update_many (in_claim ids claim) release_row rows).1

  -- releaseQueuedMessagesForRun
  unfoldable pub release_for_run : String → List Row → ℕ × List Row
  unfolding untarget_row
  release_for_run run rows =
      c.update_many (λ r. same_text r.target_run_id (some run) && is_live r.status) untarget_row
        rows

  -- releaseStaleQueueClaims; `limit` is the time before which a claim is stale.
  unfoldable pub release_stale : ℕ → List Row → ℕ × List Row
  unfolding release_row
  release_stale limit rows =
      c.update_many (λ r. is_claimed r.status && since limit r.claimed_at) release_row rows

  -- hasQueuedMessages
  unfoldable pub has_queued : String → Option String → List Row → Bool
  has_queued conversation target rows =
      exists
        (λ r.
          r.conversation_id == conversation
          && is_pending r.status
          && reaches (truthy target) false r.target_run_id)
        rows
