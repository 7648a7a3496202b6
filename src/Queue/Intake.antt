-- ===== src/Queue/Intake.antt =====
-- lib/agent/message-queue.ts: enqueueing, receipts, and binding a receipt to a Run.
use Prim.Native.String.{◌++◌ as ◌+++◌}
use sci_pegasus.Common.{
  ℕ, ◌+◌, String, ◌==◌, Bool, true, false, ◌&&◌, not, Option, none, some, List, exists, same_text,
  if◌then◌else◌,
}
use sci_pegasus.Team.Grants.{given_or}
use sci_pegasus.Budget.Documents.{truthy}
use sci_pegasus.Queue.Rows.{
  Status, Visibility, SourceKind, Row, Collection, find_first, same_visibility, same_source,
}

-- IdempotentQueuedMessageReceipt
pub record QueueReceipt : Type 0 where
  pub queue_id : String
  pub message_id : String
  pub target_run_id : Option String
  pub status : Status

unfoldable pub message_id_of : Row → String
message_id_of r = if r.message_id == "" then "queue_msg_legacy_" +++ r.queue_id else r.message_id

unfoldable pub receipt : Row → QueueReceipt
receipt r = record {
  queue_id = r.queue_id;
  message_id = message_id_of r;
  target_run_id = r.target_run_id;
  status = r.status;
}

-- The arguments of enqueueMessage, with the uuid, the id of a new document and the time.
pub record Submission : Type 0 where
  pub conversation_id : String
  pub content : String
  pub images : Option String
  pub target_run_id : Option String
  pub visibility : Option Visibility
  pub source_kind : Option SourceKind
  pub idempotency_key : Option String
  pub message_id : Option String
  pub uuid : String
  pub object_id : String
  pub now : ℕ

pub data Reply : Type 0 where
  accepted : QueueReceipt → Reply
  duplicate_key payload_mismatch : Reply

abbrev pub submitted_id : Submission → String
submitted_id q = given_or ("queue_msg_" +++ q.uuid) q.message_id

unfoldable pub row_of : Option String → Submission → Row
row_of key q = record {
  queue_id = q.object_id;
  conversation_id = q.conversation_id;
  target_run_id = q.target_run_id;
  content = q.content;
  message_id = submitted_id q;
  idempotency_key = key;
  images = q.images;
  status = Status.pending;
  claim_id = none;
  claimed_at = none;
  visibility = given_or Visibility.public q.visibility;
  source_kind = given_or SourceKind.user q.source_kind;
  created_at = q.now;
}

-- { conversation_id, idempotency_key }
unfoldable pub has_key : String → String → Row → Bool
has_key conversation key r =
    r.conversation_id == conversation && same_text r.idempotency_key (some key)

unfoldable pub same_payload : Submission → Row → Bool
same_payload q r =
    r.message_id == submitted_id q
    && r.content == q.content
    && same_visibility r.visibility (given_or Visibility.public q.visibility)
    && same_source r.source_kind (given_or SourceKind.user q.source_kind)

unfoldable pub answer : Submission → Row → Reply
unfolding receipt same_payload
answer q stored = if same_payload q stored then accepted (receipt stored) else payload_mismatch

module _ (c : Collection) where
  unfoldable pub enqueue_keyed : String → Submission → List Row → Reply × List Row
  unfolding answer has_key row_of
  enqueue_keyed key q rows =
      elim (c.find_or_insert (has_key q.conversation_id key) (row_of (some key) q) rows) [
        | some stored ↦ (answer q stored.0, stored.1)
        | none ↦ elim (find_first (has_key q.conversation_id key) rows) [
          | none ↦ (duplicate_key, rows)
          | some winner ↦ (answer q winner, rows)
        ]
      ]

  -- enqueueMessage. An empty key is no key.
  unfoldable pub enqueue_message : Submission → List Row → Reply × List Row
  unfolding enqueue_keyed row_of receipt
  enqueue_message q rows = elim (truthy q.idempotency_key) [
    | some key ↦ enqueue_keyed key q rows
    | none ↦ elim (c.create (row_of none q) rows) [
      | none ↦ (duplicate_key, rows)
      | some left ↦ (accepted (receipt (row_of none q)), left)
    ]
  ]

  -- getIdempotentQueuedMessage
  unfoldable pub get_idempotent : String → String → List Row → Option QueueReceipt
  unfolding has_key receipt
  get_idempotent conversation key rows = elim (find_first (has_key conversation key) rows) [
    | none ↦ none
    | some r ↦ some (receipt r)
  ]

  abbrev unbound_or : String → Option String → Bool
  unbound_or run none = true
  unbound_or run (some target) = target == run

  -- bindIdempotentQueuedMessageToRun
  unfoldable pub bind_to_run : String → String → String → List Row → Option QueueReceipt × List Row
  unfolding has_key receipt get_idempotent
  bind_to_run conversation key run rows =
      let (bound, left) =
        c.update_first (λ r. has_key conversation key r && unbound_or run r.target_run_id)
          (λ r. record r { target_run_id = some run }) rows in
      elim bound [
        | some r ↦ (some (receipt r), left)
        | none ↦ (get_idempotent conversation key left, left)
      ]

  -- A member-only reminder.
  unfoldable pub is_reminder : String → String → Row → Bool
  is_reminder conversation message r =
      r.conversation_id == conversation
      && r.message_id == message
      && same_visibility r.visibility Visibility.internal
      && same_source r.source_kind SourceKind.agent

  abbrev targets_other : String → Option String → Bool
  targets_other run none = false
  targets_other run (some target) = not (target == run)

  -- rerouteTargetedInternalAgentMessage
  unfoldable pub reroute : String → String → String → List Row → Bool × List Row
  unfolding is_reminder
  reroute conversation message run rows =
      let (routed, left) =
        c.update_first
          (λ r. is_reminder conversation message r && targets_other run r.target_run_id)
          (λ r. record r {
            target_run_id = some run;
            status = Status.pending;
            claim_id = none;
            claimed_at = none;
          })
          rows in
      elim routed [
        | some r ↦ (true, left)
        | none ↦ (
          exists (λ r. is_reminder conversation message r && same_text r.target_run_id (some run))
              left,
          left,
        )
      ]

  abbrev pub is_keyed : Row → Bool
  is_keyed r = elim r.idempotency_key [ none ↦ false | some key ↦ true ]

  -- settleSupersededInternalAgentMessage
  unfoldable pub settle_superseded : String → String → String → List Row → ℕ × List Row
  unfolding is_reminder
  settle_superseded conversation message successor rows =
      let (retained, kept) =
        c.update_many (λ r. is_reminder conversation message r && is_keyed r)
          (λ r. record r {
            target_run_id = some successor;
            status = Status.acknowledged;
            claim_id = none;
            claimed_at = none;
          })
          rows in
      let (removed, left) =
        c.delete_many (λ r. is_reminder conversation message r && not (is_keyed r)) kept in
      (retained + removed, left)
