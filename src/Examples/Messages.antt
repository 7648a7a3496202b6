-- ===== src/Examples/Messages.antt =====
-- lib/agent/message-queue.ts: a queue of three messages, one of them for another Run.
use sci_pegasus.Common.{
  arith, All, ◌==◌, ◌≡◌, refl, true, false, not, none, some, List, [], ◌∷◌, ◌++◌, select, map,
}
use sci_pegasus.Queue.Rows.{
  Status, Visibility, SourceKind, Row, plain_collection, plain_collection-IsCollection,
  change_where,
}
use sci_pegasus.Queue.Intake.{
  Submission, QueueReceipt, accepted, enqueue_message, enqueue_keyed, answer, has_key, receipt,
  row_of, same_payload, message_id_of,
}
use sci_pegasus.Queue.Claims.{
  Consumer, DequeuedMessage, is_eligible, claim_row, dequeued, dequeue_messages, in_claim,
  acknowledge_dequeued, release_claim,
}
use sci_pegasus.Queue.Repair.{
  RunRow, TeamRow, Sweep, is_team_update, repair_terminal_receipts, repair_terminal_receipts-others,
}
use sci_pegasus.Queue.Dequeue.{dequeue_messages_lem}
use sci_pegasus.Queue.Acknowledge.{after_acknowledgement, acknowledge_dequeued_lem}
use sci_pegasus.Queue.Privacy.{is_other, IsBound, release_claim_private}
use sci_pegasus.Queue.Retry.{resubmitted, enqueue_message-once}
use sci_pegasus.Queue.Replay.{Persisted, partition_queued, checkpoint, partition_queued-replay}

abbrev first_row : Row
first_row = record {
  queue_id = "1";
  conversation_id = "c";
  target_run_id = none;
  content = "hello";
  message_id = "m1";
  idempotency_key = some "k1";
  images = none;
  status = Status.pending;
  claim_id = none;
  claimed_at = none;
  visibility = Visibility.public;
  source_kind = SourceKind.user;
  created_at = 1;
}

abbrev member_row : Row
member_row = record first_row {
  queue_id = "2";
  target_run_id = some "member";
  message_id = "m2";
  idempotency_key = none;
  status = Status.claimed;
  claim_id = some "x";
  claimed_at = some 2;
  visibility = Visibility.internal;
  source_kind = SourceKind.agent;
}

abbrev update_row : Row
update_row = record first_row {
  queue_id = "3";
  target_run_id = some "ended";
  message_id = "m3";
  idempotency_key = some "k3";
  visibility = Visibility.internal;
  source_kind = SourceKind.team_supervision;
}

abbrev queue_rows : List Row
queue_rows = first_row ∷ member_row ∷ update_row ∷ []

abbrev root_consumer : Consumer
root_consumer = record {
  conversation_id = "c";
  target_run_id = some "root";
  is_targeted_only = false;
  claim = "y";
  now = 5;
}

dequeue_messages_lem_example :
    dequeue_messages plain_collection root_consumer queue_rows
    ≡ some (
      map
          (dequeued root_consumer)
          (map (claim_row root_consumer) (select (is_eligible root_consumer) queue_rows)),
      change_where (is_eligible root_consumer) (claim_row root_consumer) queue_rows,
    )
dequeue_messages_lem_example =
    dequeue_messages_lem plain_collection plain_collection-IsCollection root_consumer queue_rows

acknowledge_dequeued_lem_example :
    acknowledge_dequeued plain_collection ("2" ∷ []) "x" queue_rows
    ≡ after_acknowledgement ("2" ∷ []) "x" queue_rows
acknowledge_dequeued_lem_example =
    acknowledge_dequeued_lem plain_collection plain_collection-IsCollection ("2" ∷ []) "x"
      queue_rows

root_consumer-is_other : is_other "member" root_consumer ≡ true
unfolding is_other
root_consumer-is_other = refl

queue_rows-IsBound : IsBound ("2" ∷ []) "x" "member" queue_rows
unfolding in_claim
queue_rows-IsBound = (λ e. ground arith, (λ e. refl, (λ e. ground arith, tt)))

release_claim_private_example :
    select (is_eligible root_consumer) (release_claim plain_collection ("2" ∷ []) "x" queue_rows)
    ≡ select (is_eligible root_consumer) queue_rows
release_claim_private_example =
    release_claim_private plain_collection plain_collection-IsCollection ("2" ∷ []) "x" "member"
      root_consumer queue_rows root_consumer-is_other queue_rows-IsBound

abbrev keyed_submission : Submission
keyed_submission = record {
  conversation_id = "c";
  content = "again";
  images = none;
  target_run_id = none;
  visibility = none;
  source_kind = none;
  idempotency_key = some "k4";
  message_id = some "m4";
  uuid = "u1";
  object_id = "4";
  now = 6;
}

abbrev keyed_receipt : QueueReceipt
keyed_receipt = record {
  queue_id = "4";
  message_id = "m4";
  target_run_id = none;
  status = Status.pending;
}

abbrev rows_after : List Row
rows_after = queue_rows ++ row_of (some "k4") keyed_submission ∷ []

accepted_first :
    enqueue_message plain_collection keyed_submission queue_rows
    ≡ (accepted keyed_receipt, rows_after)
unfolding enqueue_message enqueue_keyed answer has_key receipt row_of same_payload message_id_of
accepted_first = refl

enqueue_message-once_example :
    enqueue_message plain_collection (resubmitted keyed_submission "u2" "5" 9) rows_after
    ≡ (accepted keyed_receipt, rows_after)
enqueue_message-once_example =
    enqueue_message-once plain_collection plain_collection-IsCollection keyed_submission "k4" "m4"
      "u2" "5" 9 queue_rows rows_after keyed_receipt refl refl accepted_first

abbrev ended_run : RunRow
ended_run = record {
  run_id = "ended";
  conversation_id = "c";
  status = "failed";
  execution_mode = none;
  root_visible = none;
  team_id = some "t";
  agent_id = some "root-agent";
}

abbrev its_team : TeamRow
its_team = record { team_id = "t"; conversation_id = "c"; root_agent_id = "root-agent" }

abbrev full_sweep : Sweep
full_sweep = record { conversation_id = none; run_id = none; limit = none }

repair_terminal_receipts-others_example :
    select
      (λ r. not (is_team_update r))
      (repair_terminal_receipts plain_collection full_sweep
        (ended_run ∷ [])
        (its_team ∷ [])
        queue_rows).1
    ≡ select (λ r. not (is_team_update r)) queue_rows
repair_terminal_receipts-others_example =
    repair_terminal_receipts-others plain_collection plain_collection-IsCollection full_sweep
      (ended_run ∷ []) (its_team ∷ []) queue_rows

abbrev claimed_messages : List DequeuedMessage
claimed_messages = dequeued root_consumer first_row ∷ dequeued root_consumer update_row ∷ []

claimed_messages-named : All (λ (d : DequeuedMessage). (d.queue_id == "") ≡ false) claimed_messages
unfolding dequeued
claimed_messages-named = (refl, (refl, tt))

abbrev earlier_messages : List Persisted
earlier_messages = record { source_queue_id = some "1"; message_id = some "m1" } ∷ []

partition_queued-replay_example :
    partition_queued
      (earlier_messages
        ++ map checkpoint (partition_queued earlier_messages claimed_messages).fresh)
      claimed_messages
    ≡ record { fresh = []; duplicate = claimed_messages }
partition_queued-replay_example =
    partition_queued-replay earlier_messages claimed_messages claimed_messages-named
