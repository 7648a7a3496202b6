-- ===== src/Compaction/Updates.antt =====
-- lib/agent-compaction/repository.ts: the updates of the atomic writes, and a job's creation.
pub mod Consistency
use sci_pegasus.Common.{
  ℕ, suc, ◌+◌, max, String, ◌==◌, Bool, true, false, ◌||◌, Option, none, some, List, [], ◌∷◌,
  exists, if◌then◌else◌,
}
use sci_pegasus.Mongo.{Mongo}
use sci_pegasus.Compaction.Jobs.{
  Status, queued, summarizing, summary_ready, merge_prepared, retryable, merged, failed, cancelled,
  superseded, Owner, Lease, Guard, Entry, Job, compaction_owner_key, Command, Turn, Claim,
}
use sci_pegasus.Compaction.Writes.{
  Read, Write, claim_next, heartbeat, begin_summary, save_summary, prepare_merge, restore_merge,
  settle_runtime, mark_merged, release_for_retry, fail_job, fail_for_missing_owner, acquire_guard,
  heartbeat_guard, release_guard, activate, activate_unclaimed, activate_prepared, offer_summary,
  cancel, supersede, cancel_unclaimed, cancel_job, close_after_repair, join,
}
use sci_pegasus.Compaction.Filters.{passes}

-- The part of every transition: the status, its revision and the entry of the outbox.
unfoldable pub transitioned : Read → Status → Job → Job
transitioned r status j = record j {
  status = status;
  status_revision = suc r.status_revision;
  status_outbox =
      record { revision = suc r.status_revision; status = status; attempt = r.attempt }
      ∷ j.status_outbox;
}

-- The fields that a worker's end of a job resets, with the time at which it finished.
unfoldable pub closed : ℕ → Read → Status → String → Job → Job
unfolding transitioned
closed now r status reason j = record (transitioned r status j) {
  lease = none;
  last_error = some reason;
  finished_at = some now;
  active_key = none;
  source_turn_guard = none;
}

-- Math.max(5_000, ms) from now
abbrev deadline : ℕ → ℕ → ℕ
deadline now ms = now + max 5000 ms

abbrev prolonged_lease : ℕ → ℕ → Option Lease → Option Lease
prolonged_lease now ms none = none
prolonged_lease now ms (some l) =
    some (record l { heartbeat_at = now; expires_at = deadline now ms })

abbrev prolonged_guard : ℕ → ℕ → Option Guard → Option Guard
prolonged_guard now ms none = none
prolonged_guard now ms (some g) =
    some (record g { heartbeat_at = now; expires_at = deadline now ms })

-- $addToSet
abbrev add_key : String → List String → List String
add_key key keys = if exists (λ k. k == key) keys then keys else key ∷ keys

abbrev activated : ℕ → Job → Job
activated now j = record j { available_at = some now; source_turn_guard = none }

unfoldable pub claim_next_update : ℕ → (owner_id fence_token : String) → (lease_ms : ℕ) → Job → Job
claim_next_update now owner token ms j = record j {
  lease = some (record {
    owner_id = owner;
    fence_token = token;
    heartbeat_at = now;
    expires_at = deadline now ms;
  });
  last_error = none;
  source_turn_guard = none;
  attempt = suc j.attempt;
}

unfoldable pub heartbeat_update : ℕ → Claim → (lease_ms : ℕ) → Job → Job
heartbeat_update now c ms j = record j { lease = prolonged_lease now ms j.lease }

unfoldable pub begin_summary_update : ℕ → Claim → Read → Job → Job
begin_summary_update now c r j = transitioned r summarizing j

unfoldable pub save_summary_update : ℕ → Claim → Read → (summary : String) → Job → Job
save_summary_update now c r summary j = record (transitioned r summary_ready j) {
  summary = some summary;
}

unfoldable pub prepare_merge_update : ℕ → Claim → Read → (replacement_hash : String) → Job → Job
prepare_merge_update now c r hash j = record (transitioned r merge_prepared j) {
  replacement_hash = some hash;
}

unfoldable pub restore_merge_update : ℕ → Claim → Read → Job → Job
restore_merge_update now c r j = transitioned r merge_prepared j

unfoldable pub settle_runtime_update : ℕ → Claim → Job → Job
settle_runtime_update now c j = record j { runtime_settled_at = some now }

unfoldable pub mark_merged_update : ℕ → Claim → Read → (context_revision : ℕ) → Job → Job
mark_merged_update now c r revision j = record (transitioned r merged j) {
  merged_context_revision = some revision;
  finished_at = some now;
  lease = none;
  active_key = none;
  source_turn_guard = none;
}

unfoldable pub release_for_retry_update :
    ℕ → Claim → Read → (error : String) → (delay_ms : ℕ) → Job → Job
release_for_retry_update now c r error delay j = record (transitioned r retryable j) {
  lease = none;
  last_error = some error;
  available_at = some (now + delay);
  source_turn_guard = none;
}

unfoldable pub fail_job_update : ℕ → Claim → Read → (error : String) → Job → Job
fail_job_update now c r error j = closed now r failed error j

unfoldable pub fail_for_missing_owner_update : ℕ → Claim → Read → (error : String) → Job → Job
fail_for_missing_owner_update now c r error j = closed now r failed error j

unfoldable pub acquire_guard_update : ℕ → Turn → (token : String) → (ttl_ms : ℕ) → Job → Job
acquire_guard_update now t token ttl j = record j {
  source_turn_guard = some (record {
    token = token;
    owner_id = t.guard_owner_id;
    source_run_id = t.source_run_id;
    heartbeat_at = now;
    expires_at = deadline now ttl;
  });
}

unfoldable pub heartbeat_guard_update : ℕ → Turn → (token : String) → (ttl_ms : ℕ) → Job → Job
heartbeat_guard_update now t token ttl j = record j {
  source_turn_guard = prolonged_guard now ttl j.source_turn_guard;
}

unfoldable pub release_guard_update : ℕ → Turn → (token : String) → Job → Job
release_guard_update now t token j = record j { source_turn_guard = none }

unfoldable pub activate_update : ℕ → Command → Job → Job
activate_update now c j = activated now j

unfoldable pub activate_unclaimed_update : ℕ → Command → Job → Job
activate_unclaimed_update now c j = activated now j

unfoldable pub activate_prepared_update : ℕ → (job_id user_id : String) → Job → Job
activate_prepared_update now id user j = activated now j

unfoldable pub offer_summary_update :
    ℕ → Command → (guard_token : Option String) → Read → (prefix_hash summary : String) → Job → Job
offer_summary_update now c token r hash summary j = record (transitioned r summary_ready j) {
  summary = some summary;
  available_at = some now;
  source_turn_guard = none;
}

unfoldable pub cancel_update :
    ℕ → Command → (guard_token : Option String) → Read → (reason : String) → Job → Job
cancel_update now c token r reason j = closed now r cancelled reason j

unfoldable pub supersede_update :
    ℕ → Command → (guard_token : Option String) → Read → (reason : String) → Job → Job
supersede_update now c token r reason j = closed now r superseded reason j

unfoldable pub cancel_unclaimed_update : ℕ → Command → Read → (reason : String) → Job → Job
cancel_unclaimed_update now c r reason j = closed now r cancelled reason j

unfoldable pub cancel_job_update :
    ℕ → (job_id user_id : String) → Read → (reason : String) → Job → Job
cancel_job_update now id user r reason j = closed now r cancelled reason j

unfoldable pub close_after_repair_update : ℕ → Command → Read → Job → Job
close_after_repair_update now c r j = record (transitioned r superseded j) {
  lease = none;
  last_error = some "sync_repair";
  finished_at = some now;
}

unfoldable pub join_update : ℕ → (idempotency_key : String) → Job → Job
join_update now key j = record j { idempotency_keys = add_key key j.idempotency_keys }

unfoldable pub updated : ℕ → Write → Job → Job
unfolding transitioned closed claim_next_update heartbeat_update begin_summary_update
    save_summary_update prepare_merge_update restore_merge_update settle_runtime_update
    mark_merged_update release_for_retry_update fail_job_update fail_for_missing_owner_update
    acquire_guard_update heartbeat_guard_update release_guard_update activate_update
    activate_unclaimed_update activate_prepared_update offer_summary_update cancel_update
    supersede_update cancel_unclaimed_update cancel_job_update close_after_repair_update join_update
updated now (claim_next owner token ms) j = claim_next_update now owner token ms j
updated now (heartbeat c ms) j = heartbeat_update now c ms j
updated now (begin_summary c r) j = begin_summary_update now c r j
updated now (save_summary c r summary) j = save_summary_update now c r summary j
updated now (prepare_merge c r hash) j = prepare_merge_update now c r hash j
updated now (restore_merge c r) j = restore_merge_update now c r j
updated now (settle_runtime c) j = settle_runtime_update now c j
updated now (mark_merged c r revision) j = mark_merged_update now c r revision j
updated now (release_for_retry c r error delay) j = release_for_retry_update now c r error delay j
updated now (fail_job c r error) j = fail_job_update now c r error j
updated now (fail_for_missing_owner c r error) j = fail_for_missing_owner_update now c r error j
updated now (acquire_guard t token ttl) j = acquire_guard_update now t token ttl j
updated now (heartbeat_guard t token ttl) j = heartbeat_guard_update now t token ttl j
updated now (release_guard t token) j = release_guard_update now t token j
updated now (activate c) j = activate_update now c j
updated now (activate_unclaimed c) j = activate_unclaimed_update now c j
updated now (activate_prepared id user) j = activate_prepared_update now id user j
updated now (offer_summary c token r hash summary) j =
    offer_summary_update now c token r hash summary j
updated now (cancel c token r reason) j = cancel_update now c token r reason j
updated now (supersede c token r reason) j = supersede_update now c token r reason j
updated now (cancel_unclaimed c r reason) j = cancel_unclaimed_update now c r reason j
updated now (cancel_job id user r reason) j = cancel_job_update now id user r reason j
updated now (close_after_repair c r) j = close_after_repair_update now c r j
updated now (join key) j = join_update now key j
