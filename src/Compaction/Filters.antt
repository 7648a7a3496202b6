-- ===== src/Compaction/Filters.antt =====
-- lib/agent-compaction/repository.ts: the filters of the atomic writes to the document of a job.
use sci_pegasus.Common.{
  ℕ, String, ◌==◌, Bool, true, false, ◌&&◌, ◌||◌, not, Option, none, some, ltb, eqb,
}
use sci_pegasus.Compaction.Jobs.{
  Status, queued, summarizing, summary_ready, merge_prepared, retryable, failed, Owner, Guard, Job,
  is_active, has_status, is_cancellable, compaction_owner_key, Command, is_commanded, Turn, is_text,
  is_source_turn, is_unleased, is_free, has_no_live_guard, guard_permits, Claim, is_held, is_live,
  is_available, is_later, is_given,
}
use sci_pegasus.Compaction.Writes.{
  Read, Write, acquire_guard, activate, activate_prepared, activate_unclaimed, begin_summary,
  cancel, cancel_job, cancel_unclaimed, claim_next, close_after_repair, fail_for_missing_owner,
  fail_job, heartbeat, heartbeat_guard, join, mark_merged, offer_summary, prepare_merge,
  release_for_retry, release_guard, restore_merge, save_summary, settle_runtime, supersede,
}

abbrev pub user_of : Owner → String
user_of (Owner.conversation id user) = user
user_of (Owner.agent_session session id user) = user

unfoldable pub holds_guard : Turn → String → Option Guard → Bool
holds_guard t token none = false
holds_guard t token (some g) =
    g.token == token && g.owner_id == t.guard_owner_id && g.source_run_id == t.source_run_id

abbrev expires_after : ℕ → Option Guard → Bool
expires_after now none = false
expires_after now (some g) = ltb now g.expires_at

abbrev anything : Status → Bool
anything s = true

-- UNCLAIMED_SHADOW_FILTER
unfoldable pub is_unclaimed_shadow : Job → Bool
is_unclaimed_shadow j = has_status queued j.status && is_unleased j.lease

-- status_revision is what was read
abbrev pub is_current : Read → Job → Bool
is_current r j = eqb j.status_revision r.status_revision

abbrev may_begin : Status → Bool
may_begin s = has_status queued s || has_status retryable s

abbrev may_prepare : Status → Bool
may_prepare s = has_status summary_ready s || has_status retryable s

unfoldable pub claim_next_filter : ℕ → (owner_id fence_token : String) → (lease_ms : ℕ) → Job → Bool
claim_next_filter now owner token lease_ms j =
    is_given j.active_key
    && is_active j.status
    && is_available now j.available_at
    && is_free now j.lease
    && has_no_live_guard now j.source_turn_guard

unfoldable pub heartbeat_filter : ℕ → Claim → (lease_ms : ℕ) → Job → Bool
heartbeat_filter now c lease_ms j = is_live now c anything j

unfoldable pub begin_summary_filter : ℕ → Claim → Read → Job → Bool
begin_summary_filter now c r j = is_live now c may_begin j && is_current r j

unfoldable pub save_summary_filter : ℕ → Claim → Read → (summary : String) → Job → Bool
save_summary_filter now c r summary j = is_live now c (has_status summarizing) j && is_current r j

unfoldable pub prepare_merge_filter : ℕ → Claim → Read → (replacement_hash : String) → Job → Bool
prepare_merge_filter now c r hash j = is_live now c may_prepare j && is_current r j

unfoldable pub restore_merge_filter : ℕ → Claim → Read → Job → Bool
restore_merge_filter now c r j = is_live now c (has_status retryable) j && is_current r j

unfoldable pub settle_runtime_filter : ℕ → Claim → Job → Bool
settle_runtime_filter now c j =
    is_live now c (has_status merge_prepared) j && not (is_given j.runtime_settled_at)

unfoldable pub mark_merged_filter : ℕ → Claim → Read → (context_revision : ℕ) → Job → Bool
mark_merged_filter now c r revision j =
    is_live now c (has_status merge_prepared) j && is_given j.runtime_settled_at && is_current r j

unfoldable pub release_for_retry_filter :
    ℕ → Claim → Read → (error : String) → (delay_ms : ℕ) → Job → Bool
release_for_retry_filter now c r error delay j = is_live now c anything j && is_current r j

unfoldable pub fail_job_filter : ℕ → Claim → Read → (error : String) → Job → Bool
fail_job_filter now c r error j = is_live now c anything j && is_current r j

unfoldable pub fail_for_missing_owner_filter : ℕ → Claim → Read → (error : String) → Job → Bool
fail_for_missing_owner_filter now c r error j =
    j.job_id == c.job_id && is_active j.status && is_held c j.lease && is_current r j

unfoldable pub acquire_guard_filter : ℕ → Turn → (token : String) → (ttl_ms : ℕ) → Job → Bool
acquire_guard_filter now t token ttl j =
    is_source_turn t j
    && is_text (compaction_owner_key t.command.owner) j.active_key
    && has_status queued j.status
    && is_later now j.available_at
    && is_unleased j.lease
    && has_no_live_guard now j.source_turn_guard

unfoldable pub heartbeat_guard_filter : ℕ → Turn → (token : String) → (ttl_ms : ℕ) → Job → Bool
heartbeat_guard_filter now t token ttl j =
    is_source_turn t j
    && is_text (compaction_owner_key t.command.owner) j.active_key
    && has_status queued j.status
    && is_unleased j.lease
    && holds_guard t token j.source_turn_guard
    && expires_after now j.source_turn_guard

unfoldable pub release_guard_filter : ℕ → Turn → (token : String) → Job → Bool
release_guard_filter now t token j = is_source_turn t j && holds_guard t token j.source_turn_guard

unfoldable pub activate_filter : ℕ → Command → Job → Bool
activate_filter now c j =
    is_commanded c j
    && is_given j.active_key
    && is_active j.status
    && is_later now j.available_at
    && has_no_live_guard now j.source_turn_guard

unfoldable pub activate_unclaimed_filter : ℕ → Command → Job → Bool
activate_unclaimed_filter now c j =
    is_commanded c j
    && is_text (compaction_owner_key c.owner) j.active_key
    && is_unclaimed_shadow j
    && is_later now j.available_at
    && has_no_live_guard now j.source_turn_guard

unfoldable pub activate_prepared_filter : ℕ → (job_id user_id : String) → Job → Bool
activate_prepared_filter now id user j =
    j.job_id == id
    && user_of j.owner == user
    && is_given j.active_key
    && is_active j.status
    && has_no_live_guard now j.source_turn_guard

unfoldable pub offer_summary_filter :
    ℕ → Command → (guard_token : Option String) → Read → (prefix_hash summary : String) → Job → Bool
offer_summary_filter now c token r hash summary j =
    is_commanded c j
    && is_given j.active_key
    && has_status queued j.status
    && j.prefix_hash == hash
    && is_unleased j.lease
    && guard_permits now token j.source_turn_guard
    && is_current r j

unfoldable pub cancel_filter :
    ℕ → Command → (guard_token : Option String) → Read → (reason : String) → Job → Bool
cancel_filter now c token r reason j =
    is_commanded c j
    && is_given j.active_key
    && is_cancellable j.status
    && guard_permits now token j.source_turn_guard
    && is_current r j

unfoldable pub supersede_filter :
    ℕ → Command → (guard_token : Option String) → Read → (reason : String) → Job → Bool
supersede_filter now c token r reason j =
    is_commanded c j
    && is_given j.active_key
    && is_unclaimed_shadow j
    && guard_permits now token j.source_turn_guard
    && is_current r j

unfoldable pub cancel_unclaimed_filter : ℕ → Command → Read → (reason : String) → Job → Bool
cancel_unclaimed_filter now c r reason j =
    is_commanded c j
    && is_text (compaction_owner_key c.owner) j.active_key
    && is_unclaimed_shadow j
    && has_no_live_guard now j.source_turn_guard
    && is_current r j

unfoldable pub cancel_job_filter :
    ℕ → (job_id user_id : String) → Read → (reason : String) → Job → Bool
cancel_job_filter now id user r reason j =
    j.job_id == id
    && user_of j.owner == user
    && is_given j.active_key
    && is_cancellable j.status
    && has_no_live_guard now j.source_turn_guard
    && is_current r j

unfoldable pub close_after_repair_filter : ℕ → Command → Read → Job → Bool
close_after_repair_filter now c r j =
    is_commanded c j && has_status failed j.status && not (is_given j.active_key) && is_current r j

unfoldable pub join_filter : ℕ → (idempotency_key : String) → Job → Bool
join_filter now key j = true

-- The filter of each write, at the time `now`.
unfoldable pub passes : ℕ → Write → Job → Bool
unfolding is_live is_commanded is_source_turn is_unclaimed_shadow holds_guard compaction_owner_key
    claim_next_filter heartbeat_filter begin_summary_filter save_summary_filter prepare_merge_filter
    restore_merge_filter settle_runtime_filter mark_merged_filter release_for_retry_filter
    fail_job_filter fail_for_missing_owner_filter acquire_guard_filter heartbeat_guard_filter
    release_guard_filter activate_filter activate_unclaimed_filter activate_prepared_filter
    offer_summary_filter cancel_filter supersede_filter cancel_unclaimed_filter cancel_job_filter
    close_after_repair_filter join_filter
passes now (claim_next owner token lease_ms) j = claim_next_filter now owner token lease_ms j
passes now (heartbeat c lease_ms) j = heartbeat_filter now c lease_ms j
passes now (begin_summary c r) j = begin_summary_filter now c r j
passes now (save_summary c r summary) j = save_summary_filter now c r summary j
passes now (prepare_merge c r hash) j = prepare_merge_filter now c r hash j
passes now (restore_merge c r) j = restore_merge_filter now c r j
passes now (settle_runtime c) j = settle_runtime_filter now c j
passes now (mark_merged c r revision) j = mark_merged_filter now c r revision j
passes now (release_for_retry c r error delay) j = release_for_retry_filter now c r error delay j
passes now (fail_job c r error) j = fail_job_filter now c r error j
passes now (fail_for_missing_owner c r error) j = fail_for_missing_owner_filter now c r error j
passes now (acquire_guard t token ttl) j = acquire_guard_filter now t token ttl j
passes now (heartbeat_guard t token ttl) j = heartbeat_guard_filter now t token ttl j
passes now (release_guard t token) j = release_guard_filter now t token j
passes now (activate c) j = activate_filter now c j
passes now (activate_unclaimed c) j = activate_unclaimed_filter now c j
passes now (activate_prepared id user) j = activate_prepared_filter now id user j
passes now (offer_summary c token r hash summary) j =
    offer_summary_filter now c token r hash summary j
passes now (cancel c token r reason) j = cancel_filter now c token r reason j
passes now (supersede c token r reason) j = supersede_filter now c token r reason j
passes now (cancel_unclaimed c r reason) j = cancel_unclaimed_filter now c r reason j
passes now (cancel_job id user r reason) j = cancel_job_filter now id user r reason j
passes now (close_after_repair c r) j = close_after_repair_filter now c r j
passes now (join key) j = join_filter now key j
