-- ===== src/Compaction/Runs/Fencing.antt =====
-- The lease of a worker fences its job.
use sci_pegasus.Common.{
  ℕ, ◌<◌, lt→ltb, String, ◌==◌, Bool, true, false, none, some, ◌≡◌, ◌⊎◌, inl, inr, arith, ltb,
  Bool-cases,
}
use sci_pegasus.Compaction.Jobs.{cancelled, Lease, Job, is_cancellable, is_live}
use sci_pegasus.Compaction.Writes.{
  Write, claim_next, heartbeat, begin_summary, save_summary, prepare_merge, restore_merge,
  settle_runtime, mark_merged, release_for_retry, fail_job, fail_for_missing_owner, acquire_guard,
  heartbeat_guard, release_guard, activate, activate_unclaimed, activate_prepared, offer_summary,
  cancel, supersede, cancel_unclaimed, cancel_job, close_after_repair, join,
}
use sci_pegasus.Compaction.Filters.{passes, is_unclaimed_shadow}
use sci_pegasus.Compaction.Updates.{updated, closed, transitioned}
use sci_pegasus.Compaction.Updates.Consistency.{IsConsistent}

-- Whether a write is one of the worker whose lease has this fence token.
abbrev pub carries : String → Write → Bool
carries token (claim_next owner new ms) = false
carries token (heartbeat c ms) = token == c.fence_token
carries token (begin_summary c r) = token == c.fence_token
carries token (save_summary c r summary) = token == c.fence_token
carries token (prepare_merge c r hash) = token == c.fence_token
carries token (restore_merge c r) = token == c.fence_token
carries token (settle_runtime c) = token == c.fence_token
carries token (mark_merged c r revision) = token == c.fence_token
carries token (release_for_retry c r error delay) = token == c.fence_token
carries token (fail_job c r error) = token == c.fence_token
carries token (fail_for_missing_owner c r error) = token == c.fence_token
carries token (acquire_guard t guard ttl) = false
carries token (heartbeat_guard t guard ttl) = false
carries token (release_guard t guard) = false
carries token (activate c) = false
carries token (activate_unclaimed c) = false
carries token (activate_prepared id user) = false
carries token (offer_summary c guard r hash summary) = false
carries token (cancel c guard r reason) = false
carries token (supersede c guard r reason) = false
carries token (cancel_unclaimed c r reason) = false
carries token (cancel_job id user r reason) = false
carries token (close_after_repair c r) = false
carries token (join key) = false

-- The commands with which a user cancels a job.
abbrev pub is_cancellation : Write → Bool
is_cancellation (cancel c token r reason) = true
is_cancellation (cancel_job id user r reason) = true
is_cancellation _ = false

-- The write left the worker's part of the job as it was.
pub record IsUntouched (j k : Job) : Type 0 where
  pub lease : k.lease ≡ j.lease
  pub status : k.status ≡ j.status
  pub summary : k.summary ≡ j.summary
  pub replacement_hash : k.replacement_hash ≡ j.replacement_hash
  pub attempt : k.attempt ≡ j.attempt

-- The write is a cancel command of a user, it passed in a status from which a job may be cancelled, and it
-- released the worker's lease. That status is not merge_prepared, but may be one that a job whose merge
-- was prepared has come back to by a retry.
pub record IsCancelled (w : Write) (j k : Job) : Type 0 where
  pub command : is_cancellation w ≡ true
  pub cancellable : is_cancellable j.status ≡ true
  pub status : k.status ≡ cancelled
  pub lease : k.lease ≡ none
  pub summary : k.summary ≡ j.summary
  pub replacement_hash : k.replacement_hash ≡ j.replacement_hash
  pub attempt : k.attempt ≡ j.attempt

module _ (now : ℕ) (w : Write) (j : Job) (l : Lease) (leased : j.lease ≡ some l)
    (live : ltb now l.expires_at ≡ true) (consistent : IsConsistent j)
    (stranger : carries l.fence_token w ≡ false) (h : passes now w j ≡ true) where
  updated-IsUntouched : is_cancellation w ≡ false → IsUntouched j (updated now w j)
  unfolding passes updated closed transitioned is_live is_unclaimed_shadow
  updated-IsUntouched n =
      let a = consistent.leased_active in
      record {
        lease = ground arith;
        status = ground arith;
        summary = ground arith;
        replacement_hash = ground arith;
        attempt = ground arith;
      }

  updated-IsCancelled : is_cancellation w ≡ true → IsCancelled w j (updated now w j)
  unfolding passes updated closed transitioned is_live is_unclaimed_shadow
  updated-IsCancelled n = record {
    command = n;
    cancellable = ground arith;
    status = ground arith;
    lease = ground arith;
    summary = ground arith;
    replacement_hash = ground arith;
    attempt = ground arith;
  }

-- While a worker's lease is live, a write that carries another fence token, or none, and passes its filter
-- leaves the lease, the status, the summary, the replacement and the count of attempts as they were, or it
-- is a user's cancel command on a job whose status is queued, summarizing, summary_ready or retryable, which
-- ends the job without its lease and leaves the summary, the replacement and the count of attempts. So no
-- second worker claims the job, and one whose lease was lost changes nothing. The job is one that a run
-- after its creation can reach; it may be one whose merge was prepared before a retry.
pub write-fenced :
    (now : ℕ) (w : Write) (j : Job) (l : Lease)
    → IsConsistent j
    → j.lease ≡ some l
    → now < l.expires_at
    → carries l.fence_token w ≡ false
    → passes now w j ≡ true
    → IsUntouched j (updated now w j) ⊎ IsCancelled w j (updated now w j)
write-fenced now w j l consistent leased live stranger h = elim (Bool-cases (is_cancellation w)) [
  | inl e ↦
      inr (
        updated-IsCancelled now w j l leased (lt→ltb now l.expires_at live) consistent stranger h e)
  | inr e ↦
      inl (
        updated-IsUntouched now w j l leased (lt→ltb now l.expires_at live) consistent stranger h e)
]
