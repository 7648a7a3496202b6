-- ===== src/Compaction/Writes.antt =====
-- lib/agent-compaction/repository.ts: the atomic writes to the document of a job. `Read` is what
-- transitionCompactionStatus read before its write; reasons and errors are as the code trims them.
use sci_pegasus.Common.{ℕ, String, Option}
use sci_pegasus.Compaction.Jobs.{Command, Turn, Claim}

pub record Read : Type 0 where
  pub status_revision : ℕ
  pub attempt : ℕ

-- The writes to a job after its creation, which change a field of `Job`.
pub data Write : Type 0 where
  claim_next : (owner_id fence_token : String) → (lease_ms : ℕ) → Write
  heartbeat : Claim → (lease_ms : ℕ) → Write
  begin_summary : Claim → Read → Write
  save_summary : Claim → Read → (summary : String) → Write
  prepare_merge : Claim → Read → (replacement_hash : String) → Write
  restore_merge : Claim → Read → Write
  settle_runtime : Claim → Write
  mark_merged : Claim → Read → (context_revision : ℕ) → Write
  release_for_retry : Claim → Read → (error : String) → (delay_ms : ℕ) → Write
  fail_job : Claim → Read → (error : String) → Write
  fail_for_missing_owner : Claim → Read → (error : String) → Write
  acquire_guard : Turn → (token : String) → (ttl_ms : ℕ) → Write
  heartbeat_guard : Turn → (token : String) → (ttl_ms : ℕ) → Write
  release_guard : Turn → (token : String) → Write
  activate : Command → Write
  activate_unclaimed : Command → Write
  activate_prepared : (job_id user_id : String) → Write
  offer_summary :
      Command → (guard_token : Option String) → Read → (prefix_hash summary : String) → Write
  cancel : Command → (guard_token : Option String) → Read → (reason : String) → Write
  supersede : Command → (guard_token : Option String) → Read → (reason : String) → Write
  cancel_unclaimed : Command → Read → (reason : String) → Write
  cancel_job : (job_id user_id : String) → Read → (reason : String) → Write
  close_after_repair : Command → Read → Write
  join : (idempotency_key : String) → Write
