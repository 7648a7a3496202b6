-- ===== src/Compaction/Updates/Consistency.antt =====
-- What every write to a job keeps of it.
use sci_pegasus.Common.{
  ℕ, ◌-◌, Bool, true, false, ◌&&◌, ◌||◌, not, List, [], ◌∷◌, ◌≡◌, arith, ltb, eqb,
}
use sci_pegasus.Compaction.Jobs.{
  Status, merged, Entry, Job, is_active, has_status, is_given, is_unleased, is_live,
}
use sci_pegasus.Compaction.Writes.{Write}
use sci_pegasus.Compaction.Filters.{passes, is_unclaimed_shadow}
use sci_pegasus.Compaction.Updates.{updated, closed, transitioned}

-- The entries are numbered down from n to 1.
unfoldable pub is_numbered : ℕ → List Entry → Bool
is_numbered n [] = eqb n 0
is_numbered n (e ∷ entries) = ltb 0 n && eqb e.revision n && is_numbered (n - 1) entries

abbrev pub is_latest : Status → List Entry → Bool
is_latest status [] = false
is_latest status (e ∷ entries) = has_status status e.status

-- What holds of every job.
pub record IsConsistent (j : Job) : Type 0 where
  -- the barrier of the owner stands exactly while the job is active
  pub barrier : is_given j.active_key ≡ is_active j.status
  -- a job that is not active has no lease
  pub leased_active : is_active j.status || is_unleased j.lease ≡ true
  -- a job is merged only when the runtime has been settled
  pub merged_settled : not (has_status merged j.status) || is_given j.runtime_settled_at ≡ true
  -- the outbox has one entry for each transition, numbered from 1, and the newest names the status
  pub numbered : is_numbered j.status_revision j.status_outbox ≡ true
  pub latest : is_latest j.status j.status_outbox ≡ true

module _ (now : ℕ) (w : Write) (j : Job) (h : passes now w j ≡ true) (c : IsConsistent j) where
  barrier-updated : is_given (updated now w j).active_key ≡ is_active (updated now w j).status
  unfolding passes updated closed transitioned is_live is_unclaimed_shadow
  barrier-updated = let b = c.barrier in let l = c.leased_active in ground arith

  leased_active-updated :
      is_active (updated now w j).status || is_unleased (updated now w j).lease ≡ true
  unfolding passes updated closed transitioned is_live is_unclaimed_shadow
  leased_active-updated = let b = c.barrier in let l = c.leased_active in ground arith

  merged_settled-updated :
      not (has_status merged (updated now w j).status)
        || is_given (updated now w j).runtime_settled_at
      ≡ true
  unfolding passes updated closed transitioned is_live is_unclaimed_shadow
  merged_settled-updated = let s = c.merged_settled in ground arith

  numbered-updated :
      is_numbered (updated now w j).status_revision (updated now w j).status_outbox ≡ true
  unfolding passes updated closed transitioned is_numbered
  numbered-updated = let n = c.numbered in ground arith

  latest-updated : is_latest (updated now w j).status (updated now w j).status_outbox ≡ true
  unfolding updated closed transitioned
  latest-updated = let l = c.latest in ground arith

  pub updated-IsConsistent : IsConsistent (updated now w j)
  updated-IsConsistent = record {
    barrier = barrier-updated;
    leased_active = leased_active-updated;
    merged_settled = merged_settled-updated;
    numbered = numbered-updated;
    latest = latest-updated;
  }
