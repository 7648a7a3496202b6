-- ===== src/Compaction/Runs.antt =====
-- What the processes that work on a job can bring about together, write by write.
pub mod Endings
pub mod Fencing
use sci_pegasus.Common.{
  ℕ, suc, String, ◌==◌, Bool, true, false, ◌&&◌, ◌||◌, not, Option, none, some, List, [], ◌∷◌, ◌≡◌,
  refl, sym, ap, ◌∙◌, subst, ◌⊎◌, inl, inr, arith, leb, ltb, eqb, Bool-cases, false≢true,
  if◌then◌else◌,
}
use sci_pegasus.Mongo.{Mongo, IsMongo}
use sci_pegasus.Compaction.Jobs.{
  Status, queued, summarizing, summary_ready, merge_prepared, retryable, merged, failed, cancelled,
  superseded, Owner, Lease, Guard, Entry, Job, is_active, has_status, is_given, is_unleased,
  is_text, is_live, Claim, Command, is_commanded,
}
use sci_pegasus.Compaction.Writes.{
  Read, Write, claim_next, heartbeat, begin_summary, save_summary, prepare_merge, restore_merge,
  settle_runtime, mark_merged, release_for_retry, fail_job, fail_for_missing_owner, acquire_guard,
  heartbeat_guard, release_guard, activate, activate_unclaimed, activate_prepared, offer_summary,
  cancel, supersede, cancel_unclaimed, cancel_job, close_after_repair, join,
}
use sci_pegasus.Compaction.Filters.{passes, is_unclaimed_shadow}
use sci_pegasus.Compaction.Updates.{updated, closed, transitioned}
use sci_pegasus.Compaction.Store.{written, created}
use sci_pegasus.Compaction.Updates.Consistency.{
  IsConsistent, is_numbered, is_latest, updated-IsConsistent,
}

module _ (m : Mongo) where
  -- Writes in the order in which the store applies them, each at its time.
  unfoldable pub performed : List (ℕ × Write) → Option Job → Option Job
  unfolding written
  performed [] slot = slot
  performed ((now, w) ∷ rest) slot = performed rest (written m now w slot).1

module _ {κ} (m : Mongo) (documented : IsMongo m) (P : Job → Type κ)
    (kept : (now : ℕ) (w : Write) (j : Job)
      → passes now w j ≡ true
      → P j
      → P (updated now w j)) where
  written-kept :
      (now : ℕ) (w : Write) (j : Job)
      → P j
      → (k : Job) × ((written m now w (some j)).1 ≡ some k) × P k
  unfolding written
  written-kept now w j p = elim (Bool-cases (passes now w j)) [
    | inl e ↦ (
      updated now w j,
      ap (λ r. r.1) (documented.hit Job (passes now w) (updated now w) j e),
      kept now w j e p,
    )
    | inr e ↦ (j, ap (λ r. r.1) (documented.miss Job (passes now w) (updated now w) j e), p)
  ]

  -- What every write keeps, a run keeps.
  pub performed-kept :
      (run : List (ℕ × Write)) (j : Job)
      → P j
      → (k : Job) × (performed m run (some j) ≡ some k) × P k
  unfolding performed
  performed-kept [] j p = (j, refl, p)
  performed-kept ((now, w) ∷ rest) j p =
      let (k, e, q) = written-kept now w j p in
      let (last, f, r) = performed-kept rest k q in
      (last, ap (λ slot. performed m rest slot) e ∙ f, r)

created-IsConsistent :
    (id : String) (owner : Owner) (source : Option String) (key hash : String) (at : Option ℕ)
    → IsConsistent (created id owner source key hash at)
unfolding created is_numbered
created-IsConsistent id owner source key hash at = record {
  barrier = refl;
  leased_active = refl;
  merged_settled = refl;
  numbered = refl;
  latest = refl;
}

-- Whatever writes the processes make to a job after its creation, in any order and at any times, and
-- whatever they had read before each: the barrier of the owner stands exactly while the job is active, only
-- an active job has a lease, a merged job's runtime has been settled, and the outbox has one entry for each
-- transition, numbered without a gap, the newest of which names the status. The store behaves as documented.
pub performed-IsConsistent :
    (m : Mongo) (id : String) (owner : Owner) (source : Option String) (key hash : String)
    (at : Option ℕ) (run : List (ℕ × Write))
    → IsMongo m
    → (j : Job) × (performed m run (some (created id owner source key hash at)) ≡ some j)
      × IsConsistent j
performed-IsConsistent m id owner source key hash at run documented =
    performed-kept m documented IsConsistent updated-IsConsistent run
      (created id owner source key hash at) (created-IsConsistent id owner source key hash at)
