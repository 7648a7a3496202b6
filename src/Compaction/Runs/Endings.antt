-- ===== src/Compaction/Runs/Endings.antt =====
-- A job that has ended stays as it is.
use sci_pegasus.Common.{ℕ, Bool, true, ◌||◌, none, some, List, ◌≡◌, refl, sym, ◌∙◌, subst, arith}
use sci_pegasus.Mongo.{Mongo, IsMongo}
use sci_pegasus.Compaction.Jobs.{Status, merged, cancelled, superseded, Job, has_status, is_live}
use sci_pegasus.Compaction.Writes.{Write}
use sci_pegasus.Compaction.Filters.{passes, is_unclaimed_shadow}
use sci_pegasus.Compaction.Updates.{updated, closed, transitioned}
use sci_pegasus.Compaction.Updates.Consistency.{IsConsistent, updated-IsConsistent}
use sci_pegasus.Compaction.Runs.{performed, performed-kept}

-- merged, cancelled and superseded
abbrev pub is_final : Status → Bool
is_final s = has_status merged s || has_status cancelled s || has_status superseded s

-- A job that is where j was when it ended.
pub record IsEnded (j k : Job) : Type 0 where
  pub is_consistent : IsConsistent k
  pub final : is_final k.status ≡ true
  pub status : k.status ≡ j.status
  pub status_outbox : k.status_outbox ≡ j.status_outbox
  pub summary : k.summary ≡ j.summary
  pub lease : k.lease ≡ none

module _ (now : ℕ) (w : Write) (j : Job) (h : passes now w j ≡ true) (c : IsConsistent j)
    (f : is_final j.status ≡ true) where
  status-final : (updated now w j).status ≡ j.status
  unfolding passes updated closed transitioned is_live is_unclaimed_shadow
  status-final = let b = c.barrier in let l = c.leased_active in ground arith

  outbox-final : (updated now w j).status_outbox ≡ j.status_outbox
  unfolding passes updated closed transitioned is_live is_unclaimed_shadow
  outbox-final = let b = c.barrier in let l = c.leased_active in ground arith

  summary-final : (updated now w j).summary ≡ j.summary
  unfolding passes updated closed transitioned is_live is_unclaimed_shadow
  summary-final = let b = c.barrier in let l = c.leased_active in ground arith

  lease-final : (updated now w j).lease ≡ none
  unfolding passes updated closed transitioned is_live is_unclaimed_shadow
  lease-final = let b = c.barrier in let l = c.leased_active in ground arith

updated-IsEnded :
    (j : Job) (now : ℕ) (w : Write) (k : Job)
    → passes now w k ≡ true
    → IsEnded j k
    → IsEnded j (updated now w k)
updated-IsEnded j now w k h e =
    let c = e.is_consistent in
    let f = e.final in
    let same = status-final now w k h c f in
    record {
      is_consistent = updated-IsConsistent now w k h c;
      final = subst (λ s. is_final s ≡ true) (sym same) f;
      status = same ∙ e.status;
      status_outbox = outbox-final now w k h c f ∙ e.status_outbox;
      summary = summary-final now w k h c f ∙ e.summary;
      lease = lease-final now w k h c f;
    }

unleased_final : (j : Job) → IsConsistent j → is_final j.status ≡ true → j.lease ≡ none
unleased_final j c f = let l = c.leased_active in ground arith

-- A job that is merged, cancelled or superseded is ended: through any run of writes its status, its outbox
-- and its summary stay as they are and it has no lease, so that no worker claims it again. The job is one
-- that a run after its creation can reach, and the store behaves as documented.
pub performed-IsEnded :
    (m : Mongo) (j : Job) (run : List (ℕ × Write))
    → IsMongo m
    → IsConsistent j
    → is_final j.status ≡ true
    → (k : Job) × (performed m run (some j) ≡ some k) × IsEnded j k
performed-IsEnded m j run documented c f =
    performed-kept m documented (λ k. IsEnded j k) (updated-IsEnded j) run j
      (record {
        is_consistent = c;
        final = f;
        status = refl;
        status_outbox = refl;
        summary = refl;
        lease = unleased_final j c f;
      })
