-- ===== src/Examples/Durable.antt =====
-- The life of a durable compaction job.
use sci_pegasus.Common.{ℕ, true, Option, none, some, List, [], ◌∷◌, ◌≡◌, refl, ◌⊎◌, arith}
use sci_pegasus.Mongo.{plain, plain-IsMongo}
use sci_pegasus.Compaction.Jobs.{
  Status, merged, cancelled, Owner, Lease, Job, Command, Claim, compaction_owner_key, same_owner,
  is_commanded,
}
use sci_pegasus.Compaction.Writes.{
  Read, Write, claim_next, begin_summary, save_summary, prepare_merge, settle_runtime, mark_merged,
  release_for_retry, cancel,
}
use sci_pegasus.Compaction.Filters.{passes}
use sci_pegasus.Compaction.Updates.{updated}
use sci_pegasus.Compaction.Store.{written, created}
use sci_pegasus.Compaction.Updates.Consistency.{IsConsistent, is_numbered}
use sci_pegasus.Compaction.Runs.{performed, performed-IsConsistent}
use sci_pegasus.Compaction.Runs.Endings.{IsEnded, performed-IsEnded}
use sci_pegasus.Compaction.Runs.Fencing.{IsUntouched, IsCancelled, write-fenced}

abbrev owner : Owner
owner = Owner.conversation "c1" "u1"

abbrev new_job : Job
new_job = created "job" owner (some "run") "key" "hash" none

abbrev worker : Claim
worker = record { job_id = "job"; owner_id = "w1"; fence_token = "f1" }

abbrev read : ℕ → Read
read n = record { status_revision = n; attempt = 1 }

abbrev command : Command
command = record { job_id = "job"; owner = owner; idempotency_key = "key" }

-- A second worker tries to claim the job in between.
abbrev run_to_merge : List (ℕ × Write)
run_to_merge =
    (10, claim_next "w1" "f1" 90000)
    ∷ (20, begin_summary worker (read 1))
    ∷ (30, claim_next "w2" "f2" 90000)
    ∷ (40, save_summary worker (read 2) "summary")
    ∷ (50, prepare_merge worker (read 3) "replacement")
    ∷ (60, settle_runtime worker)
    ∷ (70, mark_merged worker (read 4) 8)
    ∷ []

performed-IsConsistent_example :
    (j : Job) × (performed plain run_to_merge (some new_job) ≡ some j) × IsConsistent j
performed-IsConsistent_example =
    performed-IsConsistent plain "job" owner (some "run") "key" "hash" none run_to_merge
      plain-IsMongo

abbrev merged_job : Job
merged_job = record new_job {
  status = merged;
  status_revision = 2;
  status_outbox =
      record { revision = 2; status = merged; attempt = 1 }
      ∷ record { revision = 1; status = Status.queued; attempt = 0 }
      ∷ [];
  active_key = none;
  summary = some "summary";
  runtime_settled_at = some 60;
  merged_context_revision = some 8;
  attempt = 1;
}

merged_job-IsConsistent : IsConsistent merged_job
unfolding created is_numbered
merged_job-IsConsistent = record {
  barrier = refl;
  leased_active = refl;
  merged_settled = refl;
  numbered = refl;
  latest = refl;
}

performed-IsEnded_example :
    (k : Job) × (performed plain run_to_merge (some merged_job) ≡ some k) × IsEnded merged_job k
performed-IsEnded_example =
    performed-IsEnded plain merged_job run_to_merge plain-IsMongo merged_job-IsConsistent refl

abbrev first_lease : Lease
first_lease = record { owner_id = "w1"; fence_token = "f1"; heartbeat_at = 10; expires_at = 90010 }

abbrev claimed_job : Job
claimed_job = record new_job { lease = some first_lease; attempt = 1 }

claimed_job-IsConsistent : IsConsistent claimed_job
unfolding created is_numbered
claimed_job-IsConsistent = record {
  barrier = refl;
  leased_active = refl;
  merged_settled = refl;
  numbered = refl;
  latest = refl;
}

cancellation_passes : passes 100 (cancel command none (read 1) "stop") claimed_job ≡ true
unfolding passes created compaction_owner_key same_owner is_commanded
cancellation_passes = refl

write-fenced_example :
    IsUntouched claimed_job (updated 100 (cancel command none (read 1) "stop") claimed_job)
    ⊎ IsCancelled
        (cancel command none (read 1) "stop")
        claimed_job
        (updated 100 (cancel command none (read 1) "stop") claimed_job)
write-fenced_example =
    write-fenced 100 (cancel command none (read 1) "stop") claimed_job first_lease
      claimed_job-IsConsistent refl (omega arith) refl cancellation_passes

-- A prepared merge that is released for a retry can be cancelled.
abbrev prepared_then_cancelled : List (ℕ × Write)
prepared_then_cancelled =
    (10, claim_next "w1" "f1" 90000)
    ∷ (20, begin_summary worker (read 1))
    ∷ (40, save_summary worker (read 2) "summary")
    ∷ (50, prepare_merge worker (read 3) "replacement")
    ∷ (60, release_for_retry worker (read 4) "settlement did not commit" 1000)
    ∷ (70, cancel command none (read 5) "stop")
    ∷ []

abbrev status_of : Option Job → Option Status
status_of none = none
status_of (some j) = some j.status

prepared_merge_cancelled :
    status_of (performed plain prepared_then_cancelled (some new_job)) ≡ some cancelled
unfolding performed written passes updated created
prepared_merge_cancelled = refl

-- The same under the live lease of the next worker, who has just claimed the job.
abbrev reclaimed_then_cancelled : List (ℕ × Write)
reclaimed_then_cancelled =
    (10, claim_next "w1" "f1" 90000)
    ∷ (20, begin_summary worker (read 1))
    ∷ (40, save_summary worker (read 2) "summary")
    ∷ (50, prepare_merge worker (read 3) "replacement")
    ∷ (60, release_for_retry worker (read 4) "settlement did not commit" 1000)
    ∷ (2000, claim_next "w2" "f2" 90000)
    ∷ (2010, cancel command none (read 5) "stop")
    ∷ []

reclaimed_merge_cancelled :
    status_of (performed plain reclaimed_then_cancelled (some new_job)) ≡ some cancelled
unfolding performed written passes updated created
reclaimed_merge_cancelled = refl

merge_completes : status_of (performed plain run_to_merge (some new_job)) ≡ some merged
unfolding performed written passes updated created
merge_completes = refl
