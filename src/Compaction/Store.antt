-- ===== src/Compaction/Store.antt =====
-- lib/agent-compaction/repository.ts: a job in the store, from its creation on.
use sci_pegasus.Common.{ℕ, String, Option, none, some, [], ◌∷◌}
use sci_pegasus.Mongo.{Mongo}
use sci_pegasus.Compaction.Jobs.{queued, Owner, Job, compaction_owner_key}
use sci_pegasus.Compaction.Writes.{Write}
use sci_pegasus.Compaction.Filters.{passes}
use sci_pegasus.Compaction.Updates.{updated}

-- A write to the document of a job, as the store applies it: what it returns, and the document left.
unfoldable pub written : Mongo → ℕ → Write → Option Job → Option Job × Option Job
unfolding passes updated
written m now w slot = m.find_one_and_update Job (passes now w) (updated now w) slot

-- The document that enqueueDurableCompaction creates.
unfoldable pub created : String → Owner → Option String → String → String → Option ℕ → Job
unfolding compaction_owner_key
created job_id owner source_run_id key prefix_hash available_at = record {
  job_id = job_id;
  owner = owner;
  owner_key = compaction_owner_key owner;
  source_run_id = source_run_id;
  idempotency_key = key;
  idempotency_keys = key ∷ [];
  prefix_hash = prefix_hash;
  status = queued;
  status_revision = 1;
  status_outbox = record { revision = 1; status = queued; attempt = 0 } ∷ [];
  active_key = some (compaction_owner_key owner);
  summary = none;
  replacement_hash = none;
  merged_context_revision = none;
  runtime_settled_at = none;
  attempt = 0;
  lease = none;
  source_turn_guard = none;
  available_at = available_at;
  last_error = none;
  finished_at = none;
}
