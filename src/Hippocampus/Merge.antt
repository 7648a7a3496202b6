-- ===== src/Hippocampus/Merge.antt =====
-- lib/agent/hippocampus-runtime.ts: mergeNow. `input_tokens` is the configured estimateInputTokens, which
-- the loop always gives.
pub mod Suffix
use sci_pegasus.Common.{
  ℕ, Bool, Option, none, some, List, [], ◌∷◌, leb, ltb, length, drop, if◌then◌else◌,
}
use sci_pegasus.Hippocampus.Tasks.{
  Phase, running, handed_off, succeeded, failed, cancelled, Task, Runtime, on_merged, finish_failed,
  elapsed,
}

pub data MergeError : Type 0 where
  no_ready_summary contract_broken not_reduced no_headroom : MergeError

-- The runtime after mergeNow, with the input tokens and the messages, or with the error.
pub data Merged {ℓ} (M : Type ℓ) : Type ℓ where
  replaced : (tokens : ℕ) → (messages : List M) → (after : Runtime M) → Merged M
  refused : MergeError → (after : Runtime M) → Merged M

module _ {ℓ} {M : Type ℓ} where
  unfoldable pub merged_runtime : ℕ → ℕ → Task M → Runtime M → Runtime M
  merged_runtime now wait task r = record {
    budget = r.budget;
    background = none;
    consecutive_failures = 0;
    rapid_refills = r.rapid_refills;
    turns_since_merge = some 0;
    breaker = r.breaker;
    events =
        on_merged (elapsed now task.started_at) wait task.prefix_tokens task.splice_index
        ∷ r.events;
  }

module _ {ℓ} {M : Type ℓ} (input_tokens : List M → ℕ) where
  unfoldable pub merge_summary : ℕ → ℕ → M → Task M → List M → Runtime M → Merged M
  unfolding merged_runtime finish_failed
  merge_summary now wait w task messages r =
      let candidate = w ∷ drop task.splice_index messages in
      if ltb (length messages) task.splice_index
      then refused contract_broken r
      else if leb (input_tokens messages) (input_tokens candidate)
      then refused not_reduced
          (finish_failed now wait "async compaction did not reduce request input" r)
      else if leb r.budget.main_input_limit_tokens (input_tokens candidate)
      then refused no_headroom
          (finish_failed now wait "async compaction did not restore output headroom" r)
      else replaced (input_tokens candidate) candidate (merged_runtime now wait task r)

  unfoldable pub merge_phase : ℕ → ℕ → Phase M → Task M → List M → Runtime M → Merged M
  unfolding merge_summary
  merge_phase now wait running task messages r = refused no_ready_summary r
  merge_phase now wait handed_off task messages r = refused no_ready_summary r
  merge_phase now wait (succeeded w) task messages r = merge_summary now wait w task messages r
  merge_phase now wait (failed reason) task messages r = refused no_ready_summary r
  merge_phase now wait (cancelled reason) task messages r = refused no_ready_summary r

  unfoldable pub merge_task : ℕ → ℕ → Option (Task M) → List M → Runtime M → Merged M
  unfolding merge_phase
  merge_task now wait none messages r = refused no_ready_summary r
  merge_task now wait (some task) messages r = merge_phase now wait task.phase task messages r

  -- mergeNow, whose reasons are without their figures
  unfoldable pub merge_now : ℕ → ℕ → List M → Runtime M → Merged M
  unfolding merge_task
  merge_now now wait messages r = merge_task now wait r.background messages r
