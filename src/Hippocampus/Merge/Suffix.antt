-- ===== src/Hippocampus/Merge/Suffix.antt =====
-- What a merge does to a conversation that has grown since the snapshot was taken.
use sci_pegasus.Common.{
  ℕ, ◌<◌, none, some, List, [], ◌∷◌, ◌++◌, ◌≡◌, refl, length, length-append, drop, arith,
}
use sci_pegasus.Hippocampus.Tasks.{succeeded, Task, Runtime, Config, settle}
use sci_pegasus.Hippocampus.Merge.{
  replaced, merge_now, merge_task, merge_phase, merge_summary, merged_runtime,
}
use sci_pegasus.Hippocampus.Start.{launched}

module _ {ℓ} {A : Type ℓ} where
  drop-length_append : (xs ys : List A) → drop (length xs) (xs ++ ys) ≡ ys
  drop-length_append [] ys = refl
  drop-length_append (x ∷ xs) ys = drop-length_append xs ys

merge_summary-replaced {ℓ} :
    {M : Type ℓ} (input_tokens : List M → ℕ) (now wait : ℕ) (w : M) (task : Task M)
    (snapshot new : List M) (r : Runtime M)
    → task.splice_index ≡ length snapshot
    → input_tokens (w ∷ new) < input_tokens (snapshot ++ new)
    → input_tokens (w ∷ new) < r.budget.main_input_limit_tokens
    → merge_summary input_tokens now wait w task (snapshot ++ new) r
      ≡ replaced (input_tokens (w ∷ new)) (w ∷ new) (merged_runtime now wait task r)
unfolding merge_summary
merge_summary-replaced input_tokens now wait w task snapshot new r index smaller fits =
    let longer = length-append snapshot new in
    rw (index, drop-length_append snapshot new) (ground arith)

-- A summary of a snapshot replaces just the snapshot, however the conversation has grown since: if the
-- new input is smaller than the old one and below the limit of the main input, then a merge, after the
-- summary became ready, leaves the wrapped summary followed by the messages after the snapshot in their
-- order, no task, no failure counted and the turns since a merge at 0.
pub merge_now-suffix {ℓ} :
    {M : Type ℓ} (input_tokens : List M → ℕ) (c : Config) (started ready now wait tokens : ℕ)
    (snapshot new : List M) (w : M) (r : Runtime M)
    → input_tokens (w ∷ new) < input_tokens (snapshot ++ new)
    → input_tokens (w ∷ new) < r.budget.main_input_limit_tokens
    → (after : Runtime M) × (merge_now input_tokens now wait
          (snapshot ++ new)
          (settle ready (succeeded w) (launched c started snapshot tokens r))
        ≡ replaced (input_tokens (w ∷ new)) (w ∷ new) after)
      × (after.background ≡ none)
      × (after.consecutive_failures ≡ 0)
      × (after.turns_since_merge ≡ some 0)
unfolding merge_now merge_task merge_phase merge_summary settle launched merged_runtime
merge_now-suffix input_tokens c started ready now wait tokens snapshot new w r smaller fits =
    let task : Task _ = record {
      prefix = snapshot;
      splice_index = length snapshot;
      prefix_tokens = tokens;
      started_at = started;
      phase = succeeded w;
    } in
    let ready_runtime = settle ready (succeeded w) (launched c started snapshot tokens r) in
    (
      merged_runtime now wait task ready_runtime,
      merge_summary-replaced input_tokens now wait w task snapshot new ready_runtime refl smaller
          fits,
      refl,
      refl,
      refl,
    )
