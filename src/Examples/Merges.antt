-- ===== src/Examples/Merges.antt =====
-- A merge during which a message is appended.
use sci_pegasus.Common.{ℕ, arith, zero, suc, String, true, none, some, List, [], ◌∷◌, ◌≡◌, refl}
use sci_pegasus.Compaction.Merging.{
  Context, Prepared, refusal, appended, merged, Round, apply_prepared_merge, changed,
}
use sci_pegasus.Compaction.Merging.Progress.{
  OnlyAppends, quiet, arrives, apply_prepared_merge-merges,
}
use sci_pegasus.Compaction.Merging.Lossless.{IsLossless, apply_prepared_merge-IsLossless}

abbrev hash_messages : List ℕ → String
hash_messages [] = "none"
hash_messages (m ∷ []) = "one"
hash_messages (m ∷ n ∷ messages) = "more"

abbrev hash_value : ℕ → String
hash_value m = "replacement"

abbrev fenced_context : Context ℕ
fenced_context = record {
  messages = 10 ∷ 11 ∷ 12 ∷ [];
  compacted_messages = [];
  context_revision = 3;
  last_applied_compaction_id = none;
  context_compaction_fence = some (record { job_id = "job"; fence_token = "f1"; expires_at = 900 });
}

abbrev prepared_job : Prepared ℕ
prepared_job = record {
  job_id = "job";
  fence_token = "f1";
  prefix_length = 2;
  prefix_hash = "more";
  replacement_message = some 99;
  replacement_hash = some "replacement";
}

-- A message is appended in the first round, so that its write fails.
abbrev busy_rounds : ℕ → Round ℕ
busy_rounds zero = record { is_live = true; changes = appended (13 ∷ []) ∷ []; now = 100 }
busy_rounds (suc k) = record { is_live = true; changes = []; now = 200 }

abbrev merged_context : Context ℕ
merged_context = record {
  messages = 10 ∷ 11 ∷ 12 ∷ 13 ∷ [];
  compacted_messages = 99 ∷ 12 ∷ 13 ∷ [];
  context_revision = 5;
  last_applied_compaction_id = some "job";
  context_compaction_fence = none;
}

merge_succeeds :
    apply_prepared_merge hash_messages hash_value busy_rounds prepared_job fenced_context
    ≡ (merged 5, merged_context)
unfolding apply_prepared_merge changed
merge_succeeds = refl

apply_prepared_merge-IsLossless_example :
    (r : ℕ) × (prepared_job.replacement_message ≡ some r)
    × IsLossless hash_messages busy_rounds prepared_job r fenced_context 5 merged_context
apply_prepared_merge-IsLossless_example =
    apply_prepared_merge-IsLossless hash_messages hash_value busy_rounds prepared_job fenced_context
      merged_context 5 merge_succeeds

busy_rounds_live : (n : ℕ) → (busy_rounds n).is_live ≡ true
busy_rounds_live zero = refl
busy_rounds_live (suc n) = refl

busy_rounds-OnlyAppends : (n : ℕ) → OnlyAppends (busy_rounds n).changes
busy_rounds-OnlyAppends zero = arrives (13 ∷ []) [] quiet
busy_rounds-OnlyAppends (suc n) = quiet

not_refused : refusal hash_messages hash_value prepared_job 99 "replacement" fenced_context ≡ none
unfolding refusal
not_refused = refl

apply_prepared_merge-merges_example :
    (n : ℕ) × (after : Context ℕ) × (apply_prepared_merge hash_messages hash_value busy_rounds
        prepared_job fenced_context
      ≡ (merged n, after))
apply_prepared_merge-merges_example =
    apply_prepared_merge-merges hash_messages hash_value prepared_job 99 "replacement" busy_rounds
      busy_rounds_live busy_rounds-OnlyAppends 1 fenced_context refl refl (omega arith) refl refl
      not_refused
