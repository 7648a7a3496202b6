-- ===== src/Compaction/Merging.antt =====
-- lib/agent-compaction/repository.ts: applyPreparedMergeToOwner, on the document of an owner that exists.
-- What other processes do between a read of the document and the write that follows is an argument.
pub mod Lossless
pub mod Progress
use sci_pegasus.Common.{
  ℕ, zero, suc, ◌+◌, String, ◌==◌, Bool, true, false, ◌&&◌, not, Option, none, some, List, [], ◌∷◌,
  ◌++◌, ltb, eqb, length, take, drop, if◌then◌else◌,
}
use sci_pegasus.Compaction.Jobs.{is_text}

-- ContextCompactionFence
pub record Fence : Type 0 where
  pub job_id : String
  pub fence_token : String
  pub expires_at : ℕ

-- The part of a Conversation, or of a member's session, that a merge reads or writes, its counters apart.
pub record Context {ℓ} (M : Type ℓ) : Type ℓ where
  pub messages : List M
  pub compacted_messages : List M
  pub context_revision : ℕ
  pub last_applied_compaction_id : Option String
  pub context_compaction_fence : Option Fence

-- What the merge reads of a prepared job and of the claim's token; `value_hash` and `prefix_hash` of the code are arguments.
pub record Prepared {ℓ} (M : Type ℓ) : Type ℓ where
  pub job_id : String
  pub fence_token : String
  pub prefix_length : ℕ
  pub prefix_hash : String
  pub replacement_message : Option M
  pub replacement_hash : Option String

-- What others do to the document: append a batch of messages none of which is there already
-- (appendConversationMessages), write both lists anew, as an edit or another compaction does,
-- install or clear a fence. The first two advance the revision in the same write.
pub data Change {ℓ} (M : Type ℓ) : Type ℓ where
  appended : (batch : List M) → Change M
  rewritten : (messages compacted : List M) → Change M
  fenced : (fence : Option Fence) → Change M

pub data MergeOutcome : Type 0 where
  lost_lease : MergeOutcome
  no_replacement hash_mismatch too_short prefix_changed revision_changed : MergeOutcome
  already_merged merged : (context_revision : ℕ) → MergeOutcome

-- A round of the loop: whether the lease of the job is live, what happens between the read and the
-- write, and the time of the write.
pub record Round {ℓ} (M : Type ℓ) : Type ℓ where
  pub is_live : Bool
  pub changes : List (Change M)
  pub now : ℕ

module _ {ℓ} {M : Type ℓ} where
  -- compacted.length > 0 ? compacted : messages
  abbrev pub active_of : List M → List M → List M
  active_of [] messages = messages
  active_of (m ∷ compacted) messages = m ∷ compacted

  -- loadOwnerSnapshot
  abbrev pub active_messages : Context M → List M
  active_messages c = active_of c.compacted_messages c.messages

  abbrev pub appended_to : List M → List M → List M
  appended_to [] batch = []
  appended_to (m ∷ compacted) batch = (m ∷ compacted) ++ batch

  unfoldable pub change : Change M → Context M → Context M
  change (appended batch) c = record c {
    messages = c.messages ++ batch;
    compacted_messages = appended_to c.compacted_messages batch;
    context_revision = suc c.context_revision;
  }
  change (rewritten messages compacted) c = record c {
    messages = messages;
    compacted_messages = compacted;
    context_revision = suc c.context_revision;
  }
  change (fenced fence) c = record c { context_compaction_fence = fence }

  unfoldable pub changed : List (Change M) → Context M → Context M
  unfolding change
  changed [] c = c
  changed (x ∷ changes) c = changed changes (change x c)

  abbrev pub holds_fence : Prepared M → ℕ → Option Fence → Bool
  holds_fence j now none = false
  holds_fence j now (some f) =
      f.job_id == j.job_id && f.fence_token == j.fence_token && ltb now f.expires_at

  -- revisionFilter and fenceFilter
  unfoldable pub may_swap : Prepared M → ℕ → ℕ → Context M → Bool
  may_swap j revision now c =
      eqb c.context_revision revision && holds_fence j now c.context_compaction_fence

  unfoldable pub swapped : Prepared M → ℕ → List M → Context M → Context M
  swapped j revision next c = record c {
    compacted_messages = next;
    context_revision = suc revision;
    last_applied_compaction_id = some j.job_id;
    context_compaction_fence = none;
  }

  -- The read after the last round
  unfoldable pub given_up : Prepared M → Context M → MergeOutcome × Context M
  given_up j c =
      if is_text j.job_id c.last_applied_compaction_id
      then (already_merged c.context_revision, c)
      else (revision_changed, c)

module _ {ℓ} {M : Type ℓ} (hash_messages : List M → String) (hash_value : M → String) where
  -- The tests of a round up to its write; `none` where they pass.
  unfoldable pub refusal : Prepared M → M → String → Context M → Option MergeOutcome
  refusal j r hash c =
      if not (hash_value r == hash)
      then some hash_mismatch
      else if is_text j.job_id c.last_applied_compaction_id
      then some (already_merged c.context_revision)
      else if ltb (length (active_messages c)) j.prefix_length
      then some too_short
      else if not (hash_messages (take j.prefix_length (active_messages c)) == j.prefix_hash)
      then some prefix_changed
      else none

  -- The rounds of the loop from round k on, at most `fuel` of them.
  unfoldable pub swap_rounds :
      (fuel k : ℕ) → (ℕ → Round M) → Prepared M → M → String → Context M → MergeOutcome × Context M
  unfolding refusal may_swap swapped given_up
  swap_rounds zero k rounds j r hash c = given_up j c
  swap_rounds (suc fuel) k rounds j r hash c =
      let round = rounds k in
      let next = r ∷ drop j.prefix_length (active_messages c) in
      let now_there = changed round.changes c in
      let rest = swap_rounds fuel (suc k) rounds j r hash now_there in
      if not round.is_live then (lost_lease, c) else elim (refusal j r hash c) [
        | some outcome ↦ (outcome, c)
        | none ↦
            if may_swap j c.context_revision round.now now_there
            then (merged (suc c.context_revision), swapped j c.context_revision next now_there)
            else rest
      ]

  -- A prepared job without a replacement answers so in the first round.
  unfoldable pub swap_with :
      (ℕ → Round M) → Prepared M → Option M → Option String → Context M → MergeOutcome × Context M
  unfolding swap_rounds
  swap_with rounds j (some r) (some hash) c = swap_rounds 8 0 rounds j r hash c
  swap_with rounds j (some r) none c =
      let round = rounds 0 in if round.is_live then (no_replacement, c) else (lost_lease, c)
  swap_with rounds j none hash c =
      let round = rounds 0 in if round.is_live then (no_replacement, c) else (lost_lease, c)

  -- applyPreparedMergeToOwner, whose MAX_MERGE_CAS_ATTEMPTS is 8
  unfoldable pub apply_prepared_merge :
      (ℕ → Round M) → Prepared M → Context M → MergeOutcome × Context M
  unfolding swap_with
  apply_prepared_merge rounds j c = swap_with rounds j j.replacement_message j.replacement_hash c
