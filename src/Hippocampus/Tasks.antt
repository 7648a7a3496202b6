-- ===== src/Hippocampus/Tasks.antt =====
-- lib/agent/hippocampus-runtime.ts: the state of HippocampusRuntime and its private operations. `M` is
-- the type of messages, `now` the clock in milliseconds. A promise's result is an argument.
use Prim.Native.Char.{code}
pub mod Budgets
pub mod Endings
use sci_pegasus.Common.{
  ℕ, suc, ◌+◌, ◌-◌, String, Bool, true, false, ◌&&◌, ◌||◌, not, Option, none, some, List, [], ◌∷◌,
  leb, ltb, eqb, length, drop, if◌then◌else◌,
}
use sci_pegasus.Hippocampus.Budget.{
  Limits, Timing, Budget, Resolved, budget, refused, resolve_budget,
}

-- HippocampusSafetyState.breaker
pub data Breaker : Type 0 where
  consecutive_failures rapid_refill prefix_overflow : Breaker

-- BackgroundState
pub data Phase {ℓ} (M : Type ℓ) : Type ℓ where
  running handed_off : Phase M
  succeeded : (wrapped_message : M) → Phase M
  failed cancelled : (reason : String) → Phase M

-- What the compaction runner answers: CompactionOutcome, or what it throws.
pub data Outcome {ℓ} (M : Type ℓ) : Type ℓ where
  summarised : (summary : String) → (wrapped_message : M) → Outcome M
  accepted_elsewhere : Outcome M
  thrown : (message : String) → Outcome M

-- BackgroundTask
pub record Task {ℓ} (M : Type ℓ) : Type ℓ where
  pub prefix : List M
  pub splice_index : ℕ
  pub prefix_tokens : ℕ
  pub started_at : ℕ
  pub phase : Phase M

-- The calls of HippocampusRuntimeEvents.
pub data Event : Type 0 where
  on_start : (snapshot_tokens splice_index started_at initial_available_at : ℕ) → Event
  on_ready : (duration : ℕ) → Event
  on_merged : (duration user_wait compacted_tokens removed_messages : ℕ) → Event
  on_failed on_cancelled : (duration user_wait : ℕ) → (reason : String) → Event
  on_handoff : (duration compacted_tokens removed_messages : ℕ) → Event
  on_breaker : Breaker → Event

-- HippocampusRuntime; the newest event comes first.
pub record Runtime {ℓ} (M : Type ℓ) : Type ℓ where
  pub budget : Budget
  pub background : Option (Task M)
  pub consecutive_failures : ℕ
  pub rapid_refills : ℕ
  pub turns_since_merge : Option ℕ
  pub breaker : Option Breaker
  pub events : List Event

-- HippocampusRuntimeConfig without its callbacks
pub record Config : Type 0 where
  pub limits : Limits
  pub background_timeout : ℕ

abbrev pub elapsed : ℕ → ℕ → ℕ
elapsed now start = now - start

-- White space of String.prototype.trim.
is_blank_char : ℕ → Bool
is_blank_char c =
    (leb 9 c && leb c 13)
    || eqb c 32
    || eqb c 160
    || eqb c 5760
    || (leb 8192 c && leb c 8202)
    || eqb c 8232
    || eqb c 8233
    || eqb c 8239
    || eqb c 8287
    || eqb c 12288
    || eqb c 65279

-- !summary.trim()
unfoldable pub is_blank : String → Bool
unfolding is_blank_char
is_blank String.[] = true
is_blank (String.◌∷◌ c s) = is_blank_char (code c) && is_blank s

module _ {ℓ} {M : Type ℓ} where
  -- The phase that an outcome settles a task with, where it was not cancelled before.
  unfoldable pub phase_of : Outcome M → Phase M
  unfolding is_blank
  phase_of (summarised summary w) = if is_blank summary then failed "empty summary" else succeeded w
  phase_of accepted_elsewhere = handed_off
  phase_of (thrown message) = failed message

  abbrev pub is_running : Phase M → Bool
  is_running running = true
  is_running handed_off = false
  is_running (succeeded w) = false
  is_running (failed reason) = false
  is_running (cancelled reason) = false

  abbrev pub log : Event → Runtime M → Runtime M
  log e r = record {
    budget = r.budget;
    background = r.background;
    consecutive_failures = r.consecutive_failures;
    rapid_refills = r.rapid_refills;
    turns_since_merge = r.turns_since_merge;
    breaker = r.breaker;
    events = e ∷ r.events;
  }

  abbrev pub with_background : Option (Task M) → Runtime M → Runtime M
  with_background task r = record {
    budget = r.budget;
    background = task;
    consecutive_failures = r.consecutive_failures;
    rapid_refills = r.rapid_refills;
    turns_since_merge = r.turns_since_merge;
    breaker = r.breaker;
    events = r.events;
  }

  abbrev pub with_phase : Phase M → Task M → Task M
  with_phase phase task = record {
    prefix = task.prefix;
    splice_index = task.splice_index;
    prefix_tokens = task.prefix_tokens;
    started_at = task.started_at;
    phase = phase;
  }

  abbrev ready_event : ℕ → Phase M → Task M → Runtime M → Runtime M
  ready_event now running task r = r
  ready_event now (succeeded w) task r = log (on_ready (elapsed now task.started_at)) r
  ready_event now handed_off task r =
      log (on_handoff (elapsed now task.started_at) task.prefix_tokens task.splice_index) r
  ready_event now (failed reason) task r = r
  ready_event now (cancelled reason) task r = r

  abbrev settle_task : ℕ → Phase M → Option (Task M) → Runtime M → Runtime M
  settle_task now phase none r = r
  settle_task now phase (some task) r =
      if is_running task.phase
      then ready_event now phase task (with_background (some (with_phase phase task)) r)
      else r

  -- settle, with the event of a hand-off that follows it
  unfoldable pub settle : ℕ → Phase M → Runtime M → Runtime M
  settle now phase r = settle_task now phase r.background r

  -- task.cancel
  unfoldable pub cancel : ℕ → String → Runtime M → Runtime M
  unfolding settle
  cancel now reason r = settle now (cancelled reason) r

  abbrev fail_breaker : Option Breaker → ℕ → Runtime M → Runtime M
  fail_breaker (some b) failures r = r
  fail_breaker none failures r =
      if leb 3 failures
      then log (on_breaker consecutive_failures) (record {
        budget = r.budget;
        background = r.background;
        consecutive_failures = r.consecutive_failures;
        rapid_refills = r.rapid_refills;
        turns_since_merge = r.turns_since_merge;
        breaker = some consecutive_failures;
        events = r.events;
      })
      else r

  abbrev fail_task : ℕ → ℕ → String → Option (Task M) → Runtime M → Runtime M
  fail_task now wait reason none r = r
  fail_task now wait reason (some task) r =
      fail_breaker r.breaker (suc r.consecutive_failures) (record {
        budget = r.budget;
        background = none;
        consecutive_failures = suc r.consecutive_failures;
        rapid_refills = r.rapid_refills;
        turns_since_merge = r.turns_since_merge;
        breaker = r.breaker;
        events = on_failed (elapsed now task.started_at) wait reason ∷ r.events;
      })

  -- finishFailed
  unfoldable pub finish_failed : ℕ → ℕ → String → Runtime M → Runtime M
  finish_failed now wait reason r = fail_task now wait reason r.background r

  abbrev cancel_task : ℕ → ℕ → String → Option (Task M) → Runtime M → Runtime M
  cancel_task now wait reason none r = r
  cancel_task now wait reason (some task) r =
      log (on_cancelled (elapsed now task.started_at) wait reason) (with_background none r)

  -- finishCancelled
  unfoldable pub finish_cancelled : ℕ → ℕ → String → Runtime M → Runtime M
  finish_cancelled now wait reason r = cancel_task now wait reason r.background r
