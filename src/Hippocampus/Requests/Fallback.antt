-- ===== src/Hippocampus/Requests/Fallback.antt =====
-- What a wait for the task that brings no summary in time ends with.
use sci_pegasus.Common.{
  ℕ, ◌+◌, Bool, true, false, ◌&&◌, Option, none, some, List, ◌≡◌, refl, sym, arith, false≢true,
}
use sci_pegasus.Hippocampus.Tasks.{
  Phase, running, handed_off, succeeded, failed, cancelled, Task, Runtime, is_running, settle,
  cancel,
}
use sci_pegasus.Hippocampus.Start.{View, idle, in_phase, view, settled_meanwhile}
use sci_pegasus.Hippocampus.Requests.{sync_fallback, answered, Step, Wait, waited, after_wait}
use sci_pegasus.Hippocampus.Tasks.Endings.{finish_failed-background, finish_cancelled-background}

abbrev pub succeeds {ℓ} : {M : Type ℓ} → Option (Phase M) → Bool
succeeds none = false
succeeds (some running) = false
succeeds (some handed_off) = false
succeeds (some (succeeded w)) = true
succeeds (some (failed reason)) = false
succeeds (some (cancelled reason)) = false

module _ {ℓ} {M : Type ℓ} where
  abbrev succeeds_in : View M → Bool
  succeeds_in idle = false
  succeeds_in (in_phase phase) = succeeds (some phase)

  settled_meanwhile-succeeds :
      (now : ℕ) (phase : Option (Phase M)) (r : Runtime M) (task : Task M)
      → r.background ≡ some task
      → is_running task.phase ≡ true
      → succeeds_in (view (settled_meanwhile now phase r).background) ≡ succeeds phase
  unfolding settle view
  settled_meanwhile-succeeds now none r task e h = ground arith
  settled_meanwhile-succeeds now (some phase) r task e h = ground arith

-- The request falls back on a synchronous compaction, with nothing replaced and no task left.
pub record FallsBack {ℓ} {M : Type ℓ} (tokens wait : ℕ) (messages : List M) (s : Step M)
    : Type ℓ where
  pub answer : s.answer ≡ answered sync_fallback tokens wait
  pub messages_kept : s.messages ≡ messages
  pub no_task : s.runtime.background ≡ none

module _ {ℓ} {M : Type ℓ} (input_tokens : List M → ℕ) where
  after_phase-FallsBack :
      (now wait : ℕ) (is_settled : Bool) (messages : List M) (tokens : ℕ) (r : Runtime M)
      (phase : Phase M)
      → is_settled && succeeds (some phase) ≡ false
      → FallsBack tokens wait messages
          (after_wait input_tokens now wait is_settled messages tokens r (in_phase phase))
  unfolding after_wait
  after_phase-FallsBack now wait is_settled messages tokens r running h = record {
    answer = refl;
    messages_kept = refl;
    no_task =
        finish_cancelled-background now wait "blocking wait timeout"
          (cancel now "blocking wait timeout" r);
  }
  after_phase-FallsBack now wait is_settled messages tokens r handed_off h = record {
    answer = refl;
    messages_kept = refl;
    no_task = finish_cancelled-background now wait "blocking wait timeout" r;
  }
  after_phase-FallsBack now wait true messages tokens r (succeeded w) h =
      absurd (false≢true (sym h))
  after_phase-FallsBack now wait false messages tokens r (succeeded w) h = record {
    answer = refl;
    messages_kept = refl;
    no_task = finish_cancelled-background now wait "blocking wait timeout" r;
  }
  after_phase-FallsBack now wait is_settled messages tokens r (failed reason) h = record {
    answer = refl;
    messages_kept = refl;
    no_task = finish_failed-background now wait reason r;
  }
  after_phase-FallsBack now wait is_settled messages tokens r (cancelled reason) h = record {
    answer = refl;
    messages_kept = refl;
    no_task = finish_cancelled-background now wait "blocking wait timeout" r;
  }

  after_wait-FallsBack :
      (now wait : ℕ) (is_settled : Bool) (messages : List M) (tokens : ℕ) (r : Runtime M)
      (task : Option (Task M))
      → r.background ≡ task
      → is_settled && succeeds_in (view task) ≡ false
      → FallsBack tokens wait messages
          (after_wait input_tokens now wait is_settled messages tokens r (view task))
  unfolding after_wait view
  after_wait-FallsBack now wait is_settled messages tokens r none e h = record {
    answer = refl;
    messages_kept = refl;
    no_task = e;
  }
  after_wait-FallsBack now wait is_settled messages tokens r (some task) e h =
      after_phase-FallsBack now wait is_settled messages tokens r task.phase h

  -- While the loop waits for a running task, whatever else the task does than succeed in time (it goes on
  -- running, fails, is cancelled, is handed off, or its summary arrives after the wait ended), beforeRequest
  -- answers that the loop compacts synchronously: the messages are as they were and no task is left.
  pub waited-FallsBack :
      (now : ℕ) (w : Wait M) (messages : List M) (tokens : ℕ) (r : Runtime M) (task : Task M)
      → r.background ≡ some task
      → is_running task.phase ≡ true
      → w.is_settled && succeeds w.phase ≡ false
      → FallsBack tokens w.user_wait messages (waited input_tokens now w messages tokens r)
  unfolding waited
  waited-FallsBack now w messages tokens r task e g h =
      let after = settled_meanwhile (now + w.user_wait) w.phase r in
      let late = settled_meanwhile-succeeds (now + w.user_wait) w.phase r task e g in
      after_wait-FallsBack (now + w.user_wait) w.user_wait w.is_settled messages tokens after
        after.background refl (ground arith)
