-- ===== src/Hippocampus/Exit/Ends.antt =====
-- A loop exit ends the task.
use sci_pegasus.Common.{
  ℕ, Bool, true, false, Option, none, some, List, ◌≡◌, refl, sym, ap, ◌∙◌, leb, length, arith,
  Bool-cases, inl, inr, false≢true,
}
use sci_pegasus.Hippocampus.Tasks.{
  Phase, running, handed_off, succeeded, failed, cancelled, Task, Runtime, is_running, settle,
  finish_failed,
}
use sci_pegasus.Hippocampus.Tasks.Endings.{finish_failed-background, finish_cancelled-background}
use sci_pegasus.Hippocampus.Merge.{
  merge_now, merge_task, merge_phase, merge_summary, merged_runtime,
}
use sci_pegasus.Hippocampus.Start.{View, idle, in_phase, view, settled_meanwhile}
use sci_pegasus.Hippocampus.Exit.{
  Drain, on_loop_exit, exit_by_view, running_exit, drained_exit, exit_merge, handed,
}
use sci_pegasus.Hippocampus.Safety.Requests.{runtime_of}
use sci_pegasus.Hippocampus.Safety.Runs.{runtime_after, exit_merge-runtime}

module _ {ℓ} {M : Type ℓ} where
  -- The conversation is at least as long as the snapshot of the task.
  abbrev pub covers : List M → Option (Task M) → Bool
  covers messages none = true
  covers messages (some task) = leb task.splice_index (length messages)

  settle-covers :
      (messages : List M) (now : ℕ) (phase : Phase M) (r : Runtime M)
      → covers messages r.background ≡ true
      → covers messages (settle now phase r).background ≡ true
  unfolding settle
  settle-covers messages now phase r h = ground arith

  handed-background :
      (now : ℕ) (task : Option (Task M)) (r : Runtime M)
      → r.background ≡ task
      → (handed now task r).background ≡ none
  unfolding handed
  handed-background now none r e = e
  handed-background now (some task) r e = refl

  settled_meanwhile-covers :
      (messages : List M) (now : ℕ) (phase : Option (Phase M)) (r : Runtime M)
      → covers messages r.background ≡ true
      → covers messages (settled_meanwhile now phase r).background ≡ true
  settled_meanwhile-covers messages now none r h = h
  settled_meanwhile-covers messages now (some phase) r h = settle-covers messages now phase r h

  abbrev is_waiting : View M → Bool
  is_waiting idle = false
  is_waiting (in_phase phase) = is_running phase

  settle-view :
      (now : ℕ) (phase : Phase M) (r : Runtime M)
      → is_running phase ≡ false
      → is_waiting (view (settle now phase r).background) ≡ false
  unfolding settle view
  settle-view now phase r h = ground arith

module _ {ℓ} {M : Type ℓ} (input_tokens : List M → ℕ) where
  merge_summary-background :
      (now wait : ℕ) (w : M) (task : Task M) (messages : List M) (r : Runtime M)
      → leb task.splice_index (length messages) ≡ true
      → (runtime_of (merge_summary input_tokens now wait w task messages r)).background ≡ none
  unfolding merge_summary merged_runtime finish_failed
  merge_summary-background now wait w task messages r h = ground arith

  exit_merge-background :
      (now : ℕ) (w : M) (task : Task M) (messages : List M) (r : Runtime M)
      → r.background ≡ some task
      → task.phase ≡ succeeded w
      → leb task.splice_index (length messages) ≡ true
      → (runtime_after (exit_merge messages (merge_now input_tokens now 0 messages r))).background
        ≡ none
  unfolding merge_now merge_task merge_phase
  exit_merge-background now w task messages r e f h =
      let m = merge_now input_tokens now 0 messages r in
      let ready : m ≡ merge_summary input_tokens now 0 w task messages r =
        ap (λ t. merge_task input_tokens now 0 t messages r) e
        ∙ ap (λ phase. merge_phase input_tokens now 0 phase task messages r) f in
      ap (λ after. after.background) (exit_merge-runtime messages m ∙ ap runtime_of ready)
      ∙ merge_summary-background now 0 w task messages r h

  drained_phase-background :
      (now : ℕ) (messages : List M) (r : Runtime M) (task : Task M) (phase : Phase M)
      → r.background ≡ some task
      → task.phase ≡ phase
      → is_running phase ≡ false
      → leb task.splice_index (length messages) ≡ true
      → (runtime_after (drained_exit input_tokens now messages r (in_phase phase))).background
        ≡ none
  unfolding drained_exit
  drained_phase-background now messages r task running e f n h = absurd (false≢true (sym n))
  drained_phase-background now messages r task handed_off e f n h = refl
  drained_phase-background now messages r task (succeeded w) e f n h =
      exit_merge-background now w task messages r e f h
  drained_phase-background now messages r task (failed reason) e f n h =
      finish_failed-background now 0 reason r
  drained_phase-background now messages r task (cancelled reason) e f n h =
      finish_cancelled-background now 0 reason r

  drained_exit-background :
      (now : ℕ) (messages : List M) (r : Runtime M) (task : Option (Task M))
      → r.background ≡ task
      → is_waiting (view task) ≡ false
      → covers messages task ≡ true
      → (runtime_after (drained_exit input_tokens now messages r (view task))).background ≡ none
  unfolding drained_exit view
  drained_exit-background now messages r none e n h = e
  drained_exit-background now messages r (some task) e n h =
      drained_phase-background now messages r task task.phase e refl n h

  running_exit-background :
      (now : ℕ) (d : Drain M) (messages : List M) (r : Runtime M)
      → is_running d.drained ≡ false
      → covers messages r.background ≡ true
      → (runtime_after (running_exit input_tokens now d messages r)).background ≡ none
  unfolding running_exit
  running_exit-background now d messages r n h =
      let after = settled_meanwhile now d.during_handoff r in
      let final = settle now d.drained after in
      elim (Bool-cases d.is_accepted) [
        | inl e ↦ rw e (handed-background now after.background after refl)
        | inr e ↦ rw e (
            drained_exit-background now messages final final.background refl
              (settle-view now d.drained after n)
              (settle-covers messages now d.drained after
                (settled_meanwhile-covers messages now d.during_handoff r h)))
      ]

  exit_phase-background :
      (now : ℕ) (d : Drain M) (messages : List M) (r : Runtime M) (task : Task M) (phase : Phase M)
      → r.background ≡ some task
      → task.phase ≡ phase
      → is_running d.drained ≡ false
      → leb task.splice_index (length messages) ≡ true
      → (runtime_after (exit_by_view input_tokens now d messages r (in_phase phase))).background
        ≡ none
  unfolding exit_by_view
  exit_phase-background now d messages r task running e f n h =
      running_exit-background now d messages r n (rw e h)
  exit_phase-background now d messages r task handed_off e f n h =
      drained_phase-background now messages r task handed_off e f refl h
  exit_phase-background now d messages r task (succeeded w) e f n h =
      drained_phase-background now messages r task (succeeded w) e f refl h
  exit_phase-background now d messages r task (failed reason) e f n h =
      drained_phase-background now messages r task (failed reason) e f refl h
  exit_phase-background now d messages r task (cancelled reason) e f n h =
      drained_phase-background now messages r task (cancelled reason) e f refl h

  exit_by_view-background :
      (now : ℕ) (d : Drain M) (messages : List M) (r : Runtime M) (task : Option (Task M))
      → r.background ≡ task
      → is_running d.drained ≡ false
      → covers messages task ≡ true
      → (runtime_after (exit_by_view input_tokens now d messages r (view task))).background ≡ none
  unfolding exit_by_view view
  exit_by_view-background now d messages r none e n h =
      drained_exit-background now messages r none e refl h
  exit_by_view-background now d messages r (some task) e n h =
      exit_phase-background now d messages r task task.phase e refl n h

  -- After onLoopExit there is no task left, whichever way the exit goes, an error of the merge included:
  -- as long as a task that is drained settles, which it does after the background timeout at the latest,
  -- and the conversation is at least as long as the snapshot of the task.
  pub on_loop_exit-ends :
      (now : ℕ) (d : Drain M) (messages : List M) (r : Runtime M)
      → is_running d.drained ≡ false
      → covers messages r.background ≡ true
      → (runtime_after (on_loop_exit input_tokens now d messages r)).background ≡ none
  unfolding on_loop_exit
  on_loop_exit-ends now d messages r n h =
      exit_by_view-background now d messages r r.background refl n h
