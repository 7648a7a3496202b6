-- ===== src/Hippocampus/Exit.antt =====
-- lib/agent/hippocampus-runtime.ts: onLoopExit, abort and toolResultAdmissionLimitTokens.
pub mod Ends
use sci_pegasus.Common.{
  ℕ, String, Bool, true, false, Option, none, some, List, [], ◌∷◌, if◌then◌else◌,
}
use sci_pegasus.Hippocampus.Tasks.{
  Phase, running, handed_off, succeeded, failed, cancelled, Task, Runtime, on_handoff, elapsed, log,
  with_background, settle, cancel, finish_failed, finish_cancelled,
}
use sci_pegasus.Hippocampus.Merge.{Merged, replaced, refused, MergeError, merge_now}
use sci_pegasus.Hippocampus.Start.{View, idle, in_phase, view, settled_meanwhile}

-- HippocampusLoopExitResult; `merged` is true in one status.
pub data Status : Type 0 where
  nothing swapped handed_over : Status
  broken dropped : (reason : String) → Status

pub data Exit {ℓ} (M : Type ℓ) : Type ℓ where
  exited : Status → (messages : List M) → (after : Runtime M) → Exit M
  merge_thrown : MergeError → (messages : List M) → (after : Runtime M) → Exit M

-- What happens while onLoopExit waits: the reply of `handoff` (false where it is not given or throws),
-- how the task settles meanwhile, if it does, and how it settles when it is drained.
pub record Drain {ℓ} (M : Type ℓ) : Type ℓ where
  pub is_accepted : Bool
  pub during_handoff : Option (Phase M)
  pub drained : Phase M

module _ {ℓ} {M : Type ℓ} where
  unfoldable pub exit_merge : List M → Merged M → Exit M
  exit_merge messages (replaced tokens new r) = exited swapped new r
  exit_merge messages (refused e r) = merge_thrown e messages r

  unfoldable pub handed : ℕ → Option (Task M) → Runtime M → Runtime M
  handed now none r = r
  handed now (some task) r =
      log (on_handoff (elapsed now task.started_at) task.prefix_tokens task.splice_index)
        (with_background none (cancel now "durable handoff" r))

module _ {ℓ} {M : Type ℓ} (input_tokens : List M → ℕ) where
  unfoldable pub drained_exit : ℕ → List M → Runtime M → View M → Exit M
  unfolding exit_merge
  drained_exit now messages r idle = exited nothing messages r
  drained_exit now messages r (in_phase running) = exited nothing messages r
  drained_exit now messages r (in_phase handed_off) =
      exited handed_over messages (with_background none r)
  drained_exit now messages r (in_phase (succeeded w)) =
      exit_merge messages (merge_now input_tokens now 0 messages r)
  drained_exit now messages r (in_phase (failed reason)) =
      exited (broken reason) messages (finish_failed now 0 reason r)
  drained_exit now messages r (in_phase (cancelled reason)) =
      exited (dropped reason) messages (finish_cancelled now 0 reason r)

  unfoldable pub running_exit : ℕ → Drain M → List M → Runtime M → Exit M
  unfolding handed drained_exit view
  running_exit now d messages r =
      let after = settled_meanwhile now d.during_handoff r in
      let final = settle now d.drained after in
      if d.is_accepted
      then exited handed_over messages (handed now after.background after)
      else drained_exit now messages final (view final.background)

  unfoldable pub exit_by_view : ℕ → Drain M → List M → Runtime M → View M → Exit M
  unfolding drained_exit running_exit
  exit_by_view now d messages r idle = drained_exit now messages r idle
  exit_by_view now d messages r (in_phase running) = running_exit now d messages r
  exit_by_view now d messages r (in_phase handed_off) =
      drained_exit now messages r (in_phase handed_off)
  exit_by_view now d messages r (in_phase (succeeded w)) =
      drained_exit now messages r (in_phase (succeeded w))
  exit_by_view now d messages r (in_phase (failed reason)) =
      drained_exit now messages r (in_phase (failed reason))
  exit_by_view now d messages r (in_phase (cancelled reason)) =
      drained_exit now messages r (in_phase (cancelled reason))

  -- onLoopExit
  unfoldable pub on_loop_exit : ℕ → Drain M → List M → Runtime M → Exit M
  unfolding exit_by_view view
  on_loop_exit now d messages r = exit_by_view now d messages r (view r.background)

module _ {ℓ} {M : Type ℓ} where
  abbrev abort_view : ℕ → String → View M → Runtime M → Runtime M
  abort_view now reason idle r = r
  abort_view now reason (in_phase handed_off) r = with_background none r
  abort_view now reason (in_phase running) r = finish_cancelled now 0 reason (cancel now reason r)
  abort_view now reason (in_phase (succeeded w)) r = finish_cancelled now 0 reason r
  abort_view now reason (in_phase (failed why)) r = finish_cancelled now 0 reason r
  abort_view now reason (in_phase (cancelled why)) r = finish_cancelled now 0 reason r

  unfoldable pub abort : ℕ → String → Runtime M → Runtime M
  unfolding view
  abort now reason r = abort_view now reason (view r.background) r

  abbrev limit_by_view : View M → Runtime M → ℕ
  limit_by_view idle r = r.budget.fork_prefix_limit_tokens
  limit_by_view (in_phase phase) r = r.budget.swap_tokens

  -- toolResultAdmissionLimitTokens
  unfoldable pub tool_result_admission_limit_tokens : Runtime M → ℕ
  unfolding view
  tool_result_admission_limit_tokens r = limit_by_view (view r.background) r
