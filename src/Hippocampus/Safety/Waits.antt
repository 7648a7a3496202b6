-- ===== src/Hippocampus/Safety/Waits.antt =====
-- Merges, waits and beforeRequest as a whole, and the breakers.
use sci_pegasus.Common.{
  ℕ, ◌+◌, String, Bool, true, false, Option, none, some, List, ◌∷◌, sym, subst, ltb, leb, drop,
  Bool-cases, inl, inr, length,
}
use sci_pegasus.Hippocampus.Budget.{Timing}
use sci_pegasus.Hippocampus.Tasks.{
  Phase, running, handed_off, succeeded, failed, cancelled, Task, Runtime, Config, settle, cancel,
  finish_cancelled,
}
use sci_pegasus.Hippocampus.Merge.{merge_now, merge_task, merge_phase, merge_summary}
use sci_pegasus.Hippocampus.Start.{View, idle, in_phase, view, Preparation, settled_meanwhile}
use sci_pegasus.Hippocampus.Requests.{
  Wait, before_request, by_view, waited, after_wait, merge_step, finished_task, counted_turn,
}
use sci_pegasus.Hippocampus.Safety.{
  Guards, Guards-refl, Guards-trans, settle-Guards, finish_failed-Guards, finish_cancelled-Guards,
  settled_meanwhile-Guards,
}
use sci_pegasus.Hippocampus.Safety.Requests.{
  runtime_of, merged_runtime-Guards, merge_step-runtime, counted_turn-Guards, finished_task-Guards,
  idle_step-Guards,
}

module _ {ℓ} {M : Type ℓ} (input_tokens : List M → ℕ) where
  merge_summary-Guards :
      (now wait : ℕ) (w : M) (task : Task M) (messages : List M) (r : Runtime M)
      → Guards r (runtime_of (merge_summary input_tokens now wait w task messages r))
  unfolding merge_summary
  merge_summary-Guards now wait w task messages r =
      let candidate = w ∷ drop task.splice_index messages in
      elim (Bool-cases (ltb (length messages) task.splice_index)) [
        | inl e ↦ rw e (Guards-refl r)
        | inr e ↦ rw e (elim (Bool-cases (leb (input_tokens messages) (input_tokens candidate))) [
          | inl f ↦
              rw f (finish_failed-Guards now wait "async compaction did not reduce request input" r)
          | inr f ↦
              rw f
                (elim (Bool-cases (leb r.budget.main_input_limit_tokens (input_tokens candidate))) [
                  | inl g ↦ rw g (
                      finish_failed-Guards now wait
                        "async compaction did not restore output headroom" r)
                  | inr g ↦ rw g (merged_runtime-Guards now wait task r)
                ])
        ])
      ]

  merge_phase-Guards :
      (now wait : ℕ) (phase : Phase M) (task : Task M) (messages : List M) (r : Runtime M)
      → Guards r (runtime_of (merge_phase input_tokens now wait phase task messages r))
  unfolding merge_phase
  merge_phase-Guards now wait running task messages r = Guards-refl r
  merge_phase-Guards now wait handed_off task messages r = Guards-refl r
  merge_phase-Guards now wait (succeeded w) task messages r =
      merge_summary-Guards now wait w task messages r
  merge_phase-Guards now wait (failed reason) task messages r = Guards-refl r
  merge_phase-Guards now wait (cancelled reason) task messages r = Guards-refl r

  pub merge_task-Guards :
      (now wait : ℕ) (task : Option (Task M)) (messages : List M) (r : Runtime M)
      → Guards r (runtime_of (merge_task input_tokens now wait task messages r))
  unfolding merge_task
  merge_task-Guards now wait none messages r = Guards-refl r
  merge_task-Guards now wait (some task) messages r =
      merge_phase-Guards now wait task.phase task messages r

  merge_step-Guards :
      (now wait : ℕ) (messages : List M) (r : Runtime M)
      → Guards r (merge_step wait messages (merge_now input_tokens now wait messages r)).runtime
  unfolding merge_now
  merge_step-Guards now wait messages r =
      subst (λ after. Guards r after)
        (sym (merge_step-runtime wait messages (merge_now input_tokens now wait messages r)))
        (merge_task-Guards now wait r.background messages r)

  after_wait-Guards :
      (now wait : ℕ) (is_settled : Bool) (messages : List M) (tokens : ℕ) (r : Runtime M)
      (v : View M)
      → Guards r (after_wait input_tokens now wait is_settled messages tokens r v).runtime
  unfolding after_wait cancel
  after_wait-Guards now wait is_settled messages tokens r idle = Guards-refl r
  after_wait-Guards now wait is_settled messages tokens r (in_phase running) =
      let reason : String = "blocking wait timeout" in
      let dropped = settle now (cancelled reason) r in
      Guards-trans r dropped (finish_cancelled now wait reason dropped)
        (settle-Guards now (cancelled reason) r) (finish_cancelled-Guards now wait reason dropped)
  after_wait-Guards now wait is_settled messages tokens r (in_phase handed_off) =
      finish_cancelled-Guards now wait "blocking wait timeout" r
  after_wait-Guards now wait true messages tokens r (in_phase (succeeded w)) =
      merge_step-Guards now wait messages r
  after_wait-Guards now wait false messages tokens r (in_phase (succeeded w)) =
      finish_cancelled-Guards now wait "blocking wait timeout" r
  after_wait-Guards now wait is_settled messages tokens r (in_phase (failed reason)) =
      finish_failed-Guards now wait reason r
  after_wait-Guards now wait is_settled messages tokens r (in_phase (cancelled reason)) =
      finish_cancelled-Guards now wait "blocking wait timeout" r

  waited-Guards :
      (now : ℕ) (w : Wait M) (messages : List M) (tokens : ℕ) (r : Runtime M)
      → Guards r (waited input_tokens now w messages tokens r).runtime
  unfolding waited
  waited-Guards now w messages tokens r =
      let after = settled_meanwhile (now + w.user_wait) w.phase r in
      Guards-trans r after (waited input_tokens now w messages tokens r).runtime
        (settled_meanwhile-Guards (now + w.user_wait) w.phase r)
        (after_wait-Guards (now + w.user_wait) w.user_wait w.is_settled messages tokens after
          (view after.background))

  by_view-Guards :
      (c : Config) (now : ℕ) (w : Wait M) (p : Preparation M) (messages : List M) (tokens : ℕ)
      (r : Runtime M) (v : View M)
      → Guards r (by_view input_tokens c now w p messages tokens r v).runtime
  unfolding by_view
  by_view-Guards c now w p messages tokens r idle = idle_step-Guards c now p messages tokens r
  by_view-Guards c now w p messages tokens r (in_phase running) =
      elim (Bool-cases (leb r.budget.swap_tokens tokens)) [
        | inl e ↦ rw e (waited-Guards now w messages tokens r)
        | inr e ↦ rw e (Guards-refl r)
      ]
  by_view-Guards c now w p messages tokens r (in_phase handed_off) = Guards-refl r
  by_view-Guards c now w p messages tokens r (in_phase (succeeded s)) =
      elim (Bool-cases (leb r.budget.swap_tokens tokens)) [
        | inl e ↦ rw e (merge_step-Guards now 0 messages r)
        | inr e ↦ rw e (Guards-refl r)
      ]
  by_view-Guards c now w p messages tokens r (in_phase (failed reason)) = Guards-refl r
  by_view-Guards c now w p messages tokens r (in_phase (cancelled reason)) = Guards-refl r

  pub before_request-Guards :
      (c : Config) (t : Timing) (now : ℕ) (w : Wait M) (p : Preparation M) (messages : List M)
      (r : Runtime M)
      → Guards r (before_request input_tokens c t now w p messages r).runtime
  unfolding before_request
  before_request-Guards c t now w p messages r =
      let counted = counted_turn c t r in
      let open_task = finished_task now counted in
      Guards-trans r counted (before_request input_tokens c t now w p messages r).runtime
        (counted_turn-Guards c t r)
        (Guards-trans counted open_task (before_request input_tokens c t now w p messages r).runtime
          (finished_task-Guards now counted)
          (by_view-Guards c now w p messages (input_tokens messages) open_task
            (view open_task.background)))
