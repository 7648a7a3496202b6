-- ===== src/Hippocampus/Requests/Headroom.antt =====
-- A request that is admitted leaves room for the main output.
use sci_pegasus.Common.{
  ℕ, ◌+◌, ◌≤◌, String, Bool, true, false, ◌||◌, not, Option, none, some, List, ◌≡◌, refl, leb, ltb,
  arith, Bool-cases, inl, inr, subst, false≢true,
}
use sci_pegasus.Hippocampus.Tasks.{
  Breaker, Phase, running, handed_off, succeeded, failed, cancelled, Task, Runtime, Config,
}
use sci_pegasus.Hippocampus.Tasks.Budgets.{settle-budget}
use sci_pegasus.Hippocampus.Merge.{merge_now, merge_task, merge_phase, merge_summary}
use sci_pegasus.Hippocampus.Start.{
  View, idle, in_phase, view, Preparation, start, can_start, settled_meanwhile,
}
use sci_pegasus.Hippocampus.Requests.{
  Action, proceed, started, swapped, sync_fallback, durable_handoff, stopped, Answer, answered,
  merge_thrown, prepare_thrown, Wait, by_view, idle_step, begin, started_step, after_start, waited,
  after_wait, merge_step,
}

-- The loop sends the request after these answers.
abbrev pub admits : Action → Bool
admits proceed = true
admits started = true
admits swapped = true
admits stopped = true
admits sync_fallback = false
admits durable_handoff = false

abbrev pub fits : ℕ → Answer → Bool
fits limit (answered action tokens wait) = not (admits action) || leb tokens limit
fits limit (merge_thrown e) = true
fits limit (prepare_thrown e) = true

module _ {ℓ} {M : Type ℓ} where
  -- The task was finished where it had failed or was cancelled.
  abbrev pub is_unfinished : View M → Bool
  is_unfinished idle = true
  is_unfinished (in_phase running) = true
  is_unfinished (in_phase handed_off) = true
  is_unfinished (in_phase (succeeded w)) = true
  is_unfinished (in_phase (failed reason)) = false
  is_unfinished (in_phase (cancelled reason)) = false

  settled_meanwhile-budget :
      (now : ℕ) (r : Runtime M) (phase : Option (Phase M))
      → (settled_meanwhile now phase r).budget ≡ r.budget
  settled_meanwhile-budget now r none = refl
  settled_meanwhile-budget now r (some phase) = settle-budget now r phase

module _ {ℓ} {M : Type ℓ} (limit : ℕ) where
  after_start-fits :
      (e : Option String) (tokens : ℕ) (messages : List M) (r : Runtime M) (v : View M)
      → tokens ≤ limit
      → fits limit (after_start e tokens messages r v).answer ≡ true
  unfolding after_start
  after_start-fits (some e) tokens messages r v h = refl
  after_start-fits none tokens messages r idle h = ground arith
  after_start-fits none tokens messages r (in_phase phase) h = ground arith

  begin-fits :
      (b : Option Breaker) (c : Config) (now : ℕ) (p : Preparation M) (messages : List M)
      (tokens : ℕ) (r : Runtime M)
      → tokens ≤ limit
      → fits limit (begin b c now p messages tokens r).answer ≡ true
  unfolding begin started_step after_start
  begin-fits (some b) c now p messages tokens r h = ground arith
  begin-fits none c now p messages tokens r h =
      let r' = start c now p messages tokens r in
      after_start-fits p.error tokens messages r' (view r'.background) h

  idle_step-fits :
      (c : Config) (now : ℕ) (p : Preparation M) (messages : List M) (tokens : ℕ) (r : Runtime M)
      → r.budget.fork_prefix_limit_tokens ≤ limit
      → fits limit (idle_step c now p messages tokens r).answer ≡ true
  unfolding idle_step
  idle_step-fits c now p messages tokens r h =
      elim (Bool-cases (ltb r.budget.fork_prefix_limit_tokens tokens)) [
        | inl e ↦ rw e refl
        | inr e ↦
            let f = can_start c r in ground (arith, begin-fits f.breaker c now p messages tokens f)
      ]

module _ {ℓ} {M : Type ℓ} (input_tokens : List M → ℕ) where
  merge_summary-fits :
      (now wait : ℕ) (w : M) (task : Task M) (messages : List M) (r : Runtime M)
      → fits r.budget.main_input_limit_tokens
          (merge_step wait messages (merge_summary input_tokens now wait w task messages r)).answer
        ≡ true
  unfolding merge_step merge_summary
  merge_summary-fits now wait w task messages r = ground arith

  merge_phase-fits :
      (now wait : ℕ) (phase : Phase M) (task : Task M) (messages : List M) (r : Runtime M)
      → fits r.budget.main_input_limit_tokens
          (merge_step wait messages
            (merge_phase input_tokens now wait phase task messages r)).answer
        ≡ true
  unfolding merge_phase merge_step
  merge_phase-fits now wait running task messages r = refl
  merge_phase-fits now wait handed_off task messages r = refl
  merge_phase-fits now wait (succeeded w) task messages r =
      merge_summary-fits now wait w task messages r
  merge_phase-fits now wait (failed reason) task messages r = refl
  merge_phase-fits now wait (cancelled reason) task messages r = refl

  merge_task-fits :
      (now wait : ℕ) (task : Option (Task M)) (messages : List M) (r : Runtime M)
      → fits r.budget.main_input_limit_tokens
          (merge_step wait messages (merge_task input_tokens now wait task messages r)).answer
        ≡ true
  unfolding merge_task merge_step
  merge_task-fits now wait none messages r = refl
  merge_task-fits now wait (some task) messages r =
      merge_phase-fits now wait task.phase task messages r

  merge_now-fits :
      (now wait : ℕ) (messages : List M) (r : Runtime M)
      → fits r.budget.main_input_limit_tokens
          (merge_step wait messages (merge_now input_tokens now wait messages r)).answer
        ≡ true
  unfolding merge_now
  merge_now-fits now wait messages r = merge_task-fits now wait r.background messages r

  after_wait-fits :
      (now wait : ℕ) (is_settled : Bool) (messages : List M) (tokens : ℕ) (r : Runtime M)
      (v : View M)
      → fits r.budget.main_input_limit_tokens
          (after_wait input_tokens now wait is_settled messages tokens r v).answer
        ≡ true
  unfolding after_wait
  after_wait-fits now wait is_settled messages tokens r idle = refl
  after_wait-fits now wait is_settled messages tokens r (in_phase running) = refl
  after_wait-fits now wait is_settled messages tokens r (in_phase handed_off) = refl
  after_wait-fits now wait true messages tokens r (in_phase (succeeded w)) =
      merge_now-fits now wait messages r
  after_wait-fits now wait false messages tokens r (in_phase (succeeded w)) = refl
  after_wait-fits now wait is_settled messages tokens r (in_phase (failed reason)) = refl
  after_wait-fits now wait is_settled messages tokens r (in_phase (cancelled reason)) = refl

  waited-fits :
      (now : ℕ) (w : Wait M) (messages : List M) (tokens : ℕ) (r : Runtime M)
      → fits r.budget.main_input_limit_tokens (waited input_tokens now w messages tokens r).answer
        ≡ true
  unfolding waited
  waited-fits now w messages tokens r =
      let after = settled_meanwhile (now + w.user_wait) w.phase r in
      subst
        (λ b.
          fits b.main_input_limit_tokens (waited input_tokens now w messages tokens r).answer
          ≡ true)
        (settled_meanwhile-budget (now + w.user_wait) r w.phase)
        (after_wait-fits (now + w.user_wait) w.user_wait w.is_settled messages tokens after
          (view after.background))

  pub by_view-fits :
      (c : Config) (now : ℕ) (w : Wait M) (p : Preparation M) (messages : List M) (tokens : ℕ)
      (r : Runtime M) (v : View M)
      → is_unfinished v ≡ true
      → r.budget.fork_prefix_limit_tokens ≤ r.budget.main_input_limit_tokens
      → r.budget.swap_tokens ≤ r.budget.main_input_limit_tokens
      → fits r.budget.main_input_limit_tokens
          (by_view input_tokens c now w p messages tokens r v).answer
        ≡ true
  unfolding by_view
  by_view-fits c now w p messages tokens r idle o fork swap =
      idle_step-fits r.budget.main_input_limit_tokens c now p messages tokens r fork
  by_view-fits c now w p messages tokens r (in_phase running) o fork swap =
      ground (arith, waited-fits now w messages tokens r)
  by_view-fits c now w p messages tokens r (in_phase handed_off) o fork swap = refl
  by_view-fits c now w p messages tokens r (in_phase (succeeded s)) o fork swap =
      ground (arith, merge_now-fits now 0 messages r)
  by_view-fits c now w p messages tokens r (in_phase (failed reason)) o fork swap =
      absurd (false≢true o)
  by_view-fits c now w p messages tokens r (in_phase (cancelled reason)) o fork swap =
      absurd (false≢true o)
