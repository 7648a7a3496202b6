-- ===== src/Hippocampus/Requests/Admitted.antt =====
-- What an answer of beforeRequest that lets the loop go on promises.
use sci_pegasus.Common.{ℕ, ◌+◌, ◌-◌, ◌≤◌, true, List, ◌≡◌, refl, sym, arith, subst}
use sci_pegasus.Hippocampus.Budget.{
  Limits, Timing, Budget, Resolved, budget, refused, resolve_budget,
}
use sci_pegasus.Hippocampus.Budget.Bounds.{IsBudgetFor, HasRoom, IsBudgetFor-HasRoom}
use sci_pegasus.Hippocampus.Tasks.{Runtime, Config, finish_failed, finish_cancelled}
use sci_pegasus.Hippocampus.Start.{View, idle, in_phase, view, Preparation}
use sci_pegasus.Hippocampus.Requests.{
  Action, answered, Wait, before_request, finished_task, counted_turn, resolved_or,
  refreshed_budget,
}
use sci_pegasus.Hippocampus.Requests.Headroom.{admits, fits, is_unfinished, by_view-fits}

resolved_or-IsBudgetFor :
    (c : Limits) (t : Timing) (b : Budget) (new : Resolved)
    → resolve_budget c t ≡ new
    → IsBudgetFor c b
    → IsBudgetFor c (resolved_or b new)
resolved_or-IsBudgetFor c t b (budget new) e f = record { timing = t; is_resolved = e }
resolved_or-IsBudgetFor c t b (refused reason) e f = f

HasRoom-swap : (c : Limits) (b : Budget) → HasRoom c b → b.swap_tokens ≤ b.main_input_limit_tokens
HasRoom-swap c b room = omega (arith, room.swap_fits, room.input_limit)

HasRoom-fork :
    (c : Limits) (b : Budget) → HasRoom c b → b.fork_prefix_limit_tokens ≤ b.main_input_limit_tokens
HasRoom-fork c b room =
    let sound = room.is_sound in omega (arith, HasRoom-swap c b room, sound.fork_at_most_swap)

module _ {ℓ} {M : Type ℓ} where
  finished_task-budget : (now : ℕ) (r : Runtime M) → (finished_task now r).budget ≡ r.budget
  unfolding finished_task finish_failed finish_cancelled
  finished_task-budget now r = ground arith

  finished_task-open :
      (now : ℕ) (r : Runtime M) → is_unfinished (view (finished_task now r).background) ≡ true
  unfolding finished_task finish_failed finish_cancelled view
  finished_task-open now r = ground arith

  refreshed_budget-IsBudgetFor :
      (c : Config) (t : Timing) (v : View M) (b : Budget)
      → IsBudgetFor c.limits b
      → IsBudgetFor c.limits (refreshed_budget c t v b)
  refreshed_budget-IsBudgetFor c t idle b f =
      resolved_or-IsBudgetFor c.limits t b (resolve_budget c.limits t) refl f
  refreshed_budget-IsBudgetFor c t (in_phase phase) b f = f

  pub counted_turn-IsBudgetFor :
      (c : Config) (t : Timing) (r : Runtime M)
      → IsBudgetFor c.limits r.budget
      → IsBudgetFor c.limits (counted_turn c t r).budget
  unfolding counted_turn
  counted_turn-IsBudgetFor c t r f = refreshed_budget-IsBudgetFor c t (view r.background) r.budget f

  before_request-fits :
      (input_tokens : List M → ℕ) (c : Config) (t : Timing) (now : ℕ) (w : Wait M)
      (p : Preparation M) (messages : List M) (before : Runtime M)
      → HasRoom c.limits (counted_turn c t before).budget
      → fits
          (c.limits.context_window - c.limits.main_max_output_tokens)
          (before_request input_tokens c t now w p messages before).answer
        ≡ true
  unfolding before_request
  before_request-fits input_tokens c t now w p messages before room =
      let counted = counted_turn c t before in
      let r = finished_task now counted in
      let kept = finished_task-budget now counted in
      let at_counted : HasRoom c.limits r.budget =
        subst (λ b. HasRoom c.limits b) (sym kept) room in
      subst
        (λ limit.
          fits limit (before_request input_tokens c t now w p messages before).answer ≡ true)
        at_counted.input_limit
        (by_view-fits input_tokens c now w p messages (input_tokens messages) r (view r.background)
          (finished_task-open now counted) (HasRoom-fork c.limits r.budget at_counted)
          (HasRoom-swap c.limits r.budget at_counted))

-- Whatever the task does meanwhile, and whatever the timing, an answer of beforeRequest after which the
-- loop sends the request (`none`, `started`, `merged` and `breaker` in the code) leaves room for the main
-- output: the input tokens it reports and the configured output together are within the context window.
-- The budget before is one that was resolved from the same configuration.
pub before_request-headroom {ℓ} :
    {M : Type ℓ} (input_tokens : List M → ℕ) (c : Config) (t : Timing) (now : ℕ) (w : Wait M)
    (p : Preparation M) (messages : List M) (before : Runtime M) (action : Action) (tokens wait : ℕ)
    → IsBudgetFor c.limits before.budget
    → (before_request input_tokens c t now w p messages before).answer ≡ answered action tokens wait
    → admits action ≡ true
    → tokens + c.limits.main_max_output_tokens ≤ c.limits.context_window
before_request-headroom input_tokens c t now w p messages before action tokens wait f h a =
    let room =
      IsBudgetFor-HasRoom c.limits (counted_turn c t before).budget
        (counted_turn-IsBudgetFor c t before f) in
    let swap = room.swap_fits in
    let g = rw h at (before_request-fits input_tokens c t now w p messages before room) in
    ground arith
