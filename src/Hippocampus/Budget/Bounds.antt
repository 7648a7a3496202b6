-- ===== src/Hippocampus/Budget/Bounds.antt =====
-- The order of the boundaries of a budget.
use sci_pegasus.Common.{◌+◌, ◌-◌, ◌≤◌, ◌<◌, ◌≡◌, arith, Bool-cases, inl, inr}
use sci_pegasus.Hippocampus.Budget.{
  Limits, Timing, Budget, Pace, budget, pace_of, are_positive, budget_of, resolve_budget,
}

-- Every boundary leaves room for what is admitted at it.
pub record IsSound (b : Budget) : Type 0 where
  pub above_static : b.static_tokens < b.trigger_tokens
  pub trigger_below_swap : b.trigger_tokens < b.swap_tokens
  pub gate_at_most_trigger : b.observation_gate_tokens ≤ b.trigger_tokens
  pub gate_at_most_fork : b.observation_gate_tokens ≤ b.fork_prefix_limit_tokens
  pub fork_at_most_swap : b.fork_prefix_limit_tokens ≤ b.swap_tokens
  -- a request at the swap line has room for the response
  pub output_fits : b.swap_tokens + b.main_max_output_tokens ≤ b.context_window
  -- a fork of the prefix has room for its instructions and for the summary
  pub fork_fits :
      b.fork_prefix_limit_tokens + b.fork_instruction_tokens + b.summary_max_tokens
      ≤ b.context_window
  pub limit_is : b.main_input_limit_tokens ≡ b.context_window - b.main_max_output_tokens

budget_of-IsSound : (c : Limits) (p : Pace) (b : Budget) → budget_of c p ≡ budget b → IsSound b
unfolding budget_of
budget_of-IsSound c p b h = record {
  above_static = ground arith;
  trigger_below_swap = ground arith;
  gate_at_most_trigger = ground arith;
  gate_at_most_fork = ground arith;
  fork_at_most_swap = ground arith;
  output_fits = ground arith;
  fork_fits = ground arith;
  limit_is = ground arith;
}

-- A budget that is resolved, whatever the limits and the timing, has its boundaries in order: the static
-- prefix lies below the trigger and the trigger below the swap line, a request at the swap line leaves
-- room for the main output, and a fork at its limit leaves room for its instructions and the summary.
pub resolve_budget-IsSound :
    (c : Limits) (t : Timing) (b : Budget) → resolve_budget c t ≡ budget b → IsSound b
unfolding resolve_budget
resolve_budget-IsSound c t b h = elim (Bool-cases (are_positive c t)) [
  | inl e ↦ budget_of-IsSound c (pace_of c t) b (rw e at h)
  | inr e ↦ absurd (ground arith)
]

-- A budget that comes of some timing.
pub record IsBudgetFor (c : Limits) (b : Budget) : Type 0 where
  pub timing : Timing
  pub is_resolved : resolve_budget c timing ≡ budget b

budget_of-limits :
    (c : Limits) (p : Pace) (b : Budget)
    → budget_of c p ≡ budget b
    → b.swap_tokens + c.main_max_output_tokens ≤ c.context_window
unfolding budget_of
budget_of-limits c p b h = ground arith

budget_of-input_limit :
    (c : Limits) (p : Pace) (b : Budget)
    → budget_of c p ≡ budget b
    → b.main_input_limit_tokens ≡ c.context_window - c.main_max_output_tokens
unfolding budget_of
budget_of-input_limit c p b h = ground arith

-- The room that a budget leaves, in the limits of its configuration.
pub record HasRoom (c : Limits) (b : Budget) : Type 0 where
  pub is_sound : IsSound b
  pub swap_fits : b.swap_tokens + c.main_max_output_tokens ≤ c.context_window
  pub input_limit : b.main_input_limit_tokens ≡ c.context_window - c.main_max_output_tokens

pub IsBudgetFor-HasRoom : (c : Limits) (b : Budget) → IsBudgetFor c b → HasRoom c b
unfolding resolve_budget
IsBudgetFor-HasRoom c b f =
    let t = f.timing in
    let h = f.is_resolved in
    elim (Bool-cases (are_positive c t)) [
      | inl e ↦
          let g = rw e at h in
          record {
            is_sound = resolve_budget-IsSound c t b h;
            swap_fits = budget_of-limits c (pace_of c t) b g;
            input_limit = budget_of-input_limit c (pace_of c t) b g;
          }
      | inr e ↦ absurd (ground arith)
    ]
