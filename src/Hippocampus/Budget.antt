-- ===== src/Hippocampus/Budget.antt =====
-- lib/agent/hippocampus-runtime.ts: resolveHippocampusBudget. The limits are whole tokens.
pub mod Bounds
use sci_pegasus.Common.{
  ℕ, ◌+◌, ◌-◌, ◌/◌, min, max, Bool, true, false, ◌&&◌, not, Option, none, some, ltb, leb,
  if◌then◌else◌,
}
use sci_pegasus.Common.Integers.{ℤ, pos, negsuc}
use sci_pegasus.Common.Fractions.{
  Fraction, whole, is_positive, fraction_max, less, times, divided, ceiling,
}
use sci_pegasus.Team.Grants.{given_or}

-- The part of HippocampusRuntimeConfig that the budget reads.
pub record Limits : Type 0 where
  pub context_window : ℕ
  pub static_overhead_tokens : ℕ
  pub main_max_output_tokens : ℕ
  pub summary_max_tokens : ℕ
  pub fork_instruction_tokens : ℕ

-- HippocampusTimingProfile
pub record Timing : Type 0 where
  pub main_tps : Option Fraction
  pub compaction_tps : Option Fraction
  pub compaction_duration_seconds : Option Fraction
  pub main_output_tokens_per_turn : Option Fraction
  pub main_context_growth_tokens_per_turn : Option Fraction
  pub main_context_growth_peak_tokens_per_turn : Option Fraction

-- HippocampusBudget
pub record Budget : Type 0 where
  pub context_window : ℕ
  pub static_tokens : ℕ
  pub main_max_output_tokens : ℕ
  pub main_input_limit_tokens : ℕ
  pub summary_max_tokens : ℕ
  pub fork_instruction_tokens : ℕ
  pub observation_gate_tokens : ℕ
  pub fork_prefix_limit_tokens : ℕ
  pub trigger_tokens : ℕ
  pub raw_trigger_tokens : ℤ
  pub swap_tokens : ℕ
  pub boundary_margin_tokens : ℕ
  pub expected_main_turn_seconds : Fraction
  pub expected_compaction_seconds : Fraction
  pub estimated_main_turns_during_compaction : ℕ
  pub main_context_growth_tokens_per_turn : Fraction
  pub max_context_growth_tokens_at_gate : ℕ
  pub is_observation_gate_constrained : Bool

pub data Reason : Type 0 where
  not_positive input_limit fork_capacity below_gate infeasible : Reason

pub data Resolved : Type 0 where
  budget : Budget → Resolved
  refused : Reason → Resolved

-- What the timing gives. An infinite duration of the compaction is outside the model: `positive` does not
-- test the duration, only a stored Infinity can make it infinite, and the code then counts infinitely many
-- turns.
pub record Pace : Type 0 where
  pub main_seconds : Fraction
  pub compact_seconds : Fraction
  pub turns : ℕ
  pub growth : Fraction
  pub margin : ℕ
  -- Math.ceil(turns * growth)
  pub grown : ℕ

unfoldable pub pace_of : Limits → Timing → Pace
pace_of c t =
    let main_tps = given_or (whole 80) t.main_tps in
    let compaction_tps = given_or (whole 40) t.compaction_tps in
    let growth = given_or (whole 5000) t.main_context_growth_tokens_per_turn in
    let peak = fraction_max growth (given_or growth t.main_context_growth_peak_tokens_per_turn) in
    let main_seconds = divided (given_or (whole 500) t.main_output_tokens_per_turn) main_tps in
    let compact_seconds =
      given_or (divided (whole c.summary_max_tokens) compaction_tps)
        t.compaction_duration_seconds in
    let turns = max 1 (ceiling (divided compact_seconds main_seconds)) in
    record {
      main_seconds = main_seconds;
      compact_seconds = compact_seconds;
      turns = turns;
      growth = growth;
      margin = ceiling (less peak growth);
      grown = ceiling (times turns growth);
    }

abbrev pub given_positive : Option Fraction → Bool
given_positive none = true
given_positive (some a) = is_positive a

-- The calls of `positive`.
unfoldable pub are_positive : Limits → Timing → Bool
are_positive c t =
    ltb 0 c.context_window
    && ltb 0 c.main_max_output_tokens
    && ltb 0 c.summary_max_tokens
    && given_positive t.main_tps
    && given_positive t.compaction_tps
    && given_positive t.main_output_tokens_per_turn
    && given_positive t.main_context_growth_tokens_per_turn
    && given_positive t.main_context_growth_peak_tokens_per_turn

-- Math.min(B - grown, Fcapacity)
abbrev raw_trigger : ℕ → ℕ → ℕ → ℤ
raw_trigger swap grown capacity =
    if leb grown swap then pos (min (swap - grown) capacity) else negsuc (grown - swap - 1)

-- Math.max(A, Fraw), where A is not negative
abbrev from_gate : ℕ → ℤ → ℕ
from_gate gate (pos n) = max gate n
from_gate gate (negsuc n) = gate

abbrev below_int : ℤ → ℕ → Bool
below_int (pos n) gate = ltb n gate
below_int (negsuc n) gate = true

-- The boundaries and their tests. A difference that is negative in the source is 0 here, and is then
-- refused by the first or the second test, as it is there.
unfoldable pub budget_of : Limits → Pace → Resolved
budget_of c p =
    let limit = c.context_window - c.main_max_output_tokens in
    let swap = limit - p.margin in
    let capacity = min (c.context_window - c.fork_instruction_tokens - c.summary_max_tokens) swap in
    let raw = raw_trigger swap p.grown capacity in
    let gate = (limit + 1) / 2 in
    let trigger = from_gate gate raw in
    if leb limit c.static_overhead_tokens
    then refused input_limit
    else if leb capacity c.static_overhead_tokens
    then refused fork_capacity
    else if ltb capacity gate
    then refused below_gate
    else if not
        (ltb c.static_overhead_tokens trigger && ltb trigger swap && leb swap c.context_window)
    then refused infeasible
    else budget (record {
      context_window = c.context_window;
      static_tokens = c.static_overhead_tokens;
      main_max_output_tokens = c.main_max_output_tokens;
      main_input_limit_tokens = limit;
      summary_max_tokens = c.summary_max_tokens;
      fork_instruction_tokens = c.fork_instruction_tokens;
      observation_gate_tokens = gate;
      fork_prefix_limit_tokens = capacity;
      trigger_tokens = trigger;
      raw_trigger_tokens = raw;
      swap_tokens = swap;
      boundary_margin_tokens = p.margin;
      expected_main_turn_seconds = p.main_seconds;
      expected_compaction_seconds = p.compact_seconds;
      estimated_main_turns_during_compaction = p.turns;
      main_context_growth_tokens_per_turn = p.growth;
      max_context_growth_tokens_at_gate = max 1 ((swap - gate) / p.turns);
      is_observation_gate_constrained = below_int raw gate;
    })

-- resolveHippocampusBudget
unfoldable pub resolve_budget : Limits → Timing → Resolved
unfolding are_positive pace_of budget_of
resolve_budget c t = if are_positive c t then budget_of c (pace_of c t) else refused not_positive
