-- ===== src/Hippocampus/Telemetry.antt =====
-- lib/agent/hippocampus-runtime.ts: HippocampusTelemetry. Tokens and milliseconds are whole numbers.
pub mod Windows
pub mod Anchor
pub mod Pace
use sci_pegasus.Common.{
  ℕ, suc, ◌*◌, ◌-◌, Bool, Option, none, some, List, [], ◌∷◌, ◌++◌, ltb, select, keep_last, length,
  if◌then◌else◌,
}
use sci_pegasus.Common.Integers.{ℤ, pos, minus, add_from_zero}
use sci_pegasus.Common.Fractions.{Fraction, whole, is_positive, is_above_zero, fraction_max, total}
use sci_pegasus.Hippocampus.Budget.{Timing}

-- HippocampusTelemetryState, the state of the class
pub record Telemetry : Type 0 where
  pub main_tps : List Fraction
  pub main_outputs : List Fraction
  pub input_growth : List Fraction
  pub compaction_durations : List Fraction
  pub compaction_tps : List Fraction
  pub previous_input_tokens : Option ℕ
  pub previous_local_input_tokens : Option ℕ

-- sum / values.length
average_of : Fraction → ℕ → Fraction
average_of sum count = record { num = sum.num; den = sum.den * count }

unfoldable pub average : List Fraction → Option Fraction
unfolding average_of
average [] = none
average (a ∷ values) = some (average_of (total (a ∷ values)) (suc (length values)))

unfoldable pub push_bounded : List Fraction → Fraction → ℕ → List Fraction
push_bounded values value most =
    if is_positive value then keep_last most (values ++ value ∷ []) else values

-- values.filter(value => value > 0).slice(-most), which keeps a stored Infinity
unfoldable pub window : ℕ → List Fraction → List Fraction
window most values = keep_last most (select is_above_zero values)

-- The constructor, with an empty list for one that is not given.
unfoldable pub telemetry : Telemetry → Telemetry
unfolding window
telemetry t = record {
  main_tps = window 5 t.main_tps;
  main_outputs = window 5 t.main_outputs;
  input_growth = window 5 t.input_growth;
  compaction_durations = window 3 t.compaction_durations;
  compaction_tps = window 3 t.compaction_tps;
  previous_input_tokens = t.previous_input_tokens;
  previous_local_input_tokens = t.previous_local_input_tokens;
}

-- outputTokens / (durationMs / 1_000)
abbrev pub per_second : ℕ → ℕ → Fraction
per_second tokens duration = record { num = tokens * 1000; den = duration }

unfoldable pub grown_window : List Fraction → Option ℕ → ℕ → List Fraction
unfolding push_bounded
grown_window values none input = values
grown_window values (some previous) input =
    if ltb previous input then push_bounded values (whole (input - previous)) 5 else values

-- recordMain
unfoldable pub record_main : ℕ → ℕ → ℕ → ℕ → Telemetry → Telemetry
unfolding push_bounded grown_window
record_main input local output duration t = record {
  main_tps =
      if ltb 0 duration then push_bounded t.main_tps (per_second output duration) 5 else t.main_tps;
  main_outputs = push_bounded t.main_outputs (whole output) 5;
  input_growth = grown_window t.input_growth t.previous_input_tokens input;
  compaction_durations = t.compaction_durations;
  compaction_tps = t.compaction_tps;
  previous_input_tokens = some input;
  previous_local_input_tokens = some local;
}

-- inputTokenCorrection
unfoldable pub correction_of : Option ℕ → Option ℕ → ℤ
correction_of (some input) (some local) = minus input local
correction_of (some input) none = pos 0
correction_of none local = pos 0

unfoldable pub input_token_correction : Telemetry → ℤ
unfolding correction_of
input_token_correction t = correction_of t.previous_input_tokens t.previous_local_input_tokens

-- estimateCurrentInput
unfoldable pub estimate_current_input : ℕ → Telemetry → ℕ
unfolding input_token_correction
estimate_current_input local t = add_from_zero local (input_token_correction t)

-- recordCompaction; the output is 0 where it is not given
unfoldable pub record_compaction : ℕ → ℕ → Telemetry → Telemetry
unfolding push_bounded
record_compaction duration output t =
    if ltb 0 duration
    then record {
      main_tps = t.main_tps;
      main_outputs = t.main_outputs;
      input_growth = t.input_growth;
      compaction_durations =
          push_bounded t.compaction_durations (record { num = duration; den = 1000 }) 3;
      compaction_tps =
          if ltb 0 output
          then push_bounded t.compaction_tps (per_second output duration) 3
          else t.compaction_tps;
      previous_input_tokens = t.previous_input_tokens;
      previous_local_input_tokens = t.previous_local_input_tokens;
    }
    else t

-- Math.max(...values)
unfoldable pub peak_of : List Fraction → Option Fraction
peak_of [] = none
peak_of (a ∷ values) =
    let rest = peak_of values in elim rest [ none ↦ some a | some b ↦ some (fraction_max a b) ]

unfoldable pub profile : Telemetry → Timing
unfolding average peak_of
profile t = record {
  main_tps = average t.main_tps;
  compaction_tps = average t.compaction_tps;
  compaction_duration_seconds = average t.compaction_durations;
  main_output_tokens_per_turn = average t.main_outputs;
  main_context_growth_tokens_per_turn = average (keep_last 3 t.input_growth);
  main_context_growth_peak_tokens_per_turn = peak_of t.input_growth;
}
