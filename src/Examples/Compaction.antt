-- ===== src/Examples/Compaction.antt =====
-- Runs of the background compaction, with messages that are their tokens.
use sci_pegasus.Common.{
  ℕ, ◌+◌, true, false, none, some, List, [], ◌∷◌, ◌++◌, ◌≤◌, ◌≡◌, ◌≢◌, refl, arith,
}
use sci_pegasus.Common.Fractions.{
  whole, is_above_zero, is_finite, is_positive, fraction_max, fraction_leb, less, plus, times,
  divided, ceiling,
}
use sci_pegasus.Common.Integers.{negsuc}
use sci_pegasus.Hippocampus.Budget.{
  Limits, Timing, Budget, budget, refused, not_positive, resolve_budget, are_positive, pace_of,
  budget_of,
}
use sci_pegasus.Hippocampus.Budget.Bounds.{IsSound, IsBudgetFor, resolve_budget-IsSound}
use sci_pegasus.Hippocampus.Telemetry.{Telemetry, telemetry, profile}
use sci_pegasus.Hippocampus.Telemetry.Windows.{
  IsKept, IsFinite, Observation, main_request, compaction, observed, restored-IsKept,
}
use sci_pegasus.Hippocampus.Telemetry.Pace.{observed-profile_accepted}
use sci_pegasus.Hippocampus.Tasks.{
  consecutive_failures, running, succeeded, handed_off, failed, Task, Runtime, Config, settle,
  finish_failed,
}
use sci_pegasus.Hippocampus.Merge.{replaced, merge_now}
use sci_pegasus.Hippocampus.Start.{Preparation, launched}
use sci_pegasus.Hippocampus.Merge.Suffix.{merge_now-suffix}
use sci_pegasus.Hippocampus.Requests.{started, answered, Wait, before_request, waited}
use sci_pegasus.Hippocampus.Requests.Admitted.{before_request-headroom}
use sci_pegasus.Hippocampus.Requests.Fallback.{FallsBack, waited-FallsBack}
use sci_pegasus.Hippocampus.Exit.{Drain, on_loop_exit, abort}
use sci_pegasus.Hippocampus.Exit.Ends.{on_loop_exit-ends}
use sci_pegasus.Hippocampus.Safety.{is_guarded, starts}
use sci_pegasus.Hippocampus.Safety.Runs.{
  runtime_after, Operation, settling, request, aborting, perform, performed, performed-guarded,
  performed-broken,
}

abbrev limits : Limits
limits = record {
  context_window = 10000;
  static_overhead_tokens = 1000;
  main_max_output_tokens = 2000;
  summary_max_tokens = 1000;
  fork_instruction_tokens = 500;
}

abbrev config : Config
config = record { limits = limits; background_timeout = 120000 }

abbrev no_timing : Timing
no_timing = record {
  main_tps = none;
  compaction_tps = none;
  compaction_duration_seconds = none;
  main_output_tokens_per_turn = none;
  main_context_growth_tokens_per_turn = none;
  main_context_growth_peak_tokens_per_turn = none;
}

abbrev the_budget : Budget
the_budget = record {
  context_window = 10000;
  static_tokens = 1000;
  main_max_output_tokens = 2000;
  main_input_limit_tokens = 8000;
  summary_max_tokens = 1000;
  fork_instruction_tokens = 500;
  observation_gate_tokens = 4000;
  fork_prefix_limit_tokens = 8000;
  trigger_tokens = 4000;
  raw_trigger_tokens = negsuc 11999;
  swap_tokens = 8000;
  boundary_margin_tokens = 0;
  expected_main_turn_seconds = record { num = 500; den = 80 };
  expected_compaction_seconds = record { num = 1000; den = 40 };
  estimated_main_turns_during_compaction = 4;
  main_context_growth_tokens_per_turn = record { num = 5000; den = 1 };
  max_context_growth_tokens_at_gate = 1000;
  is_observation_gate_constrained = true;
}

budget_resolved : resolve_budget limits no_timing ≡ budget the_budget
unfolding resolve_budget are_positive pace_of budget_of is_positive fraction_max fraction_leb less
    times divided ceiling
budget_resolved = refl

resolve_budget-IsSound_example : IsSound the_budget
resolve_budget-IsSound_example = resolve_budget-IsSound limits no_timing the_budget budget_resolved

abbrev nothing_seen : Telemetry
nothing_seen = record {
  main_tps = [];
  main_outputs = [];
  input_growth = [];
  compaction_durations = [];
  compaction_tps = [];
  previous_input_tokens = none;
  previous_local_input_tokens = none;
}

abbrev seen : List Observation
seen = main_request 1200 1000 300 4000 ∷ main_request 1500 1300 200 0 ∷ compaction 9000 700 ∷ []

-- With a 0 and an Infinity among the stored outputs: the first is dropped, the second kept.
abbrev infinite_output : Telemetry
infinite_output = record nothing_seen {
  main_outputs = whole 0 ∷ record { num = 1; den = 0 } ∷ whole 400 ∷ [];
}

infinite_output_kept :
    (telemetry infinite_output).main_outputs ≡ record { num = 1; den = 0 } ∷ whole 400 ∷ []
unfolding telemetry is_above_zero
infinite_output_kept = refl

restored-IsKept_example : IsKept is_above_zero (observed seen (telemetry infinite_output))
restored-IsKept_example = restored-IsKept infinite_output seen

abbrev seen_before : Telemetry
seen_before = record nothing_seen { main_outputs = whole 0 ∷ whole 400 ∷ [] }

seen_before-IsFinite : IsFinite seen_before
unfolding is_finite
seen_before-IsFinite = record {
  main_tps = refl;
  main_outputs = refl;
  input_growth = refl;
  compaction_durations = refl;
  compaction_tps = refl;
}

observed-profile_accepted_example :
    resolve_budget limits (profile (observed seen (telemetry seen_before))) ≢ refused not_positive
observed-profile_accepted_example =
    observed-profile_accepted limits seen_before seen seen_before-IsFinite (omega arith)
      (omega arith) (omega arith)

abbrev sum : List ℕ → ℕ
sum [] = 1000
sum (m ∷ messages) = m + sum messages

abbrev fresh : Runtime ℕ
fresh = record {
  budget = the_budget;
  background = none;
  consecutive_failures = 0;
  rapid_refills = 0;
  turns_since_merge = none;
  breaker = none;
  events = [];
}

abbrev no_wait : Wait ℕ
no_wait = record { phase = none; is_settled = false; user_wait = 0 }

abbrev prepared_at_once : Preparation ℕ
prepared_at_once = record { phase = none; error = none; ready_at = 50 }

started_answer :
    (before_request sum config no_timing 40 no_wait prepared_at_once
      (2000 ∷ 2500 ∷ [])
      fresh).answer
    ≡ answered started 5500 0
unfolding before_request resolve_budget are_positive pace_of budget_of is_positive fraction_max
    fraction_leb less times divided ceiling plus
started_answer = refl

budget_is_resolved : IsBudgetFor limits the_budget
budget_is_resolved = record { timing = no_timing; is_resolved = budget_resolved }

before_request-headroom_example : 5500 + 2000 ≤ 10000
before_request-headroom_example =
    before_request-headroom sum config no_timing 40 no_wait prepared_at_once (2000 ∷ 2500 ∷ [])
      fresh started 5500 0 budget_is_resolved started_answer refl

-- The next request arrives with the swap line crossed and a summary that is ready.
merge_now-suffix_example :
    (after : Runtime ℕ) × (merge_now sum 90 0
        ((2000 ∷ 2500 ∷ []) ++ (3000 ∷ []))
        (settle 80 (succeeded 400) (launched config 40 (2000 ∷ 2500 ∷ []) 5500 fresh))
      ≡ replaced (sum (400 ∷ 3000 ∷ [])) (400 ∷ 3000 ∷ []) after)
    × (after.background ≡ none)
    × (after.consecutive_failures ≡ 0)
    × (after.turns_since_merge ≡ some 0)
merge_now-suffix_example =
    merge_now-suffix sum config 40 80 90 0 5500 (2000 ∷ 2500 ∷ []) (3000 ∷ []) 400 fresh
      (omega arith) (omega arith)

abbrev running_task : Task ℕ
running_task = record {
  prefix = 2000 ∷ 2500 ∷ [];
  splice_index = 2;
  prefix_tokens = 5500;
  started_at = 40;
  phase = running;
}

abbrev busy : Runtime ℕ
busy = record {
  budget = the_budget;
  background = some running_task;
  consecutive_failures = 2;
  rapid_refills = 0;
  turns_since_merge = none;
  breaker = none;
  events = [];
}

-- The task is handed off while the request waits for it.
abbrev handed_meanwhile : Wait ℕ
handed_meanwhile = record { phase = some handed_off; is_settled = true; user_wait = 700 }

waited-FallsBack_example :
    FallsBack 8500 700
      (2000 ∷ 2500 ∷ 3000 ∷ [])
      (waited sum 900 handed_meanwhile (2000 ∷ 2500 ∷ 3000 ∷ []) 8500 busy)
waited-FallsBack_example =
    waited-FallsBack sum 900 handed_meanwhile (2000 ∷ 2500 ∷ 3000 ∷ []) 8500 busy running_task refl
      refl refl

abbrev drained : Drain ℕ
drained = record { is_accepted = false; during_handoff = none; drained = failed "timeout" }

on_loop_exit-ends_example :
    (runtime_after (on_loop_exit sum 900 drained (2000 ∷ 2500 ∷ 3000 ∷ []) busy)).background ≡ none
on_loop_exit-ends_example =
    on_loop_exit-ends sum 900 drained (2000 ∷ 2500 ∷ 3000 ∷ []) busy refl refl

abbrev life : List (Operation ℕ)
life =
    settling 500 (failed "provider")
    ∷ request no_timing 900 no_wait prepared_at_once (2000 ∷ 2500 ∷ 3000 ∷ [])
    ∷ aborting 950 "stop"
    ∷ []

busy_guarded : is_guarded busy ≡ true
unfolding is_guarded
busy_guarded = refl

performed-guarded_example : is_guarded (performed sum config life busy) ≡ true
performed-guarded_example = performed-guarded sum config life busy busy_guarded

-- Here the life above sets the breaker.
life_breaks : (performed sum config life busy).breaker ≡ some consecutive_failures
unfolding performed perform abort before_request settle finish_failed
life_breaks = refl

abbrev broken : Runtime ℕ
broken = performed sum config life busy

performed-broken_example :
    ((performed sum config life broken).breaker ≡ some consecutive_failures)
    × (starts (performed sum config life broken).events ≡ starts broken.events)
performed-broken_example = performed-broken sum config life broken consecutive_failures life_breaks
