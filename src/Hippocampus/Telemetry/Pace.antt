-- ===== src/Hippocampus/Telemetry/Pace.antt =====
-- The timing that the observations give is one that a budget can be made of.
use sci_pegasus.Common.{
  ℕ, suc, ◌*◌, ◌-◌, ◌<◌, ◌≡◌, ◌≢◌, refl, true, List, [], ◌∷◌, every, keep_last, length, arith,
}
use native.Mathlib.Nat.{mul-pos}
use sci_pegasus.Common.Fractions.{Fraction, is_positive, fraction_max, total, plus}
use sci_pegasus.Hippocampus.Budget.{
  Limits, Pace, refused, not_positive, given_positive, are_positive, budget_of, pace_of,
  resolve_budget,
}
use sci_pegasus.Hippocampus.Telemetry.{Telemetry, telemetry, average, average_of, peak_of, profile}
use sci_pegasus.Hippocampus.Telemetry.Windows.{
  IsKept, IsFinite, Observation, observed, restored_finite-IsKept, every-drop,
}

times_positive : (a b : ℕ) → 0 < a → 0 < b → 0 < a * b
times_positive a b h k = mul-pos h k

plus-positive : (a b : Fraction) → is_positive a ≡ true → 0 < b.den → is_positive (plus a b) ≡ true
unfolding is_positive plus
plus-positive a b h k = ground (arith, times_positive a.num b.den, times_positive a.den b.den)

total-den : (values : List Fraction) → every is_positive values ≡ true → 0 < (total values).den
unfolding total plus is_positive
total-den [] h = omega arith
total-den (a ∷ values) h = ground (arith, total-den values, times_positive a.den (total values).den)

is_positive-average_of :
    (a : Fraction) (n : ℕ) → is_positive a ≡ true → is_positive (average_of a (suc n)) ≡ true
unfolding is_positive average_of
is_positive-average_of a n h = ground (arith, times_positive a.den (suc n))

average-positive :
    (values : List Fraction)
    → every is_positive values ≡ true
    → given_positive (average values) ≡ true
unfolding average average_of total
average-positive [] h = refl
average-positive (a ∷ values) h = ground (
  arith,
  plus-positive a (total values),
  total-den values,
  is_positive-average_of (plus a (total values)) (length values),
)

peak_of-positive :
    (values : List Fraction)
    → every is_positive values ≡ true
    → given_positive (peak_of values) ≡ true
unfolding peak_of fraction_max
peak_of-positive [] h = refl
peak_of-positive (a ∷ values) h = ground (arith, peak_of-positive values)

profile-are_positive :
    (c : Limits) (t : Telemetry)
    → IsKept is_positive t
    → 0 < c.context_window
    → 0 < c.main_max_output_tokens
    → 0 < c.summary_max_tokens
    → are_positive c (profile t) ≡ true
unfolding are_positive profile
profile-are_positive c t k w o r =
    let main_tps = average-positive t.main_tps k.main_tps.all_pass in
    let compaction_tps = average-positive t.compaction_tps k.compaction_tps.all_pass in
    let outputs = average-positive t.main_outputs k.main_outputs.all_pass in
    let growth =
      average-positive (keep_last 3 t.input_growth) (
        every-drop is_positive (length t.input_growth - 3) t.input_growth
          k.input_growth.all_pass) in
    let peak = peak_of-positive t.input_growth k.input_growth.all_pass in ground arith

budget_of-never_not_positive : (c : Limits) (p : Pace) → budget_of c p ≢ refused not_positive
unfolding budget_of
budget_of-never_not_positive c p h = ground arith

-- Whatever state of the telemetry with finite values was stored and whatever was observed after it was
-- restored, a budget that is made with its profile is never refused for a figure that is not positive, as long as the
-- context window and the two output limits of the configuration are positive.
pub observed-profile_accepted :
    (c : Limits) (stored : Telemetry) (seen : List Observation)
    → IsFinite stored
    → 0 < c.context_window
    → 0 < c.main_max_output_tokens
    → 0 < c.summary_max_tokens
    → resolve_budget c (profile (observed seen (telemetry stored))) ≢ refused not_positive
unfolding resolve_budget
observed-profile_accepted c stored seen f w o r h =
    let t = observed seen (telemetry stored) in
    let e = profile-are_positive c t (restored_finite-IsKept stored seen f) w o r in
    budget_of-never_not_positive c (pace_of c (profile t)) (rw e at h)
