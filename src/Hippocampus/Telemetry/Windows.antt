-- ===== src/Hippocampus/Telemetry/Windows.antt =====
-- The windows of observations stay short, and what their values all have in common stays so.
use sci_pegasus.Common.{
  ℕ, zero, suc, ◌-◌, ◌≤◌, ◌≡◌, refl, Bool, true, Option, none, some, List, [], ◌∷◌, ◌++◌, ltb,
  select, every, drop, keep_last, length, length-keep_last-le, arith, Bool-cases, inl, inr,
}
use sci_pegasus.Common.Fractions.{Fraction, whole, is_positive, is_above_zero, is_finite}
use sci_pegasus.Hippocampus.Telemetry.{
  Telemetry, telemetry, window, push_bounded, grown_window, record_main, record_compaction,
  per_second,
}

-- A window of at most n observations, all of which pass the test.
pub record IsWindow (p : Fraction → Bool) (n : ℕ) (values : List Fraction) : Type 0 where
  pub is_short : length values ≤ n
  pub all_pass : every p values ≡ true

pub record IsKept (p : Fraction → Bool) (t : Telemetry) : Type 0 where
  pub main_tps : IsWindow p 5 t.main_tps
  pub main_outputs : IsWindow p 5 t.main_outputs
  pub input_growth : IsWindow p 5 t.input_growth
  pub compaction_durations : IsWindow p 3 t.compaction_durations
  pub compaction_tps : IsWindow p 3 t.compaction_tps

-- No observation is infinite.
pub record IsFinite (t : Telemetry) : Type 0 where
  pub main_tps : every is_finite t.main_tps ≡ true
  pub main_outputs : every is_finite t.main_outputs ≡ true
  pub input_growth : every is_finite t.input_growth ≡ true
  pub compaction_durations : every is_finite t.compaction_durations ≡ true
  pub compaction_tps : every is_finite t.compaction_tps ≡ true

module _ {ℓ} {A : Type ℓ} (p : A → Bool) where
  pub every-drop : (n : ℕ) (xs : List A) → every p xs ≡ true → every p (drop n xs) ≡ true
  every-drop zero xs h = h
  every-drop (suc n) [] h = refl
  every-drop (suc n) (x ∷ xs) h = every-drop n xs (ground arith)

  every-append_one :
      (xs : List A) (x : A) → every p xs ≡ true → p x ≡ true → every p (xs ++ x ∷ []) ≡ true
  every-append_one [] x h e = ground arith
  every-append_one (y ∷ xs) x h e = ground (arith, every-append_one xs x)

  every-select-other :
      (q : A → Bool) (xs : List A) → every p xs ≡ true → every p (select q xs) ≡ true
  every-select-other q [] h = refl
  every-select-other q (x ∷ xs) h = ground (arith, every-select-other q xs)

  every-select : (xs : List A) → every p (select p xs) ≡ true
  every-select [] = refl
  every-select (x ∷ xs) = ground (arith, every-select xs)

-- An observation of a run.
pub data Observation : Type 0 where
  main_request : (input local output duration : ℕ) → Observation
  compaction : (duration output : ℕ) → Observation

unfoldable pub observed : List Observation → Telemetry → Telemetry
observed [] t = t
observed (main_request input local output duration ∷ rest) t =
    observed rest (record_main input local output duration t)
observed (compaction duration output ∷ rest) t = observed rest (record_compaction duration output t)

-- The observations that are recorded are positive and finite.
module _ (p : Fraction → Bool) (keeps : (a : Fraction) → is_positive a ≡ true → p a ≡ true) where
  keep_last-IsWindow :
      (n : ℕ) (xs : List Fraction) → every p xs ≡ true → IsWindow p n (keep_last n xs)
  keep_last-IsWindow n xs h = record {
    is_short = length-keep_last-le n xs;
    all_pass = every-drop p (length xs - n) xs h;
  }

  push_bounded-IsWindow :
      (n : ℕ) (xs : List Fraction) (x : Fraction)
      → IsWindow p n xs
      → IsWindow p n (push_bounded xs x n)
  unfolding push_bounded
  push_bounded-IsWindow n xs x w = elim (Bool-cases (is_positive x)) [
    | inl e ↦
        rw e (keep_last-IsWindow n (xs ++ x ∷ []) (every-append_one p xs x w.all_pass (keeps x e)))
    | inr e ↦ rw e w
  ]

  grown_window-IsWindow :
      (xs : List Fraction) (previous : Option ℕ) (input : ℕ)
      → IsWindow p 5 xs
      → IsWindow p 5 (grown_window xs previous input)
  unfolding grown_window
  grown_window-IsWindow xs none input w = w
  grown_window-IsWindow xs (some before) input w = elim (Bool-cases (ltb before input)) [
    | inl e ↦ rw e (push_bounded-IsWindow 5 xs (whole (input - before)) w)
    | inr e ↦ rw e w
  ]

  record_main-IsKept :
      (t : Telemetry) (input local output duration : ℕ)
      → IsKept p t
      → IsKept p (record_main input local output duration t)
  unfolding record_main
  record_main-IsKept t input local output duration k = record {
    main_tps = elim (Bool-cases (ltb 0 duration)) [
      | inl e ↦ rw e (push_bounded-IsWindow 5 t.main_tps (per_second output duration) k.main_tps)
      | inr e ↦ rw e k.main_tps
    ];
    main_outputs = push_bounded-IsWindow 5 t.main_outputs (whole output) k.main_outputs;
    input_growth =
        grown_window-IsWindow t.input_growth t.previous_input_tokens input k.input_growth;
    compaction_durations = k.compaction_durations;
    compaction_tps = k.compaction_tps;
  }

  record_compaction-IsKept :
      (t : Telemetry) (duration output : ℕ)
      → IsKept p t
      → IsKept p (record_compaction duration output t)
  unfolding record_compaction
  record_compaction-IsKept t duration output k = elim (Bool-cases (ltb 0 duration)) [
    | inl e ↦ rw e (record {
      main_tps = k.main_tps;
      main_outputs = k.main_outputs;
      input_growth = k.input_growth;
      compaction_durations =
          push_bounded-IsWindow 3 t.compaction_durations (record { num = duration; den = 1000 })
            k.compaction_durations;
      compaction_tps = elim (Bool-cases (ltb 0 output)) [
        | inl f ↦
            rw f (
              push_bounded-IsWindow 3 t.compaction_tps (per_second output duration)
                k.compaction_tps)
        | inr f ↦ rw f k.compaction_tps
      ];
    })
    | inr e ↦ rw e k
  ]

  pub observed-IsKept :
      (seen : List Observation) (t : Telemetry) → IsKept p t → IsKept p (observed seen t)
  unfolding observed
  observed-IsKept [] t k = k
  observed-IsKept (main_request input local output duration ∷ rest) t k =
      observed-IsKept rest (record_main input local output duration t)
        (record_main-IsKept t input local output duration k)
  observed-IsKept (compaction duration output ∷ rest) t k =
      observed-IsKept rest (record_compaction duration output t)
        (record_compaction-IsKept t duration output k)

window-IsWindow : (n : ℕ) (xs : List Fraction) → IsWindow is_above_zero n (window n xs)
unfolding window
window-IsWindow n xs = record {
  is_short = length-keep_last-le n (select is_above_zero xs);
  all_pass =
      every-drop is_above_zero (length (select is_above_zero xs) - n) (select is_above_zero xs)
        (every-select is_above_zero xs);
}

-- What the constructor restores is kept within bounds, whatever was stored.
telemetry-IsKept : (t : Telemetry) → IsKept is_above_zero (telemetry t)
unfolding telemetry
telemetry-IsKept t = record {
  main_tps = window-IsWindow 5 t.main_tps;
  main_outputs = window-IsWindow 5 t.main_outputs;
  input_growth = window-IsWindow 5 t.input_growth;
  compaction_durations = window-IsWindow 3 t.compaction_durations;
  compaction_tps = window-IsWindow 3 t.compaction_tps;
}

positive_above_zero : (a : Fraction) → is_positive a ≡ true → is_above_zero a ≡ true
unfolding is_positive is_above_zero
positive_above_zero a h = ground arith

positive_finite : (a : Fraction) → is_positive a ≡ true → is_finite a ≡ true
unfolding is_positive is_finite
positive_finite a h = ground arith

-- Whatever state was stored, and whatever main requests and compactions are recorded after it is
-- restored, the windows hold at most five observations of the main loop and three of compactions, all of
-- them above 0. One that was stored as Infinity may be among them.
pub restored-IsKept :
    (stored : Telemetry) (seen : List Observation)
    → IsKept is_above_zero (observed seen (telemetry stored))
restored-IsKept stored seen =
    observed-IsKept is_above_zero positive_above_zero seen (telemetry stored)
      (telemetry-IsKept stored)

every-both :
    (xs : List Fraction)
    → every is_above_zero xs ≡ true
    → every is_finite xs ≡ true
    → every is_positive xs ≡ true
unfolding is_above_zero is_finite is_positive
every-both [] h k = refl
every-both (x ∷ xs) h k = ground (arith, every-both xs)

finite_window :
    (n : ℕ) (xs : List Fraction) → every is_finite xs ≡ true → IsWindow is_positive n (window n xs)
unfolding window
finite_window n xs h =
    keep_last-IsWindow is_positive (λ a e. e) n (select is_above_zero xs)
      (every-both (select is_above_zero xs) (every-select is_above_zero xs)
        (every-select-other is_finite is_above_zero xs h))

finite_telemetry-IsKept : (t : Telemetry) → IsFinite t → IsKept is_positive (telemetry t)
unfolding telemetry
finite_telemetry-IsKept t f = record {
  main_tps = finite_window 5 t.main_tps f.main_tps;
  main_outputs = finite_window 5 t.main_outputs f.main_outputs;
  input_growth = finite_window 5 t.input_growth f.input_growth;
  compaction_durations = finite_window 3 t.compaction_durations f.compaction_durations;
  compaction_tps = finite_window 3 t.compaction_tps f.compaction_tps;
}

-- Of a state whose values are finite, the windows stay positive and finite.
pub restored_finite-IsKept :
    (stored : Telemetry) (seen : List Observation)
    → IsFinite stored
    → IsKept is_positive (observed seen (telemetry stored))
restored_finite-IsKept stored seen f =
    observed-IsKept is_positive (λ a e. e) seen (telemetry stored)
      (finite_telemetry-IsKept stored f)
