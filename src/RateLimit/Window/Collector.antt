-- ===== src/RateLimit/Window/Collector.antt =====
-- The collector, which runs at any time.
use sci_pegasus.Common.{
  ℕ, ◌≤◌, ◌≡◌, refl, ap, ◌∙◌, String, Option, none, some, List, [], ◌∷◌, length, leb, Bool-cases,
  inl, inr,
}
use sci_pegasus.RateLimit.Window.{
  Store, CheckResult, events, events-put_self, or_empty, prune, day_ms, collect, collect_entry,
  record_and_check,
}
use sci_pegasus.RateLimit.Window.Bound.{prune-prune}

or_empty-collect_entry :
    (now : ℕ) (o : Option (List ℕ)) → or_empty (collect_entry now o) ≡ prune day_ms now (or_empty o)
unfolding collect_entry
or_empty-collect_entry now none = refl
or_empty-collect_entry now (some ts) = kept (prune day_ms now ts)
  where
    kept : (us : List ℕ) → or_empty (elim us [ [] ↦ none | t ∷ rest ↦ some (t ∷ rest) ]) ≡ us
    kept [] = refl
    kept (t ∷ us) = refl

events-collect :
    (now : ℕ) (s : Store) (key : String)
    → events (collect now s) key ≡ prune day_ms now (events s key)
unfolding events collect
events-collect now s key = or_empty-collect_entry now (s key)

-- What a check answers and leaves under its key depends on the pruned window alone.
pub record SameCheck (key : String) (a b : CheckResult × Store) : Type 0 where
  pub answer : a.0 ≡ b.0
  pub window : events a.1 key ≡ events b.1 key

same_pruned :
    (key : String) (window limit now : ℕ) (s t : Store)
    → prune window now (events s key) ≡ prune window now (events t key)
    → SameCheck key
        (record_and_check now key window limit s)
        (record_and_check now key window limit t)
unfolding record_and_check
same_pruned key window limit now s t h =
    elim (Bool-cases (leb limit (length (prune window now (events t key))))) [
      | inl full ↦
          rw (h, full)
            (record { answer = refl; window = rw (events-put_self s, events-put_self t) refl })
      | inr room ↦
          rw (h, room)
            (record { answer = refl; window = rw (events-put_self s, events-put_self t) refl })
    ]

-- A collection that has run before a check of a window of at most a day changes neither the answer of
-- the check nor the events that it leaves under its key.
pub collect-SameCheck :
    (s : Store) (key : String) (window limit now later : ℕ)
    → window ≤ day_ms
    → now ≤ later
    → SameCheck key
        (record_and_check later key window limit (collect now s))
        (record_and_check later key window limit s)
collect-SameCheck s key window limit now later w h =
    same_pruned key window limit later (collect now s) s (
      ap (prune window later) (events-collect now s key)
      ∙ prune-prune day_ms window now later (events s key) w h)
