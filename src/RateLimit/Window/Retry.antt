-- ===== src/RateLimit/Window/Retry.antt =====
-- How long a refused request has to wait.
use sci_pegasus.Common.{
  ℕ, ◌+◌, ◌≤◌, ◌<◌, not, ◌≡◌, refl, String, true, false, some, List, [], ◌∷◌, arith, length, All,
  Bool-cases, inl, inr, length-select-le, leb,
}
use sci_pegasus.RateLimit.Window.{
  Store, events, events-put_self, in_window, prune, retry_after, record_and_check,
}

-- Oldest first.
abbrev pub IsSorted : List ℕ → Type 0
IsSorted [] = Unit {0}
IsSorted (t ∷ ts) = All (λ u. t ≤ u) ts × IsSorted ts

All-prune : (P : ℕ → Type 0) (w now : ℕ) (ts : List ℕ) → All P ts → All P (prune w now ts)
All-prune P w now [] h = tt
All-prune P w now (t ∷ ts) h = ground (arith, All-prune P w now ts h.1)

prune-IsSorted : (w now : ℕ) (ts : List ℕ) → IsSorted ts → IsSorted (prune w now ts)
prune-IsSorted w now [] h = tt
prune-IsSorted w now (t ∷ ts) h =
    ground (arith, All-prune (λ u. t ≤ u) w now ts h.0, prune-IsSorted w now ts h.1)

prune_in_window : (w now : ℕ) (ts : List ℕ) → All (λ t. now < t + w) (prune w now ts)
prune_in_window w now [] = tt
prune_in_window w now (t ∷ ts) = ground (arith, prune_in_window w now ts)

-- While the oldest is in the window, all are.
prune_keeps : (w now t : ℕ) (ts : List ℕ) → now < t + w → All (λ u. t ≤ u) ts → prune w now ts ≡ ts
prune_keeps w now t [] h a = refl
prune_keeps w now t (u ∷ us) h a = ground (arith, prune_keeps w now t us h a.1)

retry_pruned :
    (w limit now later r : ℕ) (ts : List ℕ)
    → IsSorted ts
    → length ts ≤ limit
    → All (λ t. now < t + w) ts
    → leb limit (length ts) ≡ true
    → retry_after w now ts ≡ some r
    → now ≤ later
    → leb limit (length (prune w later ts)) ≡ not (leb (now + r) later)
unfolding retry_after
retry_pruned w limit now later r [] so fits live full e h = cc
retry_pruned w limit now later r (t ∷ ts) so fits live full e h =
    ground (arith, prune_keeps w later t ts, length-select-le (in_window w later) ts)

-- A refused caller that waits as long as it was told is let in, and one that asks earlier is refused:
-- on a window of at most `limit` events, oldest first, the next answer is decided by the wait alone.
pub retry_exact :
    (s : Store) (key : String) (window limit now later r : ℕ)
    → IsSorted (events s key)
    → length (events s key) ≤ limit
    → (record_and_check now key window limit s).0
      ≡ record { allowed = false; retry_after_ms = some r }
    → now ≤ later
    → (record_and_check later key window limit
        (record_and_check now key window limit s).1).0.allowed
      ≡ leb (now + r) later
unfolding record_and_check
retry_exact s key window limit now later r so fits e h =
    let pruned : List ℕ = prune window now (events s key) in
    elim (Bool-cases (leb limit (length pruned))) [
      | inl full ↦
          rw (full, events-put_self)
            (ground (
              arith,
              retry_pruned window limit now later r pruned
                  (prune-IsSorted window now (events s key) so)
                  (omega (arith, length-select-le (in_window window now) (events s key)))
                  (prune_in_window window now (events s key)) full,
            ))
      | inr room ↦ ground arith
    ]
