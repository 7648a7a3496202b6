-- ===== src/RateLimit/Window.antt =====
-- lib/rate-limit/sliding-window.ts. Times are Date.now() in milliseconds, an argument of each call.
pub mod Bound
pub mod Collector
pub mod Retry
use sci_pegasus.Common.{
  ℕ, ◌+◌, ◌-◌, ◌*◌, max, String, ◌==◌, eq_refl, ◌≡◌, refl, Bool, true, false, Option, none, some,
  List, [], ◌∷◌, ◌++◌, length, select, ltb, leb, if◌then◌else◌,
}

-- The Map from a key to the timestamps of its events, oldest first.
abbrev pub Store : Type 0
Store = String → Option (List ℕ)

-- `none` for the wait is NaN, which the source computes from an empty window.
pub record CheckResult : Type 0 where
  pub allowed : Bool
  pub retry_after_ms : Option ℕ

abbrev or_empty : Option (List ℕ) → List ℕ
or_empty none = []
or_empty (some ts) = ts

-- store.get(key) ?? []
unfoldable pub events : Store → String → List ℕ
events s key = or_empty (s key)

unfoldable pub put : Store → String → List ℕ → Store
put s key ts k = if key == k then some ts else s k

or_empty-if :
    (b : Bool) (ts : List ℕ) (o : Option (List ℕ))
    → or_empty (if b then some ts else o) ≡ (if b then ts else or_empty o)
or_empty-if true ts o = refl
or_empty-if false ts o = refl

pub events-put :
    (s : Store) (key k : String) (ts : List ℕ)
    → events (put s key ts) k ≡ (if key == k then ts else events s k)
unfolding events put
events-put s key k ts = or_empty-if (key == k) ts (s k)

pub events-put_self : (s : Store) (key : String) (ts : List ℕ) → events (put s key ts) key ≡ ts
events-put_self s key ts = simp (events-put, eq_refl)

-- t > now - windowMs, with no subtraction.
abbrev pub in_window : ℕ → ℕ → ℕ → Bool
in_window window now t = ltb now (t + window)

abbrev pub prune : ℕ → ℕ → List ℕ → List ℕ
prune window now = select (in_window window now)

-- Math.max(1, oldest + windowMs - now)
unfoldable pub retry_after : ℕ → ℕ → List ℕ → Option ℕ
retry_after window now [] = none
retry_after window now (oldest ∷ ts) = some (max 1 (oldest + window - now))

abbrev pub pass : CheckResult
pass = record { allowed = true; retry_after_ms = some 0 }

abbrev refuse : ℕ → ℕ → List ℕ → CheckResult
refuse window now ts = record { allowed = false; retry_after_ms = retry_after window now ts }

unfoldable pub record_and_check : ℕ → String → ℕ → ℕ → Store → CheckResult × Store
record_and_check now key window limit s =
    let pruned = prune window now (events s key) in
    if leb limit (length pruned)
    then (refuse window now pruned, put s key pruned)
    else (pass, put s key (pruned ++ now ∷ []))

-- The write-back of a peek: the pruned list, where it is shorter.
unfoldable pub refresh : ℕ → String → ℕ → Store → Store
refresh now key window s =
    let pruned = prune window now (events s key) in
    if ltb (length pruned) (length (events s key)) then put s key pruned else s

unfoldable pub peek : ℕ → String → ℕ → ℕ → Store → CheckResult × Store
peek now key window limit s =
    let pruned = prune window now (events s key) in
    let s' = refresh now key window s in
    if leb limit (length pruned) then (refuse window now pruned, s') else (pass, s')

unfoldable pub record_event : ℕ → String → Store → Store
record_event now key s = put s key (events s key ++ now ∷ [])

abbrev pub day_ms : ℕ
day_ms = 24 * 60 * 60 * 1000

-- One pass of the collector over an entry: the entry is deleted when nothing is left.
collect_entry : ℕ → Option (List ℕ) → Option (List ℕ)
collect_entry now none = none
collect_entry now (some ts) = elim (prune day_ms now ts) [ [] ↦ none | t ∷ rest ↦ some (t ∷ rest) ]

unfoldable pub collect : ℕ → Store → Store
unfolding collect_entry
collect now s = λ key. collect_entry now (s key)
