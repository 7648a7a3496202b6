-- ===== src/Hippocampus/Restart.antt =====
-- lib/agent/hippocampus-runtime.ts: the constructor of HippocampusRuntime and safetySnapshot.
use sci_pegasus.Common.{ℕ, Option, none, some, [], ◌≡◌, ap, sym, arith}
use sci_pegasus.Hippocampus.Budget.{Timing, Resolved, budget, refused, resolve_budget}
use sci_pegasus.Hippocampus.Tasks.{Breaker, Runtime, Config}

-- HippocampusSafetyState
pub record SafetyState : Type 0 where
  pub consecutive_failures : ℕ
  pub rapid_refills : ℕ
  pub turns_since_merge : Option ℕ
  pub breaker : Option Breaker

module _ {ℓ} {M : Type ℓ} where
  unfoldable pub with_budget : SafetyState → Resolved → Option (Runtime M)
  with_budget s (budget b) = some (record {
    budget = b;
    background = none;
    consecutive_failures = s.consecutive_failures;
    rapid_refills = s.rapid_refills;
    turns_since_merge = s.turns_since_merge;
    breaker = s.breaker;
    events = [];
  })
  with_budget s (refused reason) = none

  -- The constructor; `none` where it throws.
  unfoldable pub constructed : Config → Timing → SafetyState → Option (Runtime M)
  unfolding with_budget
  constructed c t s = with_budget s (resolve_budget c.limits t)

  unfoldable pub safety_snapshot : Runtime M → SafetyState
  safety_snapshot r = record {
    consecutive_failures = r.consecutive_failures;
    rapid_refills = r.rapid_refills;
    turns_since_merge = r.turns_since_merge;
    breaker = r.breaker;
  }

  with_budget-snapshot :
      (s : SafetyState) (resolved : Resolved) (r : Runtime M)
      → with_budget s resolved ≡ some r
      → safety_snapshot r ≡ s
  unfolding with_budget safety_snapshot
  with_budget-snapshot s (budget b) r h =
      ap (λ o. elim o [ none ↦ s | some x ↦ safety_snapshot x ]) (sym h)
  with_budget-snapshot s (refused reason) r h = absurd (ground arith)

  -- A runtime that is constructed from a snapshot has that snapshot again.
  safety_snapshot-constructed :
      (c : Config) (t : Timing) (s : SafetyState) (r : Runtime M)
      → constructed c t s ≡ some r
      → safety_snapshot r ≡ s
  unfolding constructed
  safety_snapshot-constructed c t s r h = with_budget-snapshot s (resolve_budget c.limits t) r h
