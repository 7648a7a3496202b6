-- ===== src/Hippocampus/Start.antt =====
-- lib/agent/hippocampus-runtime.ts: canStart and start.
use sci_pegasus.Common.{
  ℕ, suc, ◌+◌, String, Bool, false, ◌&&◌, Option, none, some, List, ◌∷◌, leb, length, if◌then◌else◌,
}
use sci_pegasus.Hippocampus.Tasks.{
  Breaker, rapid_refill, prefix_overflow, Phase, running, failed, Task, Runtime, Config, on_start,
  on_breaker, log, with_background, settle, cancel,
}

-- What happens while start awaits onStart.
pub record Preparation {ℓ} (M : Type ℓ) : Type ℓ where
  pub phase : Option (Phase M)
  pub error : Option String
  -- the clock afterwards
  pub ready_at : ℕ

-- The task of a runtime, if any, as its callers see it.
pub data View {ℓ} (M : Type ℓ) : Type ℓ where
  idle : View M
  in_phase : Phase M → View M

-- `turnsSinceMerge !== null && turnsSinceMerge <= 3`
abbrev pub is_rapid : Option ℕ → Bool
is_rapid none = false
is_rapid (some turns) = leb turns 3

abbrev refills_after : Option ℕ → ℕ → ℕ
refills_after none refills = refills
refills_after (some turns) refills = if leb turns 3 then suc refills else 0

module _ {ℓ} {M : Type ℓ} where
  unfoldable pub view : Option (Task M) → View M
  view none = idle
  view (some task) = in_phase task.phase

  abbrev pub set_breaker : Breaker → Runtime M → Runtime M
  set_breaker b r = record {
    budget = r.budget;
    background = r.background;
    consecutive_failures = r.consecutive_failures;
    rapid_refills = r.rapid_refills;
    turns_since_merge = r.turns_since_merge;
    breaker = some b;
    events = on_breaker b ∷ r.events;
  }

  abbrev with_refills : ℕ → Runtime M → Runtime M
  with_refills n r = record {
    budget = r.budget;
    background = r.background;
    consecutive_failures = r.consecutive_failures;
    rapid_refills = n;
    turns_since_merge = r.turns_since_merge;
    breaker = r.breaker;
    events = r.events;
  }

  abbrev may_start : Option Breaker → Config → Runtime M → Runtime M
  may_start (some b) c r = r
  may_start none c r =
      let counted = with_refills (refills_after r.turns_since_merge r.rapid_refills) r in
      if leb r.budget.trigger_tokens c.limits.static_overhead_tokens
      then set_breaker prefix_overflow r
      else if is_rapid r.turns_since_merge && leb 2 counted.rapid_refills
      then set_breaker rapid_refill counted
      else counted

  -- canStart: the runtime after it, which may start where it has no breaker
  unfoldable pub can_start : Config → Runtime M → Runtime M
  can_start c r = may_start r.breaker c r

  abbrev pub settled_meanwhile : ℕ → Option (Phase M) → Runtime M → Runtime M
  settled_meanwhile now none r = r
  settled_meanwhile now (some phase) r = settle now phase r

  -- The new task of start, with the call of onStart.
  unfoldable pub launched : Config → ℕ → List M → ℕ → Runtime M → Runtime M
  launched c now messages tokens r =
      log (on_start tokens (length messages) now (now + c.background_timeout)) (
        with_background
          (some (record {
            prefix = messages;
            splice_index = length messages;
            prefix_tokens = tokens;
            started_at = now;
            phase = running;
          }))
          r)

  abbrev pub prepared : Config → ℕ → Preparation M → Option String → Runtime M → Runtime M
  prepared c now p (some e) r = cancel p.ready_at "durable shadow prepare failed" r
  prepared c now p none r =
      if leb (now + c.background_timeout) p.ready_at
      then settle p.ready_at (failed "durable shadow takeover deadline reached before local start")
          r
      else r

  -- start up to the call of `compact`, and an error of onStart, which it throws on
  unfoldable pub start : Config → ℕ → Preparation M → List M → ℕ → Runtime M → Runtime M
  unfolding launched
  start c now p messages tokens r =
      prepared c now p p.error
        (settled_meanwhile p.ready_at p.phase (launched c now messages tokens r))
