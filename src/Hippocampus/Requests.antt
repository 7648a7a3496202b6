-- ===== src/Hippocampus/Requests.antt =====
-- lib/agent/hippocampus-runtime.ts: beforeRequest, whose promises' results are arguments.
pub mod Headroom
pub mod Admitted
pub mod Fallback
use sci_pegasus.Common.{
  ℕ, suc, ◌+◌, String, Bool, true, false, ◌&&◌, ◌||◌, not, Option, none, some, List, [], ◌∷◌, leb,
  ltb, length, if◌then◌else◌,
}
use sci_pegasus.Common.Fractions.{whole, plus, fraction_leb}
use sci_pegasus.Hippocampus.Budget.{Timing, Budget, Resolved, budget, resolve_budget}
use sci_pegasus.Hippocampus.Budget as B
use sci_pegasus.Hippocampus.Tasks.{
  Breaker, Phase, running, handed_off, succeeded, failed, cancelled, Task, Runtime, Config, settle,
  cancel, finish_failed, finish_cancelled,
}
use sci_pegasus.Hippocampus.Merge.{Merged, replaced, refused, MergeError, merge_now}
use sci_pegasus.Hippocampus.Start.{
  View, idle, in_phase, view, Preparation, start, can_start, settled_meanwhile,
}

-- BeforeRequestAction
pub data Action : Type 0 where
  proceed started swapped sync_fallback durable_handoff stopped : Action

-- BeforeRequestResult, or what is thrown
pub data Answer : Type 0 where
  answered : Action → (tokens user_wait : ℕ) → Answer
  merge_thrown : MergeError → Answer
  prepare_thrown : (message : String) → Answer

pub record Step {ℓ} (M : Type ℓ) : Type ℓ where
  pub runtime : Runtime M
  pub messages : List M
  pub answer : Answer

-- What happens while beforeRequest waits for the task: how the task settles, if it does, whether that
-- ends the wait, and how long it takes.
pub record Wait {ℓ} (M : Type ℓ) : Type ℓ where
  pub phase : Option (Phase M)
  pub is_settled : Bool
  pub user_wait : ℕ

abbrev pub resolved_or : Budget → Resolved → Budget
resolved_or b (budget new) = new
resolved_or b (B.refused reason) = b

abbrev one_more : Option ℕ → Option ℕ
one_more none = none
one_more (some turns) = some (suc turns)

-- gateOpen && (tokens >= triggerTokens || nextTurnCrosses)
unfoldable pub is_due : Budget → ℕ → Bool
is_due b tokens =
    leb b.observation_gate_tokens tokens
    && (leb b.trigger_tokens tokens
        || fraction_leb (whole b.trigger_tokens)
            (plus (whole tokens) b.main_context_growth_tokens_per_turn))

module _ {ℓ} {M : Type ℓ} where
  abbrev pub refreshed_budget : Config → Timing → View M → Budget → Budget
  refreshed_budget c t idle b = resolved_or b (resolve_budget c.limits t)
  refreshed_budget c t (in_phase phase) b = b

  -- refreshBudget where there is no task, and the count of turns
  unfoldable pub counted_turn : Config → Timing → Runtime M → Runtime M
  unfolding view
  counted_turn c t r = record {
    budget = refreshed_budget c t (view r.background) r.budget;
    background = r.background;
    consecutive_failures = r.consecutive_failures;
    rapid_refills = r.rapid_refills;
    turns_since_merge = one_more r.turns_since_merge;
    breaker = r.breaker;
    events = r.events;
  }

  abbrev finish_view : ℕ → View M → Runtime M → Runtime M
  finish_view now idle r = r
  finish_view now (in_phase running) r = r
  finish_view now (in_phase handed_off) r = r
  finish_view now (in_phase (succeeded w)) r = r
  finish_view now (in_phase (failed reason)) r = finish_failed now 0 reason r
  finish_view now (in_phase (cancelled reason)) r = finish_cancelled now 0 reason r

  -- A task that failed or was cancelled is finished.
  unfoldable pub finished_task : ℕ → Runtime M → Runtime M
  unfolding view
  finished_task now r = finish_view now (view r.background) r

  abbrev pub answer_of : Action → ℕ → ℕ → List M → Runtime M → Step M
  answer_of action tokens wait messages r = record {
    runtime = r;
    messages = messages;
    answer = answered action tokens wait;
  }

  unfoldable pub merge_step : ℕ → List M → Merged M → Step M
  merge_step wait messages (replaced tokens new r) = answer_of swapped tokens wait new r
  merge_step wait messages (refused e r) = record {
    runtime = r;
    messages = messages;
    answer = merge_thrown e;
  }

  unfoldable pub after_start : Option String → ℕ → List M → Runtime M → View M → Step M
  after_start (some e) tokens messages r v = record {
    runtime = r;
    messages = messages;
    answer = prepare_thrown e;
  }
  after_start none tokens messages r idle = answer_of started tokens 0 messages r
  after_start none tokens messages r (in_phase running) = answer_of started tokens 0 messages r
  after_start none tokens messages r (in_phase (succeeded w)) =
      answer_of started tokens 0 messages r
  after_start none tokens messages r (in_phase handed_off) =
      answer_of durable_handoff tokens 0 messages r
  after_start none tokens messages r (in_phase (failed reason)) =
      answer_of sync_fallback tokens 0 messages r
  after_start none tokens messages r (in_phase (cancelled reason)) =
      answer_of sync_fallback tokens 0 messages r

  unfoldable pub started_step : Option String → ℕ → List M → Runtime M → Step M
  unfolding after_start view
  started_step e tokens messages r = after_start e tokens messages r (view r.background)

  unfoldable pub begin :
      Option Breaker → Config → ℕ → Preparation M → List M → ℕ → Runtime M → Step M
  unfolding start started_step
  begin (some b) c now p messages tokens r = answer_of stopped tokens 0 messages r
  begin none c now p messages tokens r =
      started_step p.error tokens messages (start c now p messages tokens r)

  unfoldable pub idle_step : Config → ℕ → Preparation M → List M → ℕ → Runtime M → Step M
  unfolding is_due begin can_start
  idle_step c now p messages tokens r =
      if ltb r.budget.fork_prefix_limit_tokens tokens
      then answer_of sync_fallback tokens 0 messages r
      else if leb c.limits.context_window tokens
      then answer_of sync_fallback tokens 0 messages r
      else if is_due r.budget tokens
      then begin (can_start c r).breaker c now p messages tokens (can_start c r)
      else answer_of proceed tokens 0 messages r

module _ {ℓ} {M : Type ℓ} (input_tokens : List M → ℕ) where
  -- What follows the wait, by the state of the task.
  unfoldable pub after_wait : ℕ → ℕ → Bool → List M → ℕ → Runtime M → View M → Step M
  unfolding merge_step
  after_wait now wait is_settled messages tokens r idle =
      answer_of sync_fallback tokens wait messages r
  after_wait now wait is_settled messages tokens r (in_phase running) =
      answer_of sync_fallback tokens wait messages
        (finish_cancelled now wait "blocking wait timeout" (cancel now "blocking wait timeout" r))
  after_wait now wait is_settled messages tokens r (in_phase handed_off) =
      answer_of sync_fallback tokens wait messages
        (finish_cancelled now wait "blocking wait timeout" r)
  after_wait now wait is_settled messages tokens r (in_phase (succeeded w)) =
      if is_settled
      then merge_step wait messages (merge_now input_tokens now wait messages r)
      else answer_of sync_fallback tokens wait messages
          (finish_cancelled now wait "blocking wait timeout" r)
  after_wait now wait is_settled messages tokens r (in_phase (failed reason)) =
      answer_of sync_fallback tokens wait messages (finish_failed now wait reason r)
  after_wait now wait is_settled messages tokens r (in_phase (cancelled reason)) =
      answer_of sync_fallback tokens wait messages
        (finish_cancelled now wait "blocking wait timeout" r)

  unfoldable pub waited : ℕ → Wait M → List M → ℕ → Runtime M → Step M
  unfolding after_wait view
  waited now w messages tokens r =
      let after = settled_meanwhile (now + w.user_wait) w.phase r in
      after_wait (now + w.user_wait) w.user_wait w.is_settled messages tokens after
        (view after.background)

  unfoldable pub by_view :
      Config → ℕ → Wait M → Preparation M → List M → ℕ → Runtime M → View M → Step M
  unfolding idle_step waited merge_step
  by_view c now w p messages tokens r idle = idle_step c now p messages tokens r
  by_view c now w p messages tokens r (in_phase running) =
      if leb r.budget.swap_tokens tokens
      then waited now w messages tokens r
      else answer_of proceed tokens 0 messages r
  by_view c now w p messages tokens r (in_phase handed_off) =
      answer_of durable_handoff tokens 0 messages r
  by_view c now w p messages tokens r (in_phase (succeeded s)) =
      if leb r.budget.swap_tokens tokens
      then merge_step 0 messages (merge_now input_tokens now 0 messages r)
      else answer_of proceed tokens 0 messages r
  by_view c now w p messages tokens r (in_phase (failed reason)) =
      answer_of proceed tokens 0 messages r
  by_view c now w p messages tokens r (in_phase (cancelled reason)) =
      answer_of proceed tokens 0 messages r

  -- beforeRequest; `w` is used where it waits for the task, `p` where it starts one
  unfoldable pub before_request :
      Config → Timing → ℕ → Wait M → Preparation M → List M → Runtime M → Step M
  unfolding by_view counted_turn finished_task view
  before_request c t now w p messages before =
      let r = finished_task now (counted_turn c t before) in
      by_view c now w p messages (input_tokens messages) r (view r.background)
