-- ===== src/Budget/Ceiling/Steps.antt =====
-- Every atomic write keeps the counters within their limits.
use sci_pegasus.Common.{
  ℕ, ◌≤◌, ◌≡◌, String, ◌==◌, eq_iff, Bool, true, Option, none, some, arith, inl, inr, Bool-cases,
}
use sci_pegasus.Budget.Usage.{Totals}
use sci_pegasus.Budget.Documents.{
  Context, Reservation, started, is_started, is_reserved, State, UsageMap, or_zero, increment,
  decrement_calls, adjust_at, adjust_scopes, find_reservation, without_reservation,
}
use sci_pegasus.Budget.Updates.{
  ReserveInput, calls, reserved_calls, bypasses, reservation_of, reserve_filter, reserve_update,
  start_filter, start_update, release_filter, release_update, started_filter, abandon_update,
  settle_update,
}
use sci_pegasus.Budget.Pending.{
  pending, pending-append, pending-without, pending-change, calls-increment, calls-settle,
  calls-decrement, holds-find,
}
use sci_pegasus.Budget.Ceiling.{
  AtMost, max_calls, Limits, Step, reserve, start, release, abandon, settle, Reach, here, next,
  IsWithin, gate, reserve_gates,
}

lower : (m n : ℕ) (o : Option ℕ) → m ≤ n → AtMost n o → AtMost m o
lower m n none h a = tt
lower m n (some limit) h a = omega arith

-- The counters of one agent, after an adjustment of some agent's counters.
adjust_at-AtMost :
    (f : Option Totals → Option Totals) (key j : String) (m : UsageMap) (o : Option ℕ)
    → (key ≡ j → AtMost (or_zero (f (m j))).tool_calls o)
    → AtMost (or_zero (m j)).tool_calls o
    → AtMost (or_zero (adjust_at f key m j)).tool_calls o
adjust_at-AtMost f key j m o hit same = elim (Bool-cases (key == j)) [
  | inl e ↦ rw (e, adjust_at) (hit ((eq_iff key j).0 e))
  | inr e ↦ rw (e, adjust_at) same
]

module _ (k : String → String) (l : Limits) (s : State) (w : IsWithin l s) where
  reserve-IsWithin :
      (i : ReserveInput) (now : ℕ) (prior_consumed : Bool)
      → max_calls i.budgets.team_budget ≡ l.team
      → max_calls i.budgets.agent_budget ≡ l.agent (k i.context.agent_id)
      → i.reserved_tool_calls ≡ reserved_calls i.kind prior_consumed
      → i.bypass_budget_gates ≡ bypasses i.kind prior_consumed
      → reserve_filter k i s ≡ true
      → IsWithin l (reserve_update k i now s)
  unfolding reserve_update adjust_scopes reservation_of
  reserve-IsWithin i now p et ea er eb h =
      let (gate_team, gate_agent) = reserve_gates k i s h in
      record {
        team =
            rw (calls-increment, er, ← et)
              (gate i.kind p i.budgets.team_budget s.team_usage (rw (← eb) gate_team)
                (rw et w.team));
        agent = λ key.
            adjust_at-AtMost (increment (calls i.reserved_tool_calls)) (k i.context.agent_id) key
              s.agent_usage (l.agent key)
              (λ e.
                rw (calls-increment, er, ← e, ← ea)
                  (gate i.kind p i.budgets.agent_budget
                    (or_zero (s.agent_usage (k i.context.agent_id))) (rw (← eb) gate_agent)
                    (rw ea (w.agent (k i.context.agent_id)))))
              (w.agent key);
        booked = rw (calls-increment, pending-append) (omega (arith, w.booked));
      }

  start-IsWithin :
      (c : Context) (key id : String) (attempt now : ℕ)
      → start_filter k c key id attempt s ≡ true
      → IsWithin l (start_update key now s)
  unfolding start_filter start_update
  start-IsWithin c key id attempt now h =
      let (r, e, st) = holds-find key id attempt is_reserved s (ground arith) in
      record {
        team = w.team;
        agent = w.agent;
        booked = omega (
          arith,
          w.booked,
          pending-change key (λ q. record q { status = started; started_at = some now })
              s.active_reservations r e,
        );
      }

  release-IsWithin :
      (team_id key : String) (r : Reservation)
      → find_reservation key s.active_reservations ≡ some r
      → release_filter k team_id key r s ≡ true
      → IsWithin l (release_update k key r s)
  unfolding release_filter release_update adjust_scopes
  release-IsWithin team_id key r e h =
      let (q, e', st) = holds-find key r.admission_id r.attempt is_reserved s (ground arith) in
      let live : is_reserved r.status ≡ true = ground arith in
      record {
        team = rw calls-decrement (lower _ _ l.team (omega arith) w.team);
        agent = λ j.
            adjust_at-AtMost (decrement_calls r.reserved_tool_calls) (k r.agent_id) j s.agent_usage
              (l.agent j)
              (λ _. rw calls-decrement (lower _ _ (l.agent j) (omega arith) (w.agent j)))
              (w.agent j);
        booked =
            rw calls-decrement
              (ground (arith, w.booked, live, pending-without key s.active_reservations r e));
      }

  drop-booked :
      (key : String) (r : Reservation)
      → find_reservation key s.active_reservations ≡ some r
      → pending (without_reservation key s.active_reservations) ≤ s.team_usage.tool_calls
  drop-booked key r e = omega (arith, w.booked, pending-without key s.active_reservations r e)

  abandon-IsWithin :
      (team_id key id : String) (attempt : ℕ)
      → started_filter k team_id key id attempt s ≡ true
      → IsWithin l (abandon_update key s)
  unfolding started_filter abandon_update
  abandon-IsWithin team_id key id attempt h =
      let (r, e, st) = holds-find key id attempt is_started s (ground arith) in
      record { team = w.team; agent = w.agent; booked = drop-booked key r e }

  settle-IsWithin :
      (key id : String) (attempt : ℕ) (c : Context) (delta : Totals)
      → started_filter k c.team_id key id attempt s ≡ true
      → IsWithin l (settle_update k key c delta s)
  unfolding started_filter settle_update adjust_scopes
  settle-IsWithin key id attempt c delta h =
      let (r, e, st) = holds-find key id attempt is_started s (ground arith) in
      record {
        team = rw calls-settle w.team;
        agent = λ j.
            adjust_at-AtMost (increment (record delta { tool_calls = 0 })) (k c.agent_id) j
              s.agent_usage (l.agent j) (λ _. rw calls-settle (w.agent j)) (w.agent j);
        booked = rw calls-settle (drop-booked key r e);
      }

Step-IsWithin :
    {k : String → String} {l : Limits} {s t : State} → IsWithin l s → Step k l s t → IsWithin l t
Step-IsWithin {k} {l} {s} w (reserve i now p et ea er eb h) =
    reserve-IsWithin k l s w i now p et ea er eb h
Step-IsWithin {k} {l} {s} w (start c key id attempt now h) =
    start-IsWithin k l s w c key id attempt now h
Step-IsWithin {k} {l} {s} w (release team_id key r e h) = release-IsWithin k l s w team_id key r e h
Step-IsWithin {k} {l} {s} w (abandon team_id key id attempt h) =
    abandon-IsWithin k l s w team_id key id attempt h
Step-IsWithin {k} {l} {s} w (settle key id attempt c delta h) =
    settle-IsWithin k l s w key id attempt c delta h

-- Whatever processes reserve, start, release, abandon and settle calls in any order, the tool calls of the team and
-- of every agent stay within the limits of their budgets, and the team's counter covers every reservation that may
-- still be released, if this is so at the beginning.
pub tool_call_ceiling :
    (k : String → String) (l : Limits) (s t : State) → IsWithin l s → Reach k l s t → IsWithin l t
tool_call_ceiling k l s t w here = w
tool_call_ceiling k l s t w (next {t = m} r st) = Step-IsWithin (tool_call_ceiling k l s m w r) st
