-- ===== src/Budget/RoundTrip.antt =====
-- A reservation that is released leaves no trace in the counters.
use sci_pegasus.Common.{
  ℕ, ◌≡◌, String, ◌==◌, eq_refl, true, Option, none, some, List, [], ◌∷◌, ◌++◌, arith, inl, inr,
  Bool-cases, Option-cases,
}
use sci_pegasus.Budget.Usage.{Totals, add_usage}
use sci_pegasus.Budget.Documents.{
  Reservation, State, UsageMap, or_zero, truthy, increment, decrement_calls, adjust_at,
  adjust_scopes, find_reservation, without_reservation, is_reserved, holds,
}
use sci_pegasus.Budget.Updates.{
  ReserveInput, calls, reservation_of, reserve_filter, reserve_update, release_filter,
  release_update, state_id,
}

find-append :
    (key : String) (r : Reservation) (rs : List (String × Reservation))
    → find_reservation key rs ≡ none
    → find_reservation key (rs ++ (key, r) ∷ []) ≡ some r
unfolding find_reservation
find-append key r [] h = rw (eq_refl key)
find-append key r ((j, q) ∷ rs) h = ground (arith, find-append key r rs)

without-append :
    (key : String) (r : Reservation) (rs : List (String × Reservation))
    → find_reservation key rs ≡ none
    → without_reservation key (rs ++ (key, r) ∷ []) ≡ rs
unfolding find_reservation without_reservation
without-append key r [] h = rw (eq_refl key)
without-append key r ((j, q) ∷ rs) h = ground (arith, without-append key r rs)

-- The counters of one entry.
entry_round_trip :
    (n : ℕ) (e : Option Totals) → or_zero (decrement_calls n (increment (calls n) e)) ≡ or_zero e
unfolding increment decrement_calls add_usage
entry_round_trip n none = ground arith
entry_round_trip n (some t) = ground arith

team_round_trip :
    (n : ℕ) (t : Totals)
    → or_zero (decrement_calls n (some (or_zero (increment (calls n) (some t))))) ≡ t
unfolding increment decrement_calls add_usage
team_round_trip n t = ground arith

map_round_trip :
    (n : ℕ) (key : String) (m : UsageMap) (j : String)
    → or_zero (adjust_at (decrement_calls n) key (adjust_at (increment (calls n)) key m) j)
      ≡ or_zero (m j)
map_round_trip n key m j = elim (Bool-cases (key == j)) [
  | inl e ↦ rw (e, adjust_at) (entry_round_trip n (m j))
  | inr e ↦ rw (e, adjust_at)
]

is_free-none :
    (k : String → String) (i : ReserveInput) (s : State)
    → reserve_filter k i s ≡ true
    → find_reservation i.reservation_key s.active_reservations ≡ none
unfolding reserve_filter
is_free-none k i s h =
    elim (Option-cases (find_reservation i.reservation_key s.active_reservations)) [
      | inl e ↦ e
      | inr (r, e) ↦ ground arith
    ]

-- What a state shows of its reservations and counters.
pub record SameLedger (s t : State) : Type 0 where
  pub team : s.team_usage ≡ t.team_usage
  pub agent : (j : String) → or_zero (s.agent_usage j) ≡ or_zero (t.agent_usage j)
  pub task : (j : String) → or_zero (s.task_usage j) ≡ or_zero (t.task_usage j)
  pub reservations : s.active_reservations ≡ t.active_reservations

reserve_filter-state :
    (k : String → String) (i : ReserveInput) (s : State)
    → reserve_filter k i s ≡ true
    → (s.budget_state_id == state_id k i.context.team_id) ≡ true
unfolding reserve_filter
reserve_filter-state k i s h = ground arith

holds_self :
    (key : String) (s : State) (r : Reservation)
    → find_reservation key s.active_reservations ≡ some r
    → is_reserved r.status ≡ true
    → holds key r.admission_id r.attempt is_reserved s ≡ true
unfolding holds
holds_self key s r e st = ground (arith, eq_refl r.admission_id)

-- A reservation that passes its filter is found in the state that it leaves, may be released there, and the release
-- restores every counter of the team, the agents and the tasks, and the list of reservations.
pub reserve_release :
    (k : String → String) (i : ReserveInput) (now : ℕ) (s : State)
    → reserve_filter k i s ≡ true
    → (find_reservation i.reservation_key (reserve_update k i now s).active_reservations
        ≡ some (reservation_of i now))
      × (release_filter k i.context.team_id i.reservation_key
            (reservation_of i now)
            (reserve_update k i now s)
          ≡ true)
      × SameLedger
          (release_update k i.reservation_key (reservation_of i now) (reserve_update k i now s))
          s
unfolding reserve_update release_update adjust_scopes reservation_of release_filter
reserve_release k i now s h =
    let free = is_free-none k i s h in
    let found = find-append i.reservation_key (reservation_of i now) s.active_reservations free in
    (
      found,
      ground (
        arith,
        reserve_filter-state k i s h,
        holds_self i.reservation_key (reserve_update k i now s) (reservation_of i now) found,
      ),
      record {
        team = team_round_trip i.reserved_tool_calls s.team_usage;
        agent = map_round_trip i.reserved_tool_calls (k i.context.agent_id) s.agent_usage;
        task = λ j. elim (Option-cases (truthy i.context.task_id)) [
          | inl e ↦ rw e
          | inr (id, e) ↦ rw e (map_round_trip i.reserved_tool_calls (k id) s.task_usage j)
        ];
        reservations =
            without-append i.reservation_key (reservation_of i now) s.active_reservations free;
      },
    )
