-- ===== src/Budget/Boundary.antt =====
-- The start of a call: the boundary after which its reservation is consumed.
use sci_pegasus.Common.{
  ℕ, ◌≡◌, refl, String, ◌==◌, true, false, ◌&&◌, some, List, [], ◌∷◌, arith, Option-cases, inl, inr,
  eqb,
}
use sci_pegasus.Budget.Documents.{
  Context, Reservation, started, is_reserved, State, find_reservation, change_reservation, holds,
}
use sci_pegasus.Budget.Updates.{start_filter, start_update, release_filter, started_filter}

find-change :
    (key : String) (f : Reservation → Reservation) (rs : List (String × Reservation))
    (r : Reservation)
    → find_reservation key rs ≡ some r
    → find_reservation key (change_reservation key f rs) ≡ some (f r)
unfolding find_reservation change_reservation
find-change key f [] r h = absurd (ground arith)
find-change key f ((j, q) ∷ rs) r h = ground (arith, find-change key f rs r)

-- What a filter on a reservation says of the one it found.
holds-fields :
    (key id : String) (attempt : ℕ) (s : State)
    → holds key id attempt is_reserved s ≡ true
    → (r : Reservation) × (find_reservation key s.active_reservations ≡ some r)
      × (((r.admission_id == id) && eqb r.attempt attempt) ≡ true)
unfolding holds
holds-fields key id attempt s h = elim (Option-cases (find_reservation key s.active_reservations)) [
  | inl e ↦ absurd (ground arith)
  | inr (r, e) ↦ (r, e, ground arith)
]

-- The start of a call that passes its filter leaves a state in which no release of its reservation
-- passes the filter of a release, for any team and any copy of the reservation, in which the
-- call may be settled or abandoned, and in which no counter has changed.
pub start_boundary :
    (k : String → String) (c : Context) (key id : String) (attempt now : ℕ) (s : State)
    → start_filter k c key id attempt s ≡ true
    → ((team : String) (r : Reservation)
        → release_filter k team key r (start_update key now s) ≡ false)
      × (started_filter k c.team_id key id attempt (start_update key now s) ≡ true)
      × ((start_update key now s).team_usage ≡ s.team_usage)
      × ((start_update key now s).agent_usage ≡ s.agent_usage)
      × ((start_update key now s).task_usage ≡ s.task_usage)
unfolding start_filter start_update release_filter started_filter holds
start_boundary k c key id attempt now s h =
    let (r, found, same) = holds-fields key id attempt s (ground arith) in
    let after =
      find-change key (λ q. record q { status = started; started_at = some now })
        s.active_reservations r found in
    (λ team q. ground (arith, after), ground (arith, after), refl, refl, refl)
