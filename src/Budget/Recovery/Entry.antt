-- ===== src/Budget/Recovery/Entry.antt =====
-- lib/agent-team/execution-budget.ts: the recovery of one stale reservation.
use sci_pegasus.Common.{
  ℕ, ◌+◌, ◌≡◌, refl, String, eq_iff, eq_refl, true, false, some, List, ◌∷◌, ◌++◌, arith, Bool-cases,
  inl, inr, if◌then◌else◌,
}
use sci_pegasus.Mongo.{plain}
use sci_pegasus.Budget.Documents.{
  Reservation, is_reserved, State, find_reservation, without_reservation, holds, adjust_scopes,
}
use sci_pegasus.Budget.Updates.{
  state_id, release_filter, release_update, started_filter, abandon_update,
}
use sci_pegasus.Budget.Receipts.{Ledger, upsert_receipt, update_receipt, update_state, put_receipt}
use sci_pegasus.Budget.Recovery.{Recovered, release_reservation, abandon_started, recover_entry}
use sci_pegasus.Budget.Keys.{IsApart, find-past, without-past}

module _ (k : String → String) (now : ℕ) (team key reason : String) (r : Reservation) (l : Ledger)
    (s : State) where
  release_hit :
      l.state ≡ some s
      → release_filter k team key r s ≡ true
      → ((release_reservation plain k now team key r reason l).0 ≡ true)
        × ((release_reservation plain k now team key r reason l).1.state
            ≡ some (release_update k key r s))
  unfolding release_reservation upsert_receipt update_receipt update_state put_receipt
  release_hit e h = (rw (e, h) refl, rw (e, h) refl)

  abandon_hit :
      l.state ≡ some s
      → started_filter k team key r.admission_id r.attempt s ≡ true
      → ((abandon_started plain k now team key r reason l).0 ≡ true)
        × ((abandon_started plain k now team key r reason l).1.state ≡ some (abandon_update key s))
  unfolding abandon_started upsert_receipt update_receipt update_state put_receipt
  abandon_hit e h = (rw (e, h) refl, rw (e, h) refl)

module _ (k : String → String) (team key : String) (r : Reservation) (s : State) where
  release_filter-found :
      s.budget_state_id ≡ state_id k team
      → find_reservation key s.active_reservations ≡ some r
      → is_reserved r.status ≡ true
      → release_filter k team key r s ≡ true
  unfolding release_filter holds
  release_filter-found i f h =
      ground (arith, eq_iff s.budget_state_id (state_id k team), eq_refl r.admission_id)

  started_filter-found :
      s.budget_state_id ≡ state_id k team
      → find_reservation key s.active_reservations ≡ some r
      → is_reserved r.status ≡ false
      → started_filter k team key r.admission_id r.attempt s ≡ true
  unfolding started_filter holds
  started_filter-found i f h =
      ground (arith, eq_iff s.budget_state_id (state_id k team), eq_refl r.admission_id)

-- A document of the team is there, with these reservations.
pub record HasReservations (k : String → String) (team : String) (rs : List (String × Reservation))
    (l : Ledger) : Type 0 where
  pub document : State
  pub is_there : l.state ≡ some document
  pub of_team : document.budget_state_id ≡ state_id k team
  pub listed : document.active_reservations ≡ rs

abbrev pub counted : Reservation → Recovered → Recovered
counted r n =
    if is_reserved r.status
    then record n { released = n.released + 1 }
    else record n { abandoned = n.abandoned + 1 }

module _ (k : String → String) (now : ℕ) (team key : String) (r : Reservation) (n : Recovered)
    (l : Ledger) where
  recover_entry-reserved :
      is_reserved r.status ≡ true
      → (release_reservation plain k now team key r "execution_fence_lost_before_start" l).0 ≡ true
      → recover_entry plain k now team (key, r) (n, l) ≡ (
        counted r n,
        (release_reservation plain k now team key r "execution_fence_lost_before_start" l).1,
      )
  unfolding recover_entry
  recover_entry-reserved e h = rw (e, h) refl

  recover_entry-started :
      is_reserved r.status ≡ false
      → (abandon_started plain k now team key r "execution_fence_lost_after_start_usage_unobserved"
          l).0
        ≡ true
      → recover_entry plain k now team (key, r) (n, l) ≡ (
        counted r n,
        (abandon_started plain k now team key r "execution_fence_lost_after_start_usage_unobserved"
            l).1,
      )
  unfolding recover_entry
  recover_entry-started e h = rw (e, h) refl

  -- A stale entry is counted once and its reservation is gone.
  pub recover_entry_lem :
      (kept es : List (String × Reservation))
      → HasReservations k team (kept ++ (key, r) ∷ es) l
      → IsApart ((key, r) ∷ es) kept
      → ((recover_entry plain k now team (key, r) (n, l)).0 ≡ counted r n)
        × HasReservations k team (kept ++ es) (recover_entry plain k now team (key, r) (n, l)).1
  unfolding release_update abandon_update adjust_scopes
  recover_entry_lem kept es d apart =
      let s = d.document in
      let found : find_reservation key s.active_reservations ≡ some r =
        rw d.listed (find-past kept es key r apart) in
      let gone : without_reservation key s.active_reservations ≡ kept ++ es =
        rw d.listed (without-past kept es key r apart) in
      elim (Bool-cases (is_reserved r.status)) [
        | inl e ↦
            let hit =
              release_hit k now team key "execution_fence_lost_before_start" r l s d.is_there
                (release_filter-found k team key r s d.of_team found e) in
            rw (recover_entry-reserved e hit.0) (
              refl,
              record {
                document = release_update k key r s;
                is_there = hit.1;
                of_team = d.of_team;
                listed = gone;
              },
            )
        | inr e ↦
            let hit =
              abandon_hit k now team key "execution_fence_lost_after_start_usage_unobserved" r l s
                d.is_there (started_filter-found k team key r s d.of_team found e) in
            rw (recover_entry-started e hit.0) (
              refl,
              record {
                document = abandon_update key s;
                is_there = hit.1;
                of_team = d.of_team;
                listed = gone;
              },
            )
      ]
