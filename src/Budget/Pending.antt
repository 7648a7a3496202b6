-- ===== src/Budget/Pending.antt =====
-- The tool calls that a state document holds back for reservations, and how the counters move.
use sci_pegasus.Common.{
  ℕ, ◌+◌, ◌-◌, ◌≡◌, String, Bool, true, Option, none, some, List, [], ◌∷◌, ◌++◌, arith, inl, inr,
  Option-cases, if◌then◌else◌,
}
use sci_pegasus.Budget.Usage.{Totals, add_usage}
use sci_pegasus.Budget.Documents.{
  Reservation, ReservationStatus, is_reserved, State, or_zero, increment, decrement_calls,
  find_reservation, without_reservation, change_reservation, holds,
}
use sci_pegasus.Budget.Updates.{calls}

-- The tool calls that are reserved and not started.
abbrev pub weight : Reservation → ℕ
weight r = if is_reserved r.status then r.reserved_tool_calls else 0

unfoldable pub pending : List (String × Reservation) → ℕ
pending [] = 0
pending ((k, r) ∷ rs) = weight r + pending rs

pub pending-append :
    (rs : List (String × Reservation)) (k : String) (r : Reservation)
    → pending (rs ++ (k, r) ∷ []) ≡ pending rs + weight r
unfolding pending
pending-append [] k r = omega arith
pending-append ((j, q) ∷ rs) k r = omega (arith, pending-append rs k r)

pub pending-without :
    (key : String) (rs : List (String × Reservation)) (r : Reservation)
    → find_reservation key rs ≡ some r
    → pending rs ≡ weight r + pending (without_reservation key rs)
unfolding pending find_reservation without_reservation
pending-without key [] r e = cc
pending-without key ((j, q) ∷ rs) r e = ground (arith, pending-without key rs r)

pub pending-change :
    (key : String) (f : Reservation → Reservation) (rs : List (String × Reservation))
    (r : Reservation)
    → find_reservation key rs ≡ some r
    → pending (change_reservation key f rs) + weight r ≡ pending rs + weight (f r)
unfolding pending find_reservation change_reservation
pending-change key f [] r e = cc
pending-change key f ((j, q) ∷ rs) r e = ground (arith, pending-change key f rs r)

pub calls-increment :
    (n : ℕ) (e : Option Totals)
    → (or_zero (increment (calls n) e)).tool_calls ≡ (or_zero e).tool_calls + n
unfolding increment add_usage
calls-increment n none = ground arith
calls-increment n (some t) = ground arith

pub calls-settle :
    (d : Totals) (e : Option Totals)
    → (or_zero (increment (record d { tool_calls = 0 }) e)).tool_calls ≡ (or_zero e).tool_calls
unfolding increment add_usage
calls-settle d none = ground arith
calls-settle d (some t) = ground arith

pub calls-decrement :
    (n : ℕ) (e : Option Totals)
    → (or_zero (decrement_calls n e)).tool_calls ≡ (or_zero e).tool_calls - n
unfolding decrement_calls
calls-decrement n none = ground arith
calls-decrement n (some t) = ground arith

-- What a filter on a reservation says.
pub holds-find :
    (key id : String) (attempt : ℕ) (status : ReservationStatus → Bool) (s : State)
    → holds key id attempt status s ≡ true
    → (r : Reservation) × (find_reservation key s.active_reservations ≡ some r)
      × (status r.status ≡ true)
unfolding holds
holds-find key id attempt status s h =
    elim (Option-cases (find_reservation key s.active_reservations)) [
      | inl gone ↦ ground arith
      | inr (r, e) ↦ (r, e, ground arith)
    ]
