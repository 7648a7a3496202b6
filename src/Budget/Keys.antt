-- ===== src/Budget/Keys.antt =====
-- The keys of the reservations of a state document.
use sci_pegasus.Common.{
  ◌≡◌, refl, String, eq_iff, eq_refl, none, some, List, [], ◌∷◌, ◌++◌, All, arith,
}
use sci_pegasus.Budget.Documents.{Reservation, find_reservation, without_reservation}

-- No key has two reservations.
abbrev pub IsUnique : List (String × Reservation) → Type 0
IsUnique [] = Unit {0}
IsUnique ((k, r) ∷ rs) = (find_reservation k rs ≡ none) × IsUnique rs

pub find-without :
    (key : String) (rs : List (String × Reservation))
    → IsUnique rs
    → find_reservation key (without_reservation key rs) ≡ none
unfolding find_reservation without_reservation
find-without key [] u = refl
find-without key ((k, r) ∷ rs) u = ground (arith, eq_iff k key, find-without key rs u.1)

-- No key of the list is one of `es`.
abbrev pub IsApart : List (String × Reservation) → List (String × Reservation) → Type 0
IsApart es kept = All (λ (e : String × Reservation). find_reservation e.0 es ≡ none) kept

pub find-past :
    (kept es : List (String × Reservation)) (key : String) (r : Reservation)
    → IsApart ((key, r) ∷ es) kept
    → find_reservation key (kept ++ (key, r) ∷ es) ≡ some r
unfolding find_reservation
find-past [] es key r h = ground (arith, eq_refl key)
find-past ((j, q) ∷ kept) es key r h =
    ground (arith, h.0, eq_iff key j, eq_iff j key, find-past kept es key r h.1)

pub without-past :
    (kept es : List (String × Reservation)) (key : String) (r : Reservation)
    → IsApart ((key, r) ∷ es) kept
    → without_reservation key (kept ++ (key, r) ∷ es) ≡ kept ++ es
unfolding find_reservation without_reservation
without-past [] es key r h = ground (arith, eq_refl key)
without-past ((j, q) ∷ kept) es key r h =
    ground (arith, h.0, eq_iff key j, eq_iff j key, without-past kept es key r h.1)

pub IsApart-tail :
    (kept es : List (String × Reservation)) (key : String) (r : Reservation)
    → IsApart ((key, r) ∷ es) kept
    → IsApart es kept
unfolding find_reservation
IsApart-tail [] es key r h = tt
IsApart-tail ((j, q) ∷ kept) es key r h = (ground (arith, h.0), IsApart-tail kept es key r h.1)

pub IsApart-keep :
    (kept es : List (String × Reservation)) (key : String) (r : Reservation)
    → find_reservation key es ≡ none
    → IsApart es kept
    → IsApart es (kept ++ (key, r) ∷ [])
IsApart-keep [] es key r n h = (n, tt)
IsApart-keep ((j, q) ∷ kept) es key r n h = (h.0, IsApart-keep kept es key r n h.1)
