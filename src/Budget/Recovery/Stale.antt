-- ===== src/Budget/Recovery/Stale.antt =====
-- What a recovery leaves: the reservations whose fence is valid.
use sci_pegasus.Common.{
  ℕ, ◌≡◌, refl, sym, ap, subst, ◌∙◌, String, Bool, true, false, some, List, [], ◌∷◌, ◌++◌, select,
  Bool-cases, inl, inr, if◌then◌else◌,
}
use mathlib.Core.List.{append_assoc}
use sci_pegasus.Mongo.{Mongo, IsMongo, plain, eq_plain}
use sci_pegasus.Budget.Documents.{Reservation, State, context_from_reservation}
use sci_pegasus.Budget.Updates.{state_id}
use sci_pegasus.Budget.Receipts.{Ledger}
use sci_pegasus.Budget.Fence.{Validator, recovery, fence_valid}
use sci_pegasus.Budget.Recovery.{
  Recovered, recover_entry, recover_entries, recover_stale_admissions,
}
use sci_pegasus.Budget.Keys.{IsUnique, IsApart, IsApart-tail, IsApart-keep}
use sci_pegasus.Budget.Recovery.Entry.{HasReservations, counted, recover_entry_lem}

-- The fence of an entry, as the recovery asks for it.
unfoldable pub has_valid_fence : Validator → String → String × Reservation → Bool
has_valid_fence v team e = fence_valid v recovery (context_from_reservation team e.1)

-- What the recovery counts.
unfoldable pub count_stale :
    Validator → String → List (String × Reservation) → Recovered → Recovered
count_stale v team [] n = n
count_stale v team (e ∷ es) n =
    count_stale v team es (if has_valid_fence v team e then n else counted e.1 n)

-- An outcome: what was counted, and the reservations that are left.
abbrev Outcome :
    (String → String)
    → String
    → List (String × Reservation)
    → Recovered
    → Recovered × Ledger
    → Type 0
Outcome k team rs n out = (out.0 ≡ n) × HasReservations k team rs out.1

Outcome-along :
    (k : String → String) (team : String) (rs rs' : List (String × Reservation)) (n n' : Recovered)
    (out out' : Recovered × Ledger)
    → rs ≡ rs'
    → n ≡ n'
    → out ≡ out'
    → Outcome k team rs n out
    → Outcome k team rs' n' out'
Outcome-along k team rs rs' n n' out out' a b c d =
    subst (λ x. Outcome k team rs' n' x) c
      (subst (λ x. Outcome k team rs' x out) b (subst (λ x. Outcome k team x n out) a d))

module _ (k : String → String) (now : ℕ) (v : Validator) (team : String) where
  recover_entries-round :
      (b : Bool) (e : String × Reservation) (es : List (String × Reservation))
      (acc : Recovered × Ledger)
      → has_valid_fence v team e ≡ b
      → recover_entries plain k now v team es
          (if b then acc else recover_entry plain k now team e acc)
        ≡ recover_entries plain k now v team (e ∷ es) acc
  unfolding recover_entries has_valid_fence
  recover_entries-round b e es acc h =
      ap
        (λ x.
          recover_entries plain k now v team es
            (if x then acc else recover_entry plain k now team e acc))
        (sym h)

  count_stale-round :
      (b : Bool) (e : String × Reservation) (es : List (String × Reservation)) (n : Recovered)
      → has_valid_fence v team e ≡ b
      → count_stale v team es (if b then n else counted e.1 n) ≡ count_stale v team (e ∷ es) n
  unfolding count_stale
  count_stale-round b e es n h =
      ap (λ x. count_stale v team es (if x then n else counted e.1 n)) (sym h)

  recover_entries_lem :
      (kept es : List (String × Reservation)) (n : Recovered) (l : Ledger)
      → HasReservations k team (kept ++ es) l
      → IsApart es kept
      → IsUnique es
      → Outcome k team
          (kept ++ select (has_valid_fence v team) es)
          (count_stale v team es n)
          (recover_entries plain k now v team es (n, l))
  unfolding recover_entries count_stale
  recover_entries_lem kept [] n l d apart u = (refl, d)
  recover_entries_lem kept ((key, r) ∷ es) n l d apart u =
      let valid = select (has_valid_fence v team) es in
      elim (Bool-cases (has_valid_fence v team (key, r))) [
        | inl e ↦
            Outcome-along k team _ _ _ _ _ _ (append_assoc kept ((key, r) ∷ []) valid ∙ rw e refl)
              (count_stale-round true (key, r) es n e)
              (recover_entries-round true (key, r) es (n, l) e)
              (recover_entries_lem (kept ++ (key, r) ∷ []) es n l
                (subst (λ rs. HasReservations k team rs l)
                  (sym (append_assoc kept ((key, r) ∷ []) es)) d)
                (IsApart-keep kept es key r u.0 (IsApart-tail kept es key r apart)) u.1)
        | inr e ↦
            let (counts, left) = recover_entry_lem k now team key r n l kept es d apart in
            let rest = recover_entry plain k now team (key, r) (n, l) in
            Outcome-along k team _ _ _ _ _ _ (rw e refl)
              (ap (count_stale v team es) counts ∙ count_stale-round false (key, r) es n e)
              (recover_entries-round false (key, r) es (n, l) e)
              (recover_entries_lem kept es rest.0 rest.1 left (IsApart-tail kept es key r apart)
                u.1)
      ]

-- What a recovery promises of a team's document.
pub record IsRecovered (k : String → String) (v : Validator) (s : State) (out : Recovered × Ledger)
    : Type 0 where
  pub counts :
      out.0 ≡ count_stale v s.team_id s.active_reservations (record { released = 0; abandoned = 0 })
  pub document : State
  pub is_there : out.1.state ≡ some document
  pub left :
      document.active_reservations ≡ select (has_valid_fence v s.team_id) s.active_reservations

recover_plain :
    (k : String → String) (now : ℕ) (v : Validator) (l : Ledger) (s : State)
    → l.state ≡ some s
    → s.budget_state_id ≡ state_id k s.team_id
    → IsUnique s.active_reservations
    → IsRecovered k v s (recover_stale_admissions plain k now v l)
unfolding recover_stale_admissions
recover_plain k now v l s e i u =
    let (counts, left) =
      recover_entries_lem k now v s.team_id [] s.active_reservations
        (record { released = 0; abandoned = 0 }) l
        (record { document = s; is_there = e; of_team = i; listed = refl }) tt u in
    rw (e, recover_stale_admissions)
      (record {
        counts = counts;
        document = left.document;
        is_there = left.is_there;
        left = left.listed;
      })

-- A recovery of a team's document, under its own id and with no key twice, removes exactly the
-- reservations whose fence is lost, keeps all others in their order, and counts each that it removed
-- once: as released where its call had not started, and as abandoned where it had.
pub recover_stale_admissions_lem :
    (m : Mongo)
    → IsMongo m
    → (k : String → String) (now : ℕ) (v : Validator) (l : Ledger) (s : State) → l.state ≡ some s
    → s.budget_state_id ≡ state_id k s.team_id
    → IsUnique s.active_reservations
    → IsRecovered k v s (recover_stale_admissions m k now v l)
recover_stale_admissions_lem m documented k now v l s e i u =
    subst (λ x. IsRecovered k v s (recover_stale_admissions x k now v l))
      (sym (eq_plain m documented)) (recover_plain k now v l s e i u)
