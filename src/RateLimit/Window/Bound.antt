-- ===== src/RateLimit/Window/Bound.antt =====
-- How many events a window admits.
use sci_pegasus.Common.{
  ℕ, ◌≤◌, ◌≡◌, refl, sym, ap, ◌∙◌, String, none, List, [], ◌∷◌, ◌++◌, arith, length, length-append,
  length-select-le, select-append, select-select_self, leb, if◌then◌else◌, Bool-cases, inl, inr,
}
use sci_pegasus.RateLimit.Window.{
  Store, events, events-put_self, in_window, prune, record_and_check,
}

-- A later prune of a window that is no longer keeps nothing that an earlier prune dropped.
pub prune-prune :
    (w v now later : ℕ) (ts : List ℕ)
    → v ≤ w
    → now ≤ later
    → prune v later (prune w now ts) ≡ prune v later ts
prune-prune w v now later [] h k = refl
prune-prune w v now later (t ∷ ts) h k = ground (arith, prune-prune w v now later ts h k)

-- The requests of one key, and the times at which they were admitted, oldest first.
pub record History : Type 0 where
  pub store : Store
  pub admitted : List ℕ

pub request : String → ℕ → ℕ → History → ℕ → History
request key window limit h now =
    let (r, s) = record_and_check now key window limit h.store in
    record { store = s; admitted = if r.allowed then h.admitted ++ now ∷ [] else h.admitted }

pub requests : String → ℕ → ℕ → History → List ℕ → History
requests key window limit h [] = h
requests key window limit h (now ∷ later) =
    requests key window limit (request key window limit h now) later

-- The times do not go back, from `now` on.
abbrev pub IsOrdered : ℕ → List ℕ → Type 0
IsOrdered now [] = Unit {0}
IsOrdered now (later ∷ times) = (now ≤ later) × IsOrdered later times

abbrev pub last_of : ℕ → List ℕ → ℕ
last_of now [] = now
last_of now (later ∷ times) = last_of later times

-- The store knows what was admitted in the window, and that is within the limit.
pub record IsTracked (key : String) (window limit now : ℕ) (h : History) : Type 0 where
  pub agrees : prune window now (events h.store key) ≡ prune window now h.admitted
  pub bounded : length (prune window now h.admitted) ≤ limit

IsTracked-later :
    (key : String) (window limit now later : ℕ) (h : History)
    → now ≤ later
    → IsTracked key window limit now h
    → IsTracked key window limit later h
IsTracked-later key window limit now later h k t = record {
  agrees =
      sym (prune-prune window window now later _ (omega arith) k)
      ∙ ap (prune window later) t.agrees
      ∙ prune-prune window window now later _ (omega arith) k;
  bounded = omega (
    arith,
    ap length (prune-prune window window now later h.admitted (omega arith) k),
    length-select-le (in_window window later) (prune window now h.admitted),
    t.bounded,
  );
}

request-IsTracked :
    (key : String) (window limit now : ℕ) (h : History)
    → IsTracked key window limit now h
    → IsTracked key window limit now (request key window limit h now)
unfolding request record_and_check
request-IsTracked key window limit now h t =
    elim (Bool-cases (leb limit (length (prune window now (events h.store key))))) [
      | inl full ↦ rw full (record {
        agrees = rw events-put_self (select-select_self _ (events h.store key) ∙ t.agrees);
        bounded = t.bounded;
      })
      | inr room ↦ rw room (record {
        agrees = rw events-put_self (
            select-append _ (prune window now (events h.store key)) (now ∷ [])
            ∙ ap (λ ts. ts ++ prune window now (now ∷ []))
                (select-select_self _ (events h.store key) ∙ t.agrees)
            ∙ sym (select-append _ h.admitted (now ∷ [])));
        bounded = rw select-append (
            ground (
              arith,
              length-append (prune window now h.admitted) (prune window now (now ∷ [])),
              ap length t.agrees,
            ));
      })
    ]

requests-IsTracked :
    (key : String) (window limit : ℕ) (times : List ℕ) (now : ℕ) (h : History)
    → IsOrdered now times
    → IsTracked key window limit now h
    → IsTracked key window limit (last_of now times) (requests key window limit h times)
unfolding requests
requests-IsTracked key window limit [] now h o t = t
requests-IsTracked key window limit (later ∷ times) now h o t =
    requests-IsTracked key window limit times later _ o.1 (
      request-IsTracked key window limit later h
        (IsTracked-later key window limit now later h o.0 t))

abbrev pub no_history : History
no_history = record { store = λ key. none; admitted = [] }

no_history-IsTracked : (key : String) (window limit : ℕ) → IsTracked key window limit 0 no_history
unfolding events
no_history-IsTracked key window limit = record { agrees = refl; bounded = omega arith }

-- Whatever the requests of a key, if their times do not go back then at the last of them, and at any
-- later time, at most `limit` requests were admitted within the window.
pub admitted_bound :
    (key : String) (window limit : ℕ) (times : List ℕ) (now : ℕ)
    → IsOrdered 0 times
    → last_of 0 times ≤ now
    → length (prune window now (requests key window limit no_history times).admitted) ≤ limit
admitted_bound key window limit times now o h =
    (IsTracked-later key window limit (last_of 0 times) now _ h (
      requests-IsTracked key window limit times 0 no_history o
        (no_history-IsTracked key window limit))).bounded
