-- ===== src/RateLimit/Check/Atomic.antt =====
-- What a message check charges to the two windows.
use Prim.Native.Char.{code}
use Prim.Native.String.append
use Prim.Native.String.{◌++◌ as ◌+++◌}
use sci_pegasus.Common.{
  ℕ, ◌≤◌, ◌≡◌, ◌≢◌, sym, ap, ◌∙◌, String, ◌==◌, eq_iff, false, List, [], ◌∷◌, ◌++◌, arith,
  Bool-cases, inl, inr, length, ltb, leb, select-append,
}
use mathlib.Core.List.{append-nil}
use sci_pegasus.RateLimit.Limits.{UserLimits}
use sci_pegasus.RateLimit.Window.{
  Store, events, events-put, events-put_self, prune, peek, record_event, refresh, day_ms,
}
use sci_pegasus.RateLimit.Window.Bound.{prune-prune}
use sci_pegasus.RateLimit.Check.{
  RateLimitResult, allowed, denied, Readings, minute_ms, minute_key, day_key, check_message_rate,
}

last_code : ℕ → String → ℕ
last_code d String.[] = d
last_code d (String.◌∷◌ c s) = last_code (code c) s

last_code-append : (d : ℕ) (s t : String) → last_code d (s +++ t) ≡ last_code (last_code d s) t
unfolding last_code
last_code-append d String.[] t = ap (last_code d) (append.nil t)
last_code-append d (String.◌∷◌ c s) t =
    ap (last_code d) (append.cons c s t) ∙ last_code-append (code c) s t

last_code-minute_key : (u : String) → last_code 0 (minute_key u) ≡ b'e'
unfolding last_code minute_key
last_code-minute_key u =
    last_code-append 0 "msg:" (u +++ ":minute") ∙ last_code-append (last_code 0 "msg:") u ":minute"

last_code-day_key : (u : String) → last_code 0 (day_key u) ≡ b'y'
unfolding last_code day_key
last_code-day_key u =
    last_code-append 0 "msg:" (u +++ ":day") ∙ last_code-append (last_code 0 "msg:") u ":day"

keys_differ : (u v : String) → minute_key u ≢ day_key v
keys_differ u v e = omega (arith, ap (last_code 0) e, last_code-minute_key u, last_code-day_key v)

minute_key-ne-day_key : (u v : String) → (minute_key u == day_key v) ≡ false
minute_key-ne-day_key u v = elim (Bool-cases (minute_key u == day_key v)) [
  | inl e ↦ absurd (keys_differ u v ((eq_iff _ _).0 e))
  | inr e ↦ e
]

day_key-ne-minute_key : (u v : String) → (day_key u == minute_key v) ≡ false
day_key-ne-minute_key u v = elim (Bool-cases (day_key u == minute_key v)) [
  | inl e ↦ absurd (keys_differ v u (sym ((eq_iff _ _).0 e)))
  | inr e ↦ e
]

peek-store :
    (s : Store) (now w limit : ℕ) (key : String) → (peek now key w limit s).1 ≡ refresh now key w s
unfolding peek
peek-store s now w limit key = elim (Bool-cases (leb limit (length (prune w now (events s key))))) [
  | inl full ↦ rw full
  | inr room ↦ rw room
]

-- A peek drops only what no later look at the window would count.
events-refresh_self :
    (s : Store) (now later w : ℕ) (key : String)
    → now ≤ later
    → prune w later (events (refresh now key w s) key) ≡ prune w later (events s key)
unfolding refresh
events-refresh_self s now later w key h =
    elim (Bool-cases (ltb (length (prune w now (events s key))) (length (events s key)))) [
      | inl less ↦
          rw (less, events-put_self) (prune-prune w w now later (events s key) (omega arith) h)
      | inr same ↦ rw same
    ]

events-refresh_ne :
    (s : Store) (now w : ℕ) (key k : String)
    → (key == k) ≡ false
    → events (refresh now key w s) k ≡ events s k
unfolding refresh
events-refresh_ne s now w key k h =
    elim (Bool-cases (ltb (length (prune w now (events s key))) (length (events s key)))) [
      | inl less ↦ rw (less, events-put, h)
      | inr same ↦ rw same
    ]

events-record_self :
    (s : Store) (now : ℕ) (key : String)
    → events (record_event now key s) key ≡ events s key ++ now ∷ []
unfolding record_event
events-record_self s now key = events-put_self s key _

events-record_ne :
    (s : Store) (now : ℕ) (key k : String)
    → (key == k) ≡ false
    → events (record_event now key s) k ≡ events s k
unfolding record_event
events-record_ne s now key k h = rw (events-put, h)

prune-append_one :
    (w later : ℕ) (xs ys : List ℕ) (t : ℕ)
    → prune w later xs ≡ prune w later ys
    → prune w later (xs ++ t ∷ []) ≡ prune w later (ys ++ t ∷ [])
prune-append_one w later xs ys t h =
    select-append _ xs (t ∷ [])
    ∙ ap (λ zs. zs ++ prune w later (t ∷ [])) h
    ∙ sym (select-append _ ys (t ∷ []))

-- The two records of an allowed message, each of which leaves the other's window alone.
events-records :
    (s : Store) (user : String) (m d : ℕ)
    → (events (record_event d (day_key user) (record_event m (minute_key user) s)) (minute_key user)
        ≡ events s (minute_key user) ++ m ∷ [])
      × (events (record_event d (day_key user) (record_event m (minute_key user) s)) (day_key user)
          ≡ events s (day_key user) ++ d ∷ [])
events-records s user m d = (
  events-record_ne (record_event m (minute_key user) s) d _ _ (day_key-ne-minute_key user user)
      ∙ events-record_self s m (minute_key user),
  events-record_self (record_event m (minute_key user) s) d (day_key user)
      ∙ ap (λ ts. ts ++ d ∷ []) (events-record_ne s m _ _ (minute_key-ne-day_key user user)),
)

-- One more event where the check allows the message, and none where it does not.
abbrev pub charge : RateLimitResult → ℕ → List ℕ
charge allowed now = now ∷ []
charge (denied code wait) now = []

pub record Charged (user : String) (t : Readings) (later : ℕ) (r : RateLimitResult) (s s' : Store)
    : Type 0 where
  pub minute :
      prune minute_ms later (events s' (minute_key user))
      ≡ prune minute_ms later (events s (minute_key user) ++ charge r t.minute_record)
  pub day :
      prune day_ms later (events s' (day_key user))
      ≡ prune day_ms later (events s (day_key user) ++ charge r t.day_record)

-- For every look at the two windows from the readings on, a check that allows a message has added one event to
-- each of them, and a check that refuses it has added none to either.
pub check_message_rate-Charged :
    (limits : UserLimits) (user : String) (t : Readings) (s : Store) (later : ℕ)
    → t.minute_peek ≤ later
    → t.day_peek ≤ later
    → Charged user t later
        (check_message_rate limits user t s).0
        s
        (check_message_rate limits user t s).1
unfolding check_message_rate
check_message_rate-Charged limits user t s later hm hd =
    let s₁ = refresh t.minute_peek (minute_key user) minute_ms s in
    let day_seen : prune day_ms later (events s₁ (day_key user))
        ≡ prune day_ms later (events s (day_key user)) =
      ap (prune day_ms later)
        (events-refresh_ne s t.minute_peek minute_ms _ _ (minute_key-ne-day_key user user)) in
    let s₂ = refresh t.day_peek (day_key user) day_ms s₁ in
    let minute_seen : prune minute_ms later (events s₁ (minute_key user))
        ≡ prune minute_ms later (events s (minute_key user)) =
      events-refresh_self s t.minute_peek later minute_ms (minute_key user) hm in
    let minute_kept : prune minute_ms later (events s₂ (minute_key user))
        ≡ prune minute_ms later (events s (minute_key user)) =
      ap (prune minute_ms later)
        (events-refresh_ne s₁ t.day_peek day_ms _ _ (day_key-ne-minute_key user user))
      ∙ minute_seen in
    let day_kept : prune day_ms later (events s₂ (day_key user))
        ≡ prune day_ms later (events s (day_key user)) =
      events-refresh_self s₁ t.day_peek later day_ms (day_key user) hd ∙ day_seen in
    elim (Bool-cases
      (peek t.minute_peek (minute_key user) minute_ms limits.messages_per_minute s).0.allowed) [
        | inr refused ↦
            rw (refused, peek-store)
              (record { minute = rw append-nil minute_seen; day = rw append-nil day_seen })
        | inl passed ↦
            rw (passed, peek-store s t.minute_peek)
              (elim (Bool-cases
                (peek t.day_peek (day_key user) day_ms limits.messages_per_day s₁).0.allowed) [
                  | inr refused ↦
                      rw (refused, peek-store)
                        (record {
                          minute = rw append-nil minute_kept;
                          day = rw append-nil day_kept;
                        })
                  | inl passed ↦
                      rw (passed, peek-store)
                        (record {
                          minute =
                              rw ((events-records s₂ user t.minute_record t.day_record).0)
                                (prune-append_one minute_ms later _ _ _ minute_kept);
                          day =
                              rw ((events-records s₂ user t.minute_record t.day_record).1)
                                (prune-append_one day_ms later _ _ _ day_kept);
                        })
                ])
      ]
