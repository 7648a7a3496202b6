-- ===== src/Common/Texts.antt =====
-- Texts, as the methods of JavaScript's strings treat them. `units` counts UTF-16 code units.
use Prim.Native.Char.{Char, code}
use Prim.Native.String.{String, ◌++◌ as ◌+++◌}
use Prim.Native.Nat.{ℕ, zero, suc}
use mathlib.Core.Path.{◌≡◌, refl, sym, ap, ◌∙◌}
use mathlib.Core.Bool.{Bool, true, false, ◌&&◌, ◌||◌, false≢true}
use mathlib.Core.List.{List, [], ◌∷◌, ◌++◌}
use native.Mathlib.Omega.{arith}
use text.Mathlib.TextEquality.{Char-path}
use text.Mathlib.TextLemmas.{nil-append, cons-append}
use sci_pegasus.Common.Tests.{ltb, eqb, Bool-cases, if◌then◌else◌}
use mathlib.Core.Logic.{inl, inr}

-- s.startsWith(p)
unfoldable pub starts_with : String → String → Bool
starts_with String.[] s = true
starts_with (String.◌∷◌ c p) String.[] = false
starts_with (String.◌∷◌ c p) (String.◌∷◌ d s) = eqb (code c) (code d) && starts_with p s

-- s.length
unfoldable pub units : String → ℕ
units String.[] = 0
units (String.◌∷◌ c s) = if ltb (code c) 65536 then suc (units s) else suc (suc (units s))

-- The text without its first n characters, which lie in the basic plane where it is used.
unfoldable pub drop_chars : ℕ → String → String
drop_chars zero s = s
drop_chars (suc n) String.[] = String.[]
drop_chars (suc n) (String.◌∷◌ c s) = drop_chars n s

-- Whether a character of s satisfies p.
unfoldable pub has_char : (ℕ → Bool) → String → Bool
has_char p String.[] = false
has_char p (String.◌∷◌ c s) = p (code c) || has_char p s

abbrev pub push_front : Char → List String → List String
push_front c [] = String.◌∷◌ c String.[] ∷ []
push_front c (x ∷ xs) = String.◌∷◌ c x ∷ xs

-- s.split(separator), for a separator of one character
unfoldable pub split : ℕ → String → List String
split sep String.[] = String.[] ∷ []
split sep (String.◌∷◌ c s) =
    let rest = split sep s in if eqb (code c) sep then String.[] ∷ rest else push_front c rest

-- xs.join('/')
unfoldable pub join_slash : List String → String
join_slash [] = String.[]
join_slash (x ∷ []) = x
join_slash (x ∷ y ∷ xs) = x +++ ("/" +++ join_slash (y ∷ xs))

last_after : String → List String → String
last_after x [] = x
last_after x (y ∷ ys) = last_after y ys

unfoldable pub last_or_empty : List String → String
unfolding last_after
last_or_empty [] = String.[]
last_or_empty (x ∷ xs) = last_after x xs

pub split-cons : (sep : ℕ) (s : String) → (x : String) × (xs : List String) × (split sep s ≡ x ∷ xs)
unfolding split
split-cons sep String.[] = (String.[], [], refl)
split-cons sep (String.◌∷◌ c s) = elim (Bool-cases (eqb (code c) sep)) [
  | inl e ↦ (String.[], split sep s, rw e refl)
  | inr e ↦ let (x, xs, h) = split-cons sep s in (String.◌∷◌ c x, xs, rw (e, h) refl)
]

join_slash-push_front :
    (c : Char) (x : String) (xs : List String)
    → join_slash (push_front c (x ∷ xs)) ≡ String.◌∷◌ c (join_slash (x ∷ xs))
unfolding join_slash
join_slash-push_front c x [] = refl
join_slash-push_front c x (y ∷ ys) = cons-append c x ("/" +++ join_slash (y ∷ ys))

slash_append : (c : Char) (t : String) → code c ≡ 47 → "/" +++ t ≡ String.◌∷◌ c t
slash_append c t e =
    let slash : Char = "/" in
    cons-append slash String.[] t
    ∙ ap (λ rest. String.◌∷◌ slash rest) (nil-append t)
    ∙ ap (λ d. String.◌∷◌ d t) (Char-path slash c (sym e))

-- Splitting at slashes and joining with them is the identity.
pub join_slash-split : (s : String) → join_slash (split 47 s) ≡ s
unfolding split join_slash
join_slash-split String.[] = refl
join_slash-split (String.◌∷◌ c s) =
    let (x, xs, h) = split-cons 47 s in
    elim (Bool-cases (eqb (code c) 47)) [
      | inl e ↦
          rw (e, h)
            (nil-append ("/" +++ join_slash (x ∷ xs))
              ∙ slash_append c (join_slash (x ∷ xs)) (ground arith)
              ∙ ap (λ t. String.◌∷◌ c t)
                  (ap (λ segments. join_slash segments) (sym h) ∙ join_slash-split s))
      | inr e ↦
          rw (e, h)
            (join_slash-push_front c x xs
              ∙ ap (λ t. String.◌∷◌ c t)
                  (ap (λ segments. join_slash segments) (sym h) ∙ join_slash-split s))
    ]

-- The segments of a path below another one.
pub split-below : (p r : String) → split 47 (p +++ ("/" +++ r)) ≡ split 47 p ++ split 47 r
unfolding split
split-below String.[] r =
    let slash : Char = "/" in
    ap (λ t. split 47 t) (nil-append ("/" +++ r) ∙ slash_append slash r refl)
split-below (String.◌∷◌ c p) r =
    let (x, xs, h) = split-cons 47 p in
    let below = split-below p r in
    ap (λ t. split 47 t) (cons-append c p ("/" +++ r)) ∙ elim (Bool-cases (eqb (code c) 47)) [
      | inl e ↦ rw (e, below) refl
      | inr e ↦ rw (e, below, h) refl
    ]

pub split_whole : (s : String) → has_char (λ c. eqb c 47) s ≡ false → split 47 s ≡ s ∷ []
unfolding split has_char
split_whole String.[] h = refl
split_whole (String.◌∷◌ c s) h =
    let (first, rest) : (eqb (code c) 47 ≡ false) × (has_char (λ d. eqb d 47) s ≡ false) =
      (ground arith, ground arith) in
    rw (first, split_whole s rest) refl

pub starts_with-append : (p s : String) → starts_with p s ≡ true → (r : String) × (s ≡ p +++ r)
unfolding starts_with
starts_with-append String.[] s h = (s, sym (nil-append s))
starts_with-append (String.◌∷◌ c p) String.[] h = absurd (false≢true h)
starts_with-append (String.◌∷◌ c p) (String.◌∷◌ d s) h =
    let first : code c ≡ code d = ground arith in
    let (r, e) = starts_with-append p s (ground arith) in
    (
      r,
      ap (λ x. String.◌∷◌ x s) (sym (Char-path c d first))
          ∙ ap (λ t. String.◌∷◌ c t) e
          ∙ sym (cons-append c p r),
    )
