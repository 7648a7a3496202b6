-- ===== src/Common/Fractions.antt =====
-- Fractions of natural numbers, which stand for the numbers that JavaScript rounds.
use Prim.Native.Nat.{ℕ, ◌+◌, ◌-◌, ◌*◌, ◌/◌}
use mathlib.Core.Bool.{Bool, ◌&&◌}
use mathlib.Core.List.{List, [], ◌∷◌}
use sci_pegasus.Common.Tests.{leb, ltb, if◌then◌else◌}

-- `den` is 0 in none but an infinite number, whose `num` is not 0. A number below 0 or NaN is not
-- represented: the tests below answer for it as for 0.
pub record Fraction : Type 0 where
  pub num : ℕ
  pub den : ℕ

abbrev pub whole : ℕ → Fraction
whole n = record { num = n; den = 1 }

-- Number.isFinite(a) && a > 0
unfoldable pub is_positive : Fraction → Bool
is_positive a = ltb 0 a.num && ltb 0 a.den

-- a > 0, which an infinite number is.
unfoldable pub is_above_zero : Fraction → Bool
is_above_zero a = ltb 0 a.num

-- Number.isFinite(a)
unfoldable pub is_finite : Fraction → Bool
is_finite a = ltb 0 a.den

unfoldable pub fraction_leb : Fraction → Fraction → Bool
fraction_leb a b = leb (a.num * b.den) (b.num * a.den)

unfoldable pub fraction_max : Fraction → Fraction → Fraction
unfolding fraction_leb
fraction_max a b = if fraction_leb a b then b else a

-- An infinite number stays so, to which another is added too.
unfoldable pub plus : Fraction → Fraction → Fraction
plus a b =
    if ltb 0 a.den then record { num = a.num * b.den + b.num * a.den; den = a.den * b.den } else a

-- Where b is at most a.
unfoldable pub less : Fraction → Fraction → Fraction
less a b = record { num = a.num * b.den - b.num * a.den; den = a.den * b.den }

unfoldable pub times : ℕ → Fraction → Fraction
times n a = record { num = n * a.num; den = a.den }

-- By a positive fraction.
unfoldable pub divided : Fraction → Fraction → Fraction
divided a b = record { num = a.num * b.den; den = a.den * b.num }

-- Math.ceil
unfoldable pub ceiling : Fraction → ℕ
ceiling a = (a.num + (a.den - 1)) / a.den

unfoldable pub total : List Fraction → Fraction
unfolding plus
total [] = whole 0
total (a ∷ rest) = plus a (total rest)
