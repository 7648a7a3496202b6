-- ===== src/Common/Integers.antt =====
-- Integers over the native numbers, as differences of two of them.
use Prim.Native.Nat.{ℕ, suc, ◌+◌, ◌-◌}
use mathlib.Core.Path.{◌≡◌}
use native.Mathlib.Omega.{arith}
use sci_pegasus.Common.Tests.{leb, if◌then◌else◌}

pub data ℤ : Type 0 where
  pos negsuc : ℕ → ℤ

-- a - b
abbrev pub minus : ℕ → ℕ → ℤ
minus a b = if leb b a then pos (a - b) else negsuc (b - a - 1)

-- Math.max(0, n + z)
abbrev pub add_from_zero : ℕ → ℤ → ℕ
add_from_zero n (pos m) = n + m
add_from_zero n (negsuc m) = n - suc m

pub add_from_zero-minus : (n a b : ℕ) → add_from_zero n (minus a b) ≡ n + a - b
add_from_zero-minus n a b = ground arith
