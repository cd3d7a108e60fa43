-- ===== src/Base/Int.antt =====
-- Go's `int` where a value can be below 0.
use Prim.Native.Nat.{ℕ, zero, suc}
use mathlib.Core.Bool.{Bool, true, false}

pub data ℤ : Type 0 where
  pos : ℕ → ℤ
  negsuc : ℕ → ℤ

-- `if n < 0 { n = 0 }`
abbrev pub at_least_zero : ℤ → ℤ
at_least_zero (pos n) = pos n
at_least_zero (negsuc n) = pos 0

-- `if n < 1 { n = def }`
abbrev pub positive_or : ℕ → ℤ → ℤ
positive_or def (pos zero) = pos def
positive_or def (pos (suc n)) = pos (suc n)
positive_or def (negsuc n) = pos def

abbrev pub is_negative : ℤ → Bool
is_negative (pos n) = false
is_negative (negsuc n) = true
