-- ===== src/Base/Int.antt =====
-- Go's `int`, where a test tells negative numbers from the others.
use Prim.Native.Nat.{ℕ, zero, suc}
use mathlib.Core.Bool.{Bool, true, false}

pub data ℤ : Type 0 where
  pos : ℕ → ℤ
  negsuc : ℕ → ℤ

-- `val <= 0`
abbrev pub is_at_most_zero : ℤ → Bool
is_at_most_zero (pos zero) = true
is_at_most_zero (pos (suc n)) = false
is_at_most_zero (negsuc n) = true
