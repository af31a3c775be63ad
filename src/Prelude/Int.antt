-- ===== src/Prelude/Int.antt =====
-- Go's signed integers, of which the program only compares and prints small ones.
use Prim.Native.Nat.{ℕ}
use mathlib.Core.Bool.{Bool, false}
use baseline.Prelude.Equality.{◌==◌, nat_eq}

-- `negsuc n` is -(n + 1).
pub data ℤ : Type 0 where
  pos : ℕ → ℤ
  negsuc : ℕ → ℤ

abbrev pub pos_part : ℤ → ℕ
pos_part (pos n) = n
pos_part (negsuc n) = 0

-- The number is the integer.
abbrev pub is_int : ℕ → ℤ → Bool
is_int n (pos m) = n == m
is_int n (negsuc m) = false
