-- ===== src/Base/Int.antt =====
-- Signed integers over the native numbers, for operands that Go passes as `int` and only compares,
-- divides by a constant and converts: none of these overflows on the values that are not refused.
use Prim.Native.Nat.{ℕ, suc, ◌+◌}
use mathlib.Core.Bool.{Bool}
use asmgen.Base.Tests.{ltb, ◌==◌}

-- `negsuc n` is -(n + 1).
pub data ℤ : Type 0 where
  pos : ℕ → ℤ
  negsuc : ℕ → ℤ

abbrev pub pos_part : ℤ → ℕ
pos_part (pos n) = n
pos_part (negsuc n) = 0

abbrev pub neg_part : ℤ → ℕ
neg_part (pos n) = 0
neg_part (negsuc n) = suc n

abbrev pub ltb_ℤ : ℤ → ℤ → Bool
ltb_ℤ a b = ltb (pos_part a + neg_part b) (pos_part b + neg_part a)

-- `==` on two integers.
abbrev pub is_int : ℤ → ℤ → Bool
is_int a b = (pos_part a + neg_part b) == (pos_part b + neg_part a)
