-- ===== src/Base/Bits/Digits.antt =====
-- The native bit operations stand for a recursion on binary digits with fuel. Here the fuel is
-- dropped: one equation for the lowest digit.
use Prim.Native.Nat.{
  ℕ, zero, suc, ◌+◌, ◌*◌, ◌/◌, ◌%◌, ◌≤◌, min, max, digits, bitwise, bit_and, bit_or,
  bit_and-bitwise, bit_or-bitwise,
}
use mathlib.Core.Path.{◌≡◌, refl}
use native.Mathlib.Omega.{arith}

module _ (lone : ℕ → ℕ) (both : ℕ → ℕ → ℕ) where
  more_fuel :
      (x y fuel fuel' : ℕ)
      → x ≤ fuel
      → x ≤ fuel'
      → digits lone both fuel x y ≡ digits lone both fuel' x y
  more_fuel zero y zero zero h h' = refl
  more_fuel zero y zero (suc fuel') h h' = refl
  more_fuel zero y (suc fuel) zero h h' = refl
  more_fuel zero y (suc fuel) (suc fuel') h h' = refl
  more_fuel (suc x) y zero fuel' h h' = absurd (omega arith)
  more_fuel (suc x) y (suc fuel) zero h h' = absurd (omega arith)
  more_fuel (suc x) y (suc fuel) (suc fuel') h h' =
      rw (more_fuel (suc x / 2) (y / 2) fuel fuel' (omega arith) (omega arith))

  low_digit :
      (x y : ℕ)
      → bitwise lone both (suc x) y
        ≡ bitwise lone both (suc x / 2) (y / 2) * 2 + both (suc x % 2) (y % 2)
  low_digit x y =
      omega (arith, more_fuel (suc x / 2) (y / 2) x (suc x / 2) (omega arith) (omega arith))

pub bit_and_step : (x y : ℕ) → bit_and x y ≡ bit_and (x / 2) (y / 2) * 2 + min (x % 2) (y % 2)
bit_and_step zero y = simp bit_and-bitwise (omega arith)
bit_and_step (suc x) y = simp bit_and-bitwise (low_digit (λ t. 0) min x y)

pub bit_or_step : (x y : ℕ) → bit_or x y ≡ bit_or (x / 2) (y / 2) * 2 + max (x % 2) (y % 2)
bit_or_step zero y = simp bit_or-bitwise (omega arith)
bit_or_step (suc x) y = simp bit_or-bitwise (low_digit (λ t. t) max x y)
