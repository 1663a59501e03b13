-- ===== src/Amd64/Feature/Masks.antt =====
-- The masks that the probes test, as single bits.
use asmgen.Base.{ℕ, ◌+◌, ◌*◌, ◌/◌, ◌%◌, ◌^◌, ◌≡◌, refl, not, ◌&&◌, ◌==◌, bit_and, arith, subst}
use asmgen.Base.Bits.{bit_and_cut, bit_and_ones, bit_and-zero}
use native.Mathlib.Nat.{one-le-pow}
use asmgen.Amd64.Machine.{bit}

-- A mask of one bit.
one_bit_cut : (k x : ℕ) → bit_and x (1 * 2 ^ k + 0) ≡ x / 2 ^ k % 2 * 2 ^ k
one_bit_cut k x =
    rw
      (
        bit_and_cut k x 1 0 (one-le-pow k 2 (omega arith)),
        bit_and_ones 1 (x / 2 ^ k),
        bit_and-zero (x % 2 ^ k),
      )
      (omega arith)

pub one_bit : (k x m : ℕ) → m ≡ 2 ^ k → bit_and x m ≡ x / 2 ^ k % 2 * 2 ^ k
one_bit k x m e =
    rw (e) (subst (λ t. bit_and x t ≡ x / 2 ^ k % 2 * 2 ^ k) (omega arith) (one_bit_cut k x))

pub popcnt_mask : (x : ℕ) → not (bit_and x 8388608 == 0) ≡ bit 23 x
popcnt_mask x = ground (arith, one_bit 23 x 8388608 refl)

pub avx2_mask : (x : ℕ) → not (bit_and x 32 == 0) ≡ bit 5 x
avx2_mask x = ground (arith, one_bit 5 x 32 refl)

pub avx512f_mask : (x : ℕ) → not (bit_and x 65536 == 0) ≡ bit 16 x
avx512f_mask x = ground (arith, one_bit 16 x 65536 refl)

pub avx_value : (x : ℕ) → bit_and x 402653184 ≡ x / 2 ^ 27 % 4 * 2 ^ 27
avx_value x = omega (
  arith,
  bit_and_cut 27 x 3 0 (omega arith),
  bit_and_ones 2 (x / 2 ^ 27),
  bit_and-zero (x % 2 ^ 27),
)

pub avx_mask : (x : ℕ) → (bit_and x 402653184 == 402653184) ≡ (bit 27 x && bit 28 x)
avx_mask x = ground (arith, avx_value x)

fma_value : (x : ℕ) → bit_and x 402657280 ≡ x / 2 ^ 27 % 4 * 2 ^ 27 + x / 2 ^ 12 % 2 * 2 ^ 12
fma_value x = omega (
  arith,
  bit_and_cut 27 x 3 4096 (omega arith),
  bit_and_ones 2 (x / 2 ^ 27),
  one_bit 12 (x % 2 ^ 27) 4096 refl,
)

pub fma_mask : (x : ℕ) → (bit_and x 402657280 == 402657280) ≡ (bit 12 x && (bit 27 x && bit 28 x))
fma_mask x = ground (arith, fma_value x)

ymm_value : (x : ℕ) → bit_and (x % 2 ^ 32) 6 ≡ x / 2 % 4 * 2
ymm_value x = omega (
  arith,
  bit_and_cut 1 (x % 2 ^ 32) 3 0 (omega arith),
  bit_and_ones 2 (x % 2 ^ 32 / 2),
  bit_and-zero (x % 2 ^ 32 % 2),
)

pub ymm_mask : (x : ℕ) → (bit_and (x % 2 ^ 32) 6 == 6) ≡ (bit 1 x && bit 2 x)
ymm_mask x = ground (arith, ymm_value x)

zmm_value : (x : ℕ) → bit_and (x % 2 ^ 32) 230 ≡ x / 2 ^ 5 % 8 * 2 ^ 5 + x / 2 % 4 * 2
zmm_value x = omega (
  arith,
  bit_and_cut 5 (x % 2 ^ 32) 7 6 (omega arith),
  bit_and_ones 3 (x % 2 ^ 32 / 2 ^ 5),
  bit_and_cut 1 (x % 2 ^ 32 % 2 ^ 5) 3 0 (omega arith),
  bit_and_ones 2 (x % 2 ^ 32 % 2 ^ 5 / 2),
  bit_and-zero (x % 2 ^ 32 % 2 ^ 5 % 2),
)

zmm_bits :
    (x : ℕ)
    → ((x / 2 ^ 5 % 8 * 2 ^ 5 + x / 2 % 4 * 2) == 230)
      ≡ (bit 1 x && bit 2 x && (bit 5 x && (bit 6 x && bit 7 x)))
zmm_bits x = ground arith

pub zmm_mask :
    (x : ℕ)
    → (bit_and (x % 2 ^ 32) 230 == 230) ≡ (bit 1 x && bit 2 x && (bit 5 x && (bit 6 x && bit 7 x)))
zmm_mask x = rw (zmm_value x) (zmm_bits x)
