-- ===== src/Base/Bits.antt =====
-- `&` and `|` as arithmetic, at every width: a mask is a run of digits, and disjoint fields add up.
mod Digits
use Digits.{bit_or_step, bit_and_step}
use Prim.Native.Nat.{
  ℕ, zero, suc, ◌+◌, ◌-◌, ◌*◌, ◌/◌, ◌%◌, ◌^◌, ◌≤◌, ◌<◌, bit_and, bit_or, bit_and-bitwise,
  bit_or-bitwise,
}
use mathlib.Core.Path.{◌≡◌, refl, ap}
use native.Mathlib.Omega.{arith}
use native.Mathlib.Nat.{pow-suc, one-le-pow, mod-eq_of_lt}

half_fuel_or : (n a : ℕ) → a ≤ n → bit_or a 0 ≡ a
half_fuel_or n zero h = refl
half_fuel_or zero (suc a) h = absurd (omega arith)
half_fuel_or (suc n) (suc a) h =
    omega (arith, bit_or_step (suc a) 0, half_fuel_or n (suc a / 2) (omega arith))

half_fuel_and : (n a : ℕ) → a ≤ n → bit_and a 0 ≡ 0
half_fuel_and n zero h = refl
half_fuel_and zero (suc a) h = absurd (omega arith)
half_fuel_and (suc n) (suc a) h =
    omega (arith, bit_and_step (suc a) 0, half_fuel_and n (suc a / 2) (omega arith))

pub bit_or-zero : (a : ℕ) → bit_or a 0 ≡ a
bit_or-zero a = half_fuel_or a a (omega arith)

pub bit_and-zero : (a : ℕ) → bit_and a 0 ≡ 0
bit_and-zero a = half_fuel_and a a (omega arith)

pub zero-bit_and : (a : ℕ) → bit_and 0 a ≡ 0
zero-bit_and a = bit_and-bitwise 0 a

doubled : (q k : ℕ) → q * 2 ^ suc k ≡ 2 * (q * 2 ^ k)
doubled q k = omega (arith, ap (λ (t : ℕ). q * t) (pow-suc 2 k))

-- Both operands cut at bit k.
pub bit_and_fields :
    (k q r p s : ℕ)
    → r < 2 ^ k
    → s < 2 ^ k
    → bit_and (q * 2 ^ k + r) (p * 2 ^ k + s) ≡ bit_and q p * 2 ^ k + bit_and r s
bit_and_fields zero q r p s hr hs = ground (arith, bit_and-zero 0)
bit_and_fields (suc k) q r p s hr hs = ground (
  arith,
  bit_and_step (q * 2 ^ suc k + r) (p * 2 ^ suc k + s),
  bit_and_step r s,
  doubled q k,
  doubled p k,
  doubled (bit_and q p) k,
  pow-suc 2 k,
  bit_and_fields k q (r / 2) p (s / 2) (omega (arith, pow-suc 2 k)) (omega (arith, pow-suc 2 k)),
)

pub bit_or_fields :
    (k q r p s : ℕ)
    → r < 2 ^ k
    → s < 2 ^ k
    → bit_or (q * 2 ^ k + r) (p * 2 ^ k + s) ≡ bit_or q p * 2 ^ k + bit_or r s
bit_or_fields zero q r p s hr hs = ground (arith, bit_or-zero 0)
bit_or_fields (suc k) q r p s hr hs = ground (
  arith,
  bit_or_step (q * 2 ^ suc k + r) (p * 2 ^ suc k + s),
  bit_or_step r s,
  doubled q k,
  doubled p k,
  doubled (bit_or q p) k,
  pow-suc 2 k,
  bit_or_fields k q (r / 2) p (s / 2) (omega (arith, pow-suc 2 k)) (omega (arith, pow-suc 2 k)),
)

zero-bit_or : (a : ℕ) → bit_or 0 a ≡ a
zero-bit_or a = bit_or-bitwise 0 a

bit_and_ones_below : (k r : ℕ) → r < 2 ^ k → bit_and r (2 ^ k - 1) ≡ r
bit_and_ones_below zero r h = rw bit_and-zero (omega arith)
bit_and_ones_below (suc k) r h = ground (
  arith,
  bit_and_step r (2 ^ suc k - 1),
  pow-suc 2 k,
  one-le-pow k 2,
  bit_and_ones_below k (r / 2) (omega (arith, pow-suc 2 k)),
)

-- A mask of k low bits is the remainder by 2 ^ k.
pub bit_and_ones : (k a : ℕ) → bit_and a (2 ^ k - 1) ≡ a % 2 ^ k
bit_and_ones k a = ground (
  arith,
  one-le-pow k 2,
  bit_and_fields k (a / 2 ^ k) (a % 2 ^ k) 0 (2 ^ k - 1),
  bit_and-zero (a / 2 ^ k),
  bit_and_ones_below k (a % 2 ^ k),
)

-- A mask cut at bit k masks the two parts of a number.
pub bit_and_cut :
    (k a p s : ℕ)
    → s < 2 ^ k
    → bit_and a (p * 2 ^ k + s) ≡ bit_and (a / 2 ^ k) p * 2 ^ k + bit_and (a % 2 ^ k) s
bit_and_cut k a p s h = ground (arith, one-le-pow k 2, bit_and_fields k (a / 2 ^ k) (a % 2 ^ k) p s)

-- A field of w bits below a number whose low bits are clear is added to it.
pub bit_or_low : (w a m : ℕ) → a % 2 ^ w ≡ 0 → m < 2 ^ w → bit_or a m ≡ a + m
bit_or_low w a m clear fits = ground (
  arith,
  one-le-pow w 2,
  bit_or_fields w (a / 2 ^ w) 0 0 m,
  bit_or-zero (a / 2 ^ w),
  zero-bit_or m,
)

-- A field of w bits put at bit k of a number whose bits there are clear is added to it.
pub bit_or_field :
    (k w a m : ℕ) → a / 2 ^ k % 2 ^ w ≡ 0 → m < 2 ^ w → bit_or a (m * 2 ^ k) ≡ a + m * 2 ^ k
bit_or_field k w a m clear fits = ground (
  arith,
  one-le-pow k 2,
  one-le-pow w 2,
  bit_or_fields k (a / 2 ^ k) (a % 2 ^ k) m 0,
  bit_or-zero (a % 2 ^ k),
  ap (λ (t : ℕ). t * 2 ^ k) (bit_or_low w (a / 2 ^ k) m clear fits),
)

-- `a | m << k` on uint64.
pub or_shifted :
    (k w a m : ℕ)
    → a / 2 ^ k % 2 ^ w ≡ 0
    → m < 2 ^ w
    → m * 2 ^ k < 2 ^ 64
    → bit_or a (m * 2 ^ k % 2 ^ 64) ≡ a + m * 2 ^ k
or_shifted k w a m clear fits small = rw (mod-eq_of_lt small) (bit_or_field k w a m clear fits)
