-- ===== src/Abi/Align.antt =====
-- `Align` against its meaning: the least multiple of a power of two that is not below n.
use native.Mathlib.Nat.{one-le-pow, div-add-mod, div-lt_iff_lt-mul, mul-mod_left, mod-lt}
use asmgen.Base.{
  ℕ, zero, suc, ◌+◌, ◌-◌, ◌*◌, ◌/◌, ◌%◌, ◌^◌, ◌≤◌, ◌<◌, ◌≡◌, ◌⊎◌, inl, inr, arith, add64, sub64,
}
use asmgen.Base.Bits.{bit_and_ones}
use asmgen.Abi.{align}

-- `o` is the least multiple of `a` from `n` on.
abbrev pub IsLeastAligned : ℕ → ℕ → ℕ → Type 0
IsLeastAligned n a o = (n ≤ o) × (o % a ≡ 0) × ((m : ℕ) → n ≤ m → m % a ≡ 0 → o ≤ m)

-- `Align` with the mask read as a remainder.
pub align-sub-mod :
    (n k : ℕ)
    → n + 2 ^ k ≤ 2 ^ 64
    → 2 ^ k ≤ 2 ^ 63
    → align n (2 ^ k) ≡ n + 2 ^ k - 1 - (n + 2 ^ k - 1) % 2 ^ k
unfolding align
align-sub-mod n k fits small =
    let p = one-le-pow k 2 (omega arith) in
    let left : sub64 (add64 n (2 ^ k)) 1 ≡ n + 2 ^ k - 1 = omega arith in
    let right : sub64 (2 ^ k) 1 ≡ 2 ^ k - 1 = omega arith in
    rw (left, right, bit_and_ones k (n + 2 ^ k - 1))

-- x rounded down to a multiple of p.
round_down : (x p : ℕ) → x - x % p ≡ x / p * p
round_down x p = omega (arith, div-add-mod x p)

below_next : (n p m : ℕ) → 1 ≤ p → n ≤ m → m % p ≡ 0 → n + p - 1 < (m / p + 1) * p
below_next n p m h hm aligned = omega (arith, div-add-mod m p)

quotient_le : (n p m : ℕ) → 1 ≤ p → n ≤ m → m % p ≡ 0 → (n + p - 1) / p ≤ m / p
quotient_le n p m h hm aligned =
    omega (arith, (div-lt_iff_lt-mul {x = n + p - 1} h).1 (below_next n p m h hm aligned))

least_multiple : (n p : ℕ) → 1 ≤ p → IsLeastAligned n p (n + p - 1 - (n + p - 1) % p)
least_multiple n p h = (
  omega (arith, mod-lt (n + p - 1) h),
  rw (round_down (n + p - 1) p) (mul-mod_left _ p),
  λ m hm aligned.
      rw (round_down (n + p - 1) p)
        (grind (arith, quotient_le n p m h hm aligned, div-add-mod m p, aligned)),
)

-- For n + 2 ^ k within 2 ^ 64 and 2 ^ k within 2 ^ 63, `Align` of n to 2 ^ k is the least multiple
-- of 2 ^ k that is not below n.
pub align_least :
    (n k : ℕ) → n + 2 ^ k ≤ 2 ^ 64 → 2 ^ k ≤ 2 ^ 63 → IsLeastAligned n (2 ^ k) (align n (2 ^ k))
align_least n k fits small =
    rw (align-sub-mod n k fits small) (least_multiple n (2 ^ k) (one-le-pow k 2 (omega arith)))

pub align-lt : (n k : ℕ) → n + 2 ^ k ≤ 2 ^ 64 → 2 ^ k ≤ 2 ^ 63 → align n (2 ^ k) < n + 2 ^ k
align-lt n k fits small =
    rw (align-sub-mod n k fits small) (omega (arith, one-le-pow k 2 (omega arith)))

-- The sizes of Go's scalars.
abbrev pub IsScalarSize : ℕ → Type 0
IsScalarSize s = (s ≡ 1) ⊎ (s ≡ 2) ⊎ (s ≡ 4) ⊎ (s ≡ 8)

pub exponent : (s : ℕ) → IsScalarSize s → (k : ℕ) × (k ≤ 3) × (s ≡ 2 ^ k)
exponent s (inl e) = (0, omega arith, e)
exponent s (inr (inl e)) = (1, omega arith, e)
exponent s (inr (inr (inl e))) = (2, omega arith, e)
exponent s (inr (inr (inr e))) = (3, omega arith, e)

pub small_exponent : (k : ℕ) → k ≤ 3 → 2 ^ k ≤ 8
small_exponent zero h = omega arith
small_exponent (suc zero) h = omega arith
small_exponent (suc (suc zero)) h = omega arith
small_exponent (suc (suc (suc zero))) h = omega arith
small_exponent (suc (suc (suc (suc k)))) h = absurd (omega arith)

-- `Align` at the size of a scalar, below 2 ^ 63.
pub align_scalar :
    (n s : ℕ) → IsScalarSize s → n < 2 ^ 63 → IsLeastAligned n s (align n s) × (align n s < n + s)
align_scalar n s size h =
    let (k, le, e) = exponent s size in
    let b = small_exponent k le in
    rw e (align_least n k (omega arith) (omega arith), align-lt n k (omega arith) (omega arith))
