-- ===== src/Base/Text/HexBytes.antt =====
-- A byte as two hexadecimal digits, and texts made of them.
use Prim.Native.Nat.{ℕ, zero, suc, ◌+◌, ◌-◌, ◌*◌, ◌/◌, ◌%◌, ◌^◌, ◌≤◌, ◌<◌}
use mathlib.Core.Path.{◌≡◌, refl}
use mathlib.Core.Logic.{◌⊎◌, inl, inr}
use mathlib.Core.List.{[], ◌∷◌, ◌++◌}
use native.Mathlib.Omega.{arith}
use asmgen.Base.Tests.{ltb, Bool-cases}
use asmgen.Base.Lists.{length, All, All-append}
use asmgen.Base.Text.{Bytes, digit_char, digits_loop, digits, itoa, fmt_hex, pad_zeros, parse_loop}
use asmgen.Base.Text.Digits.{parse_digit, mod_bound}

pub fmt_hex-byte : (b : ℕ) → b < 256 → fmt_hex 2 b ≡ digit_char (b / 16) ∷ digit_char (b % 16) ∷ []
unfolding fmt_hex digits digits_loop digit_char
fmt_hex-byte zero h = refl
fmt_hex-byte (suc k) h = elim (Bool-cases (ltb (suc k) 16)) [
  | inl small ↦ ground arith
  | inr large ↦ ground arith
]

pub parse-byte :
    (n b : ℕ) (s : Bytes)
    → b < 256
    → n * 256 + b < 2 ^ 64
    → parse_loop 16 n (fmt_hex 2 b ++ s) ≡ parse_loop 16 (n * 256 + b) s
parse-byte n b s h fits = rw (fmt_hex-byte b h) (
    ground (
      arith,
      parse_digit 16 n (b / 16) (digit_char (b % 16) ∷ s),
      parse_digit 16 (n * 16 + b / 16) (b % 16) s,
    ))

-- A digit of base 16 in lower case.
abbrev pub IsHexDigit : ℕ → Type 0
IsHexDigit c = ((48 ≤ c) × (c ≤ 57)) ⊎ ((97 ≤ c) × (c ≤ 102))

digit_char-IsHexDigit : (d : ℕ) → d < 16 → IsHexDigit (digit_char d)
unfolding digit_char
digit_char-IsHexDigit d h = elim (Bool-cases (ltb d 10)) [
  | inl e ↦ inl (ground arith)
  | inr e ↦ inr (ground arith)
]

digits_loop-hex : (fuel b n : ℕ) → 2 ≤ b → b ≤ 16 → All IsHexDigit (digits_loop fuel b n)
unfolding digits_loop
digits_loop-hex zero b n h h' = tt
digits_loop-hex (suc fuel) b n h h' = elim (Bool-cases (ltb n b)) [
  | inl e ↦ rw (e, digits_loop) (digit_char-IsHexDigit n (ground arith), tt)
  | inr e ↦
      rw (e, digits_loop)
        (All-append IsHexDigit (digits_loop fuel b (n / b)) (digit_char (n % b) ∷ [])
          (digits_loop-hex fuel b (n / b) h h')
          (digit_char-IsHexDigit (n % b) (omega (arith, mod_bound n b h)), tt))
]

pub itoa-hex : (n : ℕ) → All IsHexDigit (itoa n)
unfolding itoa digits
itoa-hex n = digits_loop-hex (suc n) 10 n (omega arith) (omega arith)

pad_zeros-hex : (k : ℕ) (s : Bytes) → All IsHexDigit s → All IsHexDigit (pad_zeros k s)
pad_zeros-hex zero s h = h
pad_zeros-hex (suc k) s h = (inl (omega arith, omega arith), pad_zeros-hex k s h)

pub fmt_hex-hex : (w n : ℕ) → All IsHexDigit (fmt_hex w n)
unfolding fmt_hex digits
fmt_hex-hex w n =
    pad_zeros-hex (w - length (digits 16 n)) (digits 16 n)
      (digits_loop-hex (suc n) 16 n (omega arith) (omega arith))
