-- ===== src/Base/Text/Digits.antt =====
-- Numbers are read back from their digits.
use Prim.Native.Nat.{ℕ, zero, suc, ◌+◌, ◌-◌, ◌*◌, ◌/◌, ◌%◌, ◌^◌, ◌≤◌, ◌<◌}
use mathlib.Core.Path.{◌≡◌, refl, ◌∙◌}
use mathlib.Core.Logic.{◌≢◌, inl, inr}
use mathlib.Core.List.{[], ◌∷◌, ◌++◌, append_assoc, append-nil, concat-ne-nil}
use mathlib.Core.Option.{some}
use mathlib.Core.Bool.{true}
use native.Mathlib.Omega.{arith}
use native.Mathlib.Nat.{mod-lt, div-lt_self, div-add-mod, pow-suc}
use asmgen.Base.Tests.{ltb, Bool-cases}
use asmgen.Base.Lists.{length, length-append, All, All-append}
use asmgen.Base.Text.{
  Bytes, digit_char, digits_loop, digits, itoa, fmt_int, fmt_hex, pad_zeros, digit_value,
  parse_loop, parse_uint,
}

digit_value-digit_char : (d : ℕ) → d < 16 → digit_value (digit_char d) ≡ some d
unfolding digit_value digit_char
digit_value-digit_char d h = ground arith

pub parse_digit :
    (b n d : ℕ) (s : Bytes)
    → b ≤ 16
    → d < b
    → n * b + d < 2 ^ 64
    → parse_loop b n (digit_char d ∷ s) ≡ parse_loop b (n * b + d) s
unfolding parse_loop
parse_digit b n d s hb hd fits = ground (arith, digit_value-digit_char d)

parse_zero : (b : ℕ) (s : Bytes) → 2 ≤ b → b ≤ 16 → parse_loop b 0 (b'0' ∷ s) ≡ parse_loop b 0 s
unfolding digit_char
parse_zero b s h h' = ground (arith, parse_digit b 0 0 s h')

quotient_smaller : (b n : ℕ) → 2 ≤ b → b ≤ n → n / b < n
quotient_smaller b n h k = div-lt_self (omega arith) (omega arith)

div-mul_bound : (n b : ℕ) → n / b * b + n % b ≡ n
div-mul_bound n b = grind (arith, div-add-mod n b)

pub mod_bound : (n b : ℕ) → 2 ≤ b → n % b < b
mod_bound n b h = mod-lt n (omega arith)

-- The parser reads the digits of n behind the value 0, whatever follows them.
parse-digits_loop :
    (fuel b n : ℕ) (s : Bytes)
    → 2 ≤ b
    → b ≤ 16
    → n < fuel
    → n < 2 ^ 64
    → parse_loop b 0 (digits_loop fuel b n ++ s) ≡ parse_loop b n s
unfolding digits_loop
parse-digits_loop zero b n s hb hb' hf hn = absurd (omega arith)
parse-digits_loop (suc fuel) b n s hb hb' hf hn = elim (Bool-cases (ltb n b)) [
  | inl last ↦ rw last (ground (arith, parse_digit b 0 n s))
  | inr more ↦ rw more (
      ground (
        arith,
        append_assoc (digits_loop fuel b (n / b)) (digit_char (n % b) ∷ []) s,
        quotient_smaller b n,
        parse-digits_loop fuel b (n / b) (digit_char (n % b) ∷ s) hb hb',
        parse_digit b (n / b) (n % b) s hb',
        mod_bound n b,
        div-mul_bound n b,
      ))
]

parse-pad_zeros :
    (k b : ℕ) (s : Bytes) → 2 ≤ b → b ≤ 16 → parse_loop b 0 (pad_zeros k s) ≡ parse_loop b 0 s
parse-pad_zeros zero b s h h' = refl
parse-pad_zeros (suc k) b s h h' =
    ground (arith, parse_zero b (pad_zeros k s), parse-pad_zeros k b s)

digits-ne-nil : (b n : ℕ) → digits b n ≢ []
unfolding digits digits_loop
digits-ne-nil b n = ground (arith, concat-ne-nil (digit_char (n % b)) (digits_loop n b (n / b)))

pub parse-uint_loop : (b : ℕ) (s : Bytes) → s ≢ [] → parse_uint b s ≡ parse_loop b 0 s
unfolding parse_uint
parse-uint_loop b [] h = absurd (h refl)
parse-uint_loop b (c ∷ s) h = refl

pad_zeros-ne-nil : (k : ℕ) (s : Bytes) → s ≢ [] → pad_zeros k s ≢ []
pad_zeros-ne-nil zero s h = h
pad_zeros-ne-nil (suc k) s h = cc

parse-digits : (b n : ℕ) → 2 ≤ b → b ≤ 16 → n < 2 ^ 64 → parse_loop b 0 (digits b n) ≡ some n
unfolding digits parse_loop
parse-digits b n h h' fits =
    rw (← append-nil (digits_loop (suc n) b n))
      (parse-digits_loop (suc n) b n [] h h' (omega arith) fits)

-- Every uint64 is read back from its padded hexadecimal print.
pub parse_uint-fmt_hex : (w n : ℕ) → n < 2 ^ 64 → parse_uint 16 (fmt_hex w n) ≡ some n
unfolding fmt_hex
parse_uint-fmt_hex w n fits =
    let k = w - length (digits 16 n) in
    parse-uint_loop 16 _ (pad_zeros-ne-nil k _ (digits-ne-nil 16 n))
    ∙ parse-pad_zeros k 16 (digits 16 n) (omega arith) (omega arith)
    ∙ parse-digits 16 n (omega arith) (omega arith) fits

-- Every uint64 is read back from its decimal print.
pub parse_uint-itoa : (n : ℕ) → n < 2 ^ 64 → parse_uint 10 (itoa n) ≡ some n
unfolding itoa
parse_uint-itoa n fits =
    rw (parse-uint_loop 10 _ (digits-ne-nil 10 n))
      (parse-digits 10 n (omega arith) (omega arith) fits)

-- Two numbers with one decimal print are equal.
pub itoa-injective : (m n : ℕ) → m < 2 ^ 64 → n < 2 ^ 64 → itoa m ≡ itoa n → m ≡ n
itoa-injective m n hm hn e = cc (parse_uint-itoa m hm, parse_uint-itoa n hn)

-- No byte of a printed number is a control character.
abbrev pub IsPrinted : Bytes → Type 0
IsPrinted s = All (λ (c : ℕ). 32 < c) s

digit_char-gt : (d : ℕ) → 32 < digit_char d
unfolding digit_char
digit_char-gt d = ground arith

digits_loop-IsPrinted : (fuel b n : ℕ) → IsPrinted (digits_loop fuel b n)
unfolding digits_loop
digits_loop-IsPrinted zero b n = tt
digits_loop-IsPrinted (suc fuel) b n = elim (Bool-cases (ltb n b)) [
  | inl small ↦ rw small (digit_char-gt n, tt)
  | inr large ↦ rw large (
      All-append (λ (c : ℕ). 32 < c) _ _ (digits_loop-IsPrinted fuel b (n / b))
        (digit_char-gt (n % b), tt))
]

pub fmt_int-IsPrinted : (w : ℕ) → IsPrinted (fmt_int w)
unfolding fmt_int itoa digits
fmt_int-IsPrinted w = elim (Bool-cases (ltb w (2 ^ 63))) [
  | inl small ↦ rw small (digits_loop-IsPrinted (suc w) 10 w)
  | inr large ↦ rw large (omega arith, digits_loop-IsPrinted (suc (2 ^ 64 - w)) 10 (2 ^ 64 - w))
]

length-digits_loop : (fuel n w : ℕ) → n < 16 ^ suc w → length (digits_loop fuel 16 n) ≤ suc w
unfolding digits_loop
length-digits_loop zero n w h = omega arith
length-digits_loop (suc fuel) n zero h =
    let small : ltb n 16 ≡ true = ground (arith, pow-suc 16 0) in rw small (omega arith)
length-digits_loop (suc fuel) n (suc w) h =
    let quotient : n / 16 < 16 ^ suc w = omega (arith, pow-suc 16 (suc w)) in
    let shorter = length-digits_loop fuel (n / 16) w quotient in
    elim (Bool-cases (ltb n 16)) [
      | inl small ↦ rw small (omega arith)
      | inr large ↦
          rw (large, length-append (digits_loop fuel 16 (n / 16)) (digit_char (n % 16) ∷ []))
            (omega arith)
    ]

length-pad_zeros : (k : ℕ) (s : Bytes) → length (pad_zeros k s) ≡ k + length s
length-pad_zeros zero s = omega arith
length-pad_zeros (suc k) s = omega (arith, length-pad_zeros k s)

-- A number that fits w > 0 hexadecimal digits is printed in exactly w.
pub length-fmt_hex : (w n : ℕ) → 1 ≤ w → n < 16 ^ w → length (fmt_hex w n) ≡ w
unfolding fmt_hex digits
length-fmt_hex zero n h fits = absurd (omega arith)
length-fmt_hex (suc w) n h fits =
    length-pad_zeros (suc w - length (digits 16 n)) (digits 16 n)
    ∙ omega (arith, length-digits_loop (suc n) n w fits)
