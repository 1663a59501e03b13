-- ===== src/Base/Text.antt =====
-- Go strings as lists of bytes, and what the program uses of strconv and fmt: decimal and
-- hexadecimal numbers (`strconv.Itoa`, `%d`, `%x`, `%0*x`), padding, `strconv.ParseUint`.
pub mod Digits
pub mod HexBytes
use Prim.Native.Char.{code}
use Prim.Native.String.{String}
use asmgen.Base.Tests.{ltb, leb, ◌==◌, if◌then◌else◌}
use asmgen.Base.Int.{ℤ, pos, negsuc}
use asmgen.Base.Lists.{length}
use Prim.Native.Nat.{ℕ, zero, suc, ◌+◌, ◌-◌, ◌*◌, ◌/◌, ◌%◌, ◌^◌}
use mathlib.Core.Bool.{◌&&◌}
use mathlib.Core.Path.{◌≡◌, refl}
use mathlib.Core.List.{List, [], ◌∷◌, ◌++◌}
use mathlib.Core.Option.{Option, none, some}

abbrev pub Bytes : Type 0
Bytes = List ℕ

-- The bytes of an ASCII literal.
abbrev pub codes : String → Bytes
codes String.[] = []
codes (String.◌∷◌ c s) = code c ∷ codes s

-- "\n" and "\t".
abbrev pub newline : Bytes
newline = 10 ∷ []

abbrev pub tab : Bytes
tab = 9 ∷ []

-- The digit for a value below 16, in lower case.
unfoldable pub digit_char : ℕ → ℕ
digit_char d = if ltb d 10 then b'0' + d else d - 10 + b'a'

-- The digits of n in base b; a round divides n by b, so n + 1 rounds are enough.
pub digits_loop : ℕ → ℕ → ℕ → Bytes
digits_loop zero b n = []
digits_loop (suc fuel) b n =
    let more = digits_loop fuel b (n / b) ++ (digit_char (n % b) ∷ []) in
    if ltb n b then digit_char n ∷ [] else more

pub digits : ℕ → ℕ → Bytes
unfolding digits_loop digit_char
digits b n = digits_loop (suc n) b n

-- strconv.Itoa of a number that is not negative.
unfoldable pub itoa : ℕ → Bytes
unfolding digits
itoa n = digits 10 n

-- `%d` of an `int`, given by its bit pattern.
unfoldable pub fmt_int : ℕ → Bytes
unfolding itoa
fmt_int w = if ltb w (2 ^ 63) then itoa w else b'-' ∷ itoa (2 ^ 64 - w)

-- `%d` of an `int` given as an integer, and strconv.Itoa of one.
unfoldable pub fmt_ℤ : ℤ → Bytes
unfolding itoa
fmt_ℤ (pos n) = itoa n
fmt_ℤ (negsuc n) = b'-' ∷ itoa (suc n)

abbrev pub pad_zeros : ℕ → Bytes → Bytes
pad_zeros zero s = s
pad_zeros (suc n) s = b'0' ∷ pad_zeros n s

-- `%0*x`: at least `width` digits, filled with zeros on the left.
unfoldable pub fmt_hex : ℕ → ℕ → Bytes
unfolding digits
fmt_hex width n = let s = digits 16 n in pad_zeros (width - length s) s

-- The value of a digit of base 16, in either case.
pub digit_value : ℕ → Option ℕ
digit_value c =
    if leb b'0' c && leb c b'9'
    then some (c - b'0')
    else if leb b'a' c && leb c b'f'
    then some (c - b'a' + 10)
    else if leb b'A' c && leb c b'F'
    then some (c - b'A' + 10)
    else none

-- The loop of strconv.ParseUint(s, b, 64): it refuses a byte that is no digit of base b, and a
-- value above 2 ^ 64 - 1.
unfoldable pub parse_loop : ℕ → ℕ → Bytes → Option ℕ
unfolding digit_value
parse_loop b n [] = some n
parse_loop b n (c ∷ s) = elim (digit_value c) [
  | none ↦ none
  | some d ↦
      let rest = parse_loop b (n * b + d) s in
      if ltb d b && ltb (n * b + d) (2 ^ 64) then rest else none
]

unfoldable pub parse_uint : ℕ → Bytes → Option ℕ
unfolding parse_loop
parse_uint b [] = none
parse_uint b (c ∷ s) = parse_loop b 0 (c ∷ s)
