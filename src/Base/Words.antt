-- ===== src/Base/Words.antt =====
-- Go's fixed-width integers as bit patterns: an `int` or a `uint64` is a number below 2 ^ 64.
use Prim.Native.Nat.{ℕ, ◌+◌, ◌-◌, ◌*◌, ◌/◌, ◌%◌, ◌^◌, bit_and, bit_or}
use mathlib.Core.Bool.{Bool}
use asmgen.Base.Tests.{ltb}

abbrev pub u64_mod : ℕ
u64_mod = 2 ^ 64

-- a + b and a - b on 64 bits; `-` on ℕ is truncated, so the modulus is added first.
abbrev pub add64 : ℕ → ℕ → ℕ
add64 a b = (a + b) % u64_mod

abbrev pub sub64 : ℕ → ℕ → ℕ
sub64 a b = (a + u64_mod - b) % u64_mod

-- a &^ b: the bits of a that are not in b.
abbrev pub and_not : ℕ → ℕ → ℕ
and_not a b = a - bit_and a b

-- a < b for the signed values that the patterns stand for.
abbrev pub lt_int : ℕ → ℕ → Bool
lt_int a b = ltb (add64 a (2 ^ 63)) (add64 b (2 ^ 63))

-- a << k and a >> k, a & b and a | b on uint64, with Go's two levels of precedence.
infixl 70 ◌<<<◌ ◌>>>◌ ◌&&&◌
infixl 65 ◌|||◌
abbrev pub ◌<<<◌ : ℕ → ℕ → ℕ
a <<< k = a * 2 ^ k % u64_mod

abbrev pub ◌>>>◌ : ℕ → ℕ → ℕ
a >>> k = a / 2 ^ k

abbrev pub ◌&&&◌ : ℕ → ℕ → ℕ
a &&& b = bit_and a b

abbrev pub ◌|||◌ : ℕ → ℕ → ℕ
a ||| b = bit_or a b
