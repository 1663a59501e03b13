-- ===== src/Simd/Machine/Values.antt =====
-- What WebAssembly's core specification says of values, of the memory's bytes and of the operations on
-- the operand stack. A 32-bit integer is its pattern, a number below 2 ^ 32.
use asmgen.Base.{
  ℕ, zero, suc, ◌+◌, ◌-◌, ◌*◌, ◌/◌, ◌%◌, ◌^◌, Bool, not, List, [], ◌∷◌, ◌++◌, map, ltb, leb, ◌==◌,
  if◌then◌else◌, bit_and, bit_or, Option, none, some,
}
use asmgen.Base.Int.{ℤ, pos, negsuc}
use asmgen.Base.Text.{Bytes}
use asmgen.Simd.Code.{Op}
use asmgen.Simd.Lanes.{
  zip, eq_lane, gt_u_lane, ge_s_lane, le_s_lane, add_lane, sub_lane, repeat, bitmask, all_true,
  ones, trailing, byte_at, swizzle, shl, shr_u, lanes16, bytes16, lanes32, bytes32, pairwise,
  saturated, take, drop,
}

pub data Value : Type 0 where
  word : ℕ → Value
  vec : Bytes → Value

-- Addresses from `size` on are no memory. What is read at an address is its number modulo 256.
pub record Memory : Type 0 where
  pub size : ℕ
  pub byte : ℕ → ℕ

-- The n bytes from address a on.
unfoldable pub bytes_at : Memory → ℕ → ℕ → Bytes
bytes_at m a zero = []
bytes_at m a (suc n) = m.byte a % 256 ∷ bytes_at m (a + 1) n

abbrev pub write_byte : (ℕ → ℕ) → ℕ → ℕ → ℕ → ℕ
write_byte f a x k = if k == a then x else f k

unfoldable pub write_bytes : (ℕ → ℕ) → ℕ → Bytes → ℕ → ℕ
write_bytes f a [] = f
write_bytes f a (x ∷ xs) = write_bytes (write_byte f a x) (a + 1) xs

-- An immediate of 32 bits.
abbrev pub pattern32 : ℤ → ℕ
pattern32 (pos n) = n % 2 ^ 32
pattern32 (negsuc n) = 2 ^ 32 - 1 - n % 2 ^ 32

abbrev pub immediate : ℤ → ℕ
immediate (pos n) = n
immediate (negsuc n) = 0

-- x as a signed integer, moved up by 2 ^ 31.
abbrev pub signed32 : ℕ → ℕ
signed32 x = (x + 2 ^ 31) % 2 ^ 32

abbrev pub truth : Bool → ℕ
truth b = if b then 1 else 0

-- What an operation on the top of the stack leaves there; `none` is an operand of the wrong type.
abbrev pub on_word : (ℕ → Value) → List Value → Option (List Value)
on_word f (word a ∷ st) = some (f a ∷ st)
on_word f _ = none

abbrev pub on_words : (ℕ → ℕ → Value) → List Value → Option (List Value)
on_words f (word b ∷ word a ∷ st) = some (f a b ∷ st)
on_words f _ = none

abbrev pub on_vec : (Bytes → Value) → List Value → Option (List Value)
on_vec f (vec a ∷ st) = some (f a ∷ st)
on_vec f _ = none

abbrev pub on_vecs : (Bytes → Bytes → Value) → List Value → Option (List Value)
on_vecs f (vec b ∷ vec a ∷ st) = some (f a b ∷ st)
on_vecs f _ = none

abbrev pub on_vec_word : (ℕ → Bytes → Value) → List Value → Option (List Value)
on_vec_word f (word n ∷ vec a ∷ st) = some (f n a ∷ st)
on_vec_word f _ = none

-- The operations that only change the stack.
abbrev pub compute : Op → List Value → Option (List Value)
compute (Op.i32_const v) st = some (word (pattern32 v) ∷ st)
compute Op.i32_add st = on_words (λ a b. word ((a + b) % 2 ^ 32)) st
compute Op.i32_sub st = on_words (λ a b. word ((a + 2 ^ 32 - b) % 2 ^ 32)) st
compute Op.i32_mul st = on_words (λ a b. word (a * b % 2 ^ 32)) st
compute Op.i32_eqz st = on_word (λ a. word (truth (a == 0))) st
compute Op.i32_ne st = on_words (λ a b. word (truth (not (a == b)))) st
compute Op.i32_gt_s st = on_words (λ a b. word (truth (ltb (signed32 b) (signed32 a)))) st
compute Op.i32_ge_s st = on_words (λ a b. word (truth (leb (signed32 b) (signed32 a)))) st
compute Op.i32_ctz st = on_word (λ a. word (trailing 32 a)) st
compute Op.i32_popcnt st = on_word (λ a. word (ones 32 a)) st
compute (Op.v128_const16 b) st = some (vec b ∷ st)
compute Op.v128_zero st = some (vec (repeat 16 0) ∷ st)
compute Op.v128_and st = on_vecs (λ a b. vec (zip (λ x y. bit_and x y) a b)) st
compute Op.v128_or st = on_vecs (λ a b. vec (zip (λ x y. bit_or x y) a b)) st
compute Op.i8x16_eq st = on_vecs (λ a b. vec (zip eq_lane a b)) st
compute Op.i8x16_gt_u st = on_vecs (λ a b. vec (zip gt_u_lane a b)) st
compute Op.i8x16_ge_s st = on_vecs (λ a b. vec (zip ge_s_lane a b)) st
compute Op.i8x16_le_s st = on_vecs (λ a b. vec (zip le_s_lane a b)) st
compute Op.i8x16_add st = on_vecs (λ a b. vec (zip add_lane a b)) st
compute Op.i8x16_sub st = on_vecs (λ a b. vec (zip sub_lane a b)) st
compute Op.i8x16_splat st = on_word (λ a. vec (repeat 16 (a % 256))) st
compute Op.i8x16_bitmask st = on_vec (λ a. word (bitmask a)) st
compute Op.i8x16_all_true st = on_vec (λ a. word (truth (all_true a))) st
compute Op.i8x16_popcnt st = on_vec (λ a. vec (map (ones 8) a)) st
compute Op.i8x16_swizzle st = on_vecs (λ a b. vec (swizzle a b)) st
compute Op.i8x16_shl st = on_vec_word (λ n a. vec (shl n a)) st
compute Op.i8x16_shr_u st = on_vec_word (λ n a. vec (shr_u n a)) st
compute (Op.i8x16_shuffle imm) st = on_vecs (λ a b. vec (map (byte_at (a ++ b)) imm)) st
compute Op.i16x8_mul st =
    on_vecs (λ a b. vec (bytes16 (zip (λ x y. x * y) (lanes16 a) (lanes16 b)))) st
compute Op.i16x8_narrow_i32x4_u st =
    on_vecs (λ a b. vec (bytes16 (map saturated (lanes32 a ++ lanes32 b)))) st
compute Op.i16x8_extadd_pairwise_i8x16_u st = on_vec (λ a. vec (bytes16 (pairwise a))) st
compute Op.i16x8_extmul_low_i8x16_u st =
    on_vecs (λ a b. vec (bytes16 (zip (λ x y. x * y) (take 8 a) (take 8 b)))) st
compute Op.i16x8_extmul_high_i8x16_u st =
    on_vecs (λ a b. vec (bytes16 (zip (λ x y. x * y) (drop 8 a) (drop 8 b)))) st
compute Op.i32x4_add st =
    on_vecs (λ a b. vec (bytes32 (zip (λ x y. x + y) (lanes32 a) (lanes32 b)))) st
compute Op.i32x4_shr_u st =
    on_vec_word (λ n a. vec (bytes32 (map (λ x. x / 2 ^ (n % 32)) (lanes32 a)))) st
compute Op.i32x4_extadd_pairwise_i16x8_u st = on_vec (λ a. vec (bytes32 (pairwise (lanes16 a)))) st
compute Op.i32x4_extmul_low_i16x8_u st =
    on_vecs (λ a b. vec (bytes32 (zip (λ x y. x * y) (take 4 (lanes16 a)) (take 4 (lanes16 b))))) st
compute Op.i32x4_extmul_high_i16x8_u st =
    on_vecs (λ a b. vec (bytes32 (zip (λ x y. x * y) (drop 4 (lanes16 a)) (drop 4 (lanes16 b))))) st
compute (Op.i32x4_extract_lane k) st = on_vec (λ a. word (byte_at (lanes32 a) (immediate k))) st
compute _ st = none

abbrev pub first_byte : Bytes → ℕ
first_byte v = byte_at v 0
