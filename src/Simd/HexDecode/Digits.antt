-- ===== src/Simd/HexDecode/Digits.antt =====
-- examples/wasm/hex_decode/main.go: digits as the lanes of a vector.
use asmgen.Base.{
  ℕ, zero, suc, ◌-◌, ◌*◌, ◌%◌, ◌^◌, ◌<◌, ◌≡◌, refl, [], ◌∷◌, ◌++◌, arith, ap, ap₂, ◌∙◌, length, All,
  bit_and, bit_or, leb, ltb, ltb→lt, ◌&&◌, map, if◌then◌else◌,
}
use asmgen.Base.Text.{Bytes}
use asmgen.Simd.Pointwise.{
  zip-broadcast, zip-map, zip_self, map-map, map-congr, length-map, below, below_lem,
}
use asmgen.Simd.Code.{broadcast}
use asmgen.Simd.Machine.{Memory, bytes_at}
use asmgen.Simd.Blocks.{length-bytes_at, bytes_at-IsByte}
use asmgen.Simd.Lanes.{zip, ge_s_lane, le_s_lane, sub_lane, byte_at, shl, take, drop}
use asmgen.Simd.HexDecode.{
  c0, c9, c_upper_a, c_upper_f, c_lower_a, c_lower_f, off48, off55, off87, shuf_hi, shuf_lo,
}

-- What a character is taken for: a hexadecimal digit of either case for its value, and any other
-- character for itself.
abbrev pub nibble : ℕ → ℕ
nibble x =
    if leb b'0' x && leb x b'9'
    then x - 48
    else if leb b'A' x && leb x b'F'
    then x - 55
    else if leb b'a' x && leb x b'f'
    then x - 87
    else x

-- One byte of every two characters.
abbrev paired : (ℕ → ℕ) → Bytes → Bytes
paired f [] = []
paired f (a ∷ []) = []
paired f (a ∷ b ∷ v) = bit_or (f a * 2 ^ 4 % 256) (f b) ∷ paired f v

abbrev pub unhex : Bytes → Bytes
unhex = paired nibble

-- The vectors of a round.
abbrev and_lanes : Bytes → Bytes → Bytes
and_lanes a b = zip (λ x y. bit_and x y) a b

abbrev or_lanes : Bytes → Bytes → Bytes
or_lanes a b = zip (λ x y. bit_or x y) a b

abbrev pub digit : Bytes → Bytes
digit v = and_lanes (zip ge_s_lane v c0) (zip le_s_lane v c9)

abbrev pub upper : Bytes → Bytes
upper v = and_lanes (zip ge_s_lane v c_upper_a) (zip le_s_lane v c_upper_f)

abbrev pub lower : Bytes → Bytes
lower v = and_lanes (zip ge_s_lane v c_lower_a) (zip le_s_lane v c_lower_f)

abbrev pub offset : Bytes → Bytes
offset v =
    or_lanes (or_lanes (and_lanes (digit v) off48) (and_lanes (upper v) off55))
      (and_lanes (lower v) off87)

abbrev pub nibbles : Bytes → Bytes
nibbles v = zip sub_lane v (offset v)

abbrev pub packed : Bytes → Bytes
packed w = or_lanes (shl 4 (map (byte_at (w ++ w)) shuf_hi)) (map (byte_at (w ++ w)) shuf_lo)

-- A lane's offset in one of the three ranges.
abbrev ranged : ℕ → ℕ → ℕ → ℕ → ℕ
ranged low high off x = bit_and (bit_and (ge_s_lane x low) (le_s_lane x high)) off

ranged_lem :
    (v : Bytes) (low high off : ℕ)
    → length v ≡ 16
    → and_lanes
        (and_lanes (zip ge_s_lane v (broadcast low)) (zip le_s_lane v (broadcast high)))
        (broadcast off)
      ≡ map (ranged low high off) v
ranged_lem v low high off h =
    let inner =
      ap₂ and_lanes (zip-broadcast ge_s_lane v low h) (zip-broadcast le_s_lane v high h)
      ∙ zip-map (λ x y. bit_and x y) (λ x. ge_s_lane x low) (λ x. le_s_lane x high) v in
    ap (λ w. and_lanes w (broadcast off)) inner
    ∙ (zip-broadcast (λ x y. bit_and x y) _ off (length-map _ v ∙ h)
        ∙ map-map (λ x. bit_and x off) (λ x. bit_and (ge_s_lane x low) (le_s_lane x high)) v)

abbrev offset_lane : ℕ → ℕ
offset_lane x =
    bit_or (bit_or (ranged b'0' b'9' 48 x) (ranged b'A' b'F' 55 x)) (ranged b'a' b'f' 87 x)

nibbles_lem : (v : Bytes) → length v ≡ 16 → All (λ x. x < 256) v → nibbles v ≡ map nibble v
nibbles_lem v h b =
    let offsets : offset v ≡ map offset_lane v =
      ap₂ or_lanes
        (ap₂ or_lanes (ranged_lem v b'0' b'9' 48 h) (ranged_lem v b'A' b'F' 55 h)
          ∙ zip-map (λ x y. bit_or x y) (ranged b'0' b'9' 48) (ranged b'A' b'F' 55) v)
        (ranged_lem v b'a' b'f' 87 h)
      ∙ zip-map (λ x y. bit_or x y) (λ x. bit_or (ranged b'0' b'9' 48 x) (ranged b'A' b'F' 55 x))
          (ranged b'a' b'f' 87) v in
    ap (λ w. zip sub_lane v w) offsets
    ∙ (zip_self sub_lane offset_lane v
        ∙ map-congr (λ x. sub_lane x (offset_lane x)) nibble v refl b)

pack_lem :
    (m : Memory) (a : ℕ) (f : ℕ → ℕ)
    → take 8 (drop (8 * 0) (packed (map f (bytes_at m a 16)))) ≡ paired f (bytes_at m a 16)
unfolding bytes_at take drop zip shl
pack_lem m a f = refl

pub decoded :
    (m : Memory) (a : ℕ)
    → take 8 (drop (8 * 0) (packed (nibbles (bytes_at m a 16)))) ≡ unhex (bytes_at m a 16)
decoded m a =
    ap (λ w. take 8 (drop (8 * 0) (packed w)))
      (nibbles_lem (bytes_at m a 16) (length-bytes_at m a 16) (bytes_at-IsByte m a 16))
    ∙ pack_lem m a nibble

pub paired-append :
    (f : ℕ → ℕ) (n : ℕ) (xs ys : Bytes)
    → length xs ≡ 2 * n
    → paired f (xs ++ ys) ≡ paired f xs ++ paired f ys
paired-append f n [] ys h = refl
paired-append f n (a ∷ []) ys h = absurd (omega arith)
paired-append f zero (a ∷ b ∷ xs) ys h = absurd (omega arith)
paired-append f (suc n) (a ∷ b ∷ xs) ys h =
    ap (λ l. bit_or (f a * 2 ^ 4 % 256) (f b) ∷ l) (paired-append f n xs ys (omega arith))

pub length-paired : (f : ℕ → ℕ) (n : ℕ) (v : Bytes) → length v ≡ 2 * n → length (paired f v) ≡ n
length-paired f zero [] h = refl
length-paired f (suc n) [] h = absurd (omega arith)
length-paired f n (a ∷ []) h = absurd (omega arith)
length-paired f zero (a ∷ b ∷ v) h = absurd (omega arith)
length-paired f (suc n) (a ∷ b ∷ v) h = omega (arith, length-paired f n v (omega arith))

nibble-IsByte : (x : ℕ) → x < 256 → nibble x < 256
nibble-IsByte x h = ground arith

bit_or_byte : (x y : ℕ) → x < 256 → y < 256 → bit_or x y < 256
bit_or_byte x y h k = ltb→lt (bit_or x y) 256 (
    below_lem 256 (λ y. ltb (bit_or x y) 256) y
      (below_lem 256 (λ x. below 256 (λ y. ltb (bit_or x y) 256)) x refl h) k)

pub unhex-IsByte : (v : Bytes) → All (λ x. x < 256) v → All (λ x. x < 256) (unhex v)
unhex-IsByte [] b = tt
unhex-IsByte (a ∷ []) b = tt
unhex-IsByte (a ∷ c ∷ v) b = (
  bit_or_byte (nibble a * 2 ^ 4 % 256) (nibble c) (omega arith) (nibble-IsByte c b.1.0),
  unhex-IsByte v b.1.1,
)
