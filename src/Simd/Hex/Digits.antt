-- ===== src/Simd/Hex/Digits.antt =====
-- examples/wasm/hex/main.go: digits as the lanes of a vector.
use asmgen.Base.{
  ℕ, ◌*◌, ◌/◌, ◌%◌, ◌<◌, ◌≡◌, refl, [], ◌∷◌, ◌++◌, arith, ap, ◌∙◌, length, All, bit_and, map,
}
use asmgen.Base.Text.{Bytes, digit_char}
use asmgen.Simd.Pointwise.{zip-broadcast, map-map, map-congr, length-map}
use asmgen.Simd.Machine.{Memory, bytes_at}
use asmgen.Simd.Blocks.{length-bytes_at, bytes_at-IsByte}
use asmgen.Simd.Lanes.{zip, swizzle, byte_at, shr_u}
use asmgen.Simd.Hex.{lut, low_mask, shuffle_lo, shuffle_hi}

-- The two digits of each byte, in base 16 and lower case.
abbrev pub high_digit : ℕ → ℕ
high_digit x = digit_char (x / 16)

abbrev pub low_digit : ℕ → ℕ
low_digit x = digit_char (x % 16)

abbrev pairs : (ℕ → ℕ) → (ℕ → ℕ) → Bytes → Bytes
pairs high low [] = []
pairs high low (x ∷ v) = high x ∷ low x ∷ pairs high low v

abbrev pub hex_text : Bytes → Bytes
hex_text = pairs high_digit low_digit

-- The vectors of a round.
abbrev pub hi : Bytes → Bytes
hi v = zip (λ x y. bit_and x y) (shr_u 4 v) low_mask

abbrev pub lo : Bytes → Bytes
lo v = zip (λ x y. bit_and x y) v low_mask

abbrev pub hi_ch : Bytes → Bytes
hi_ch v = swizzle lut (hi v)

abbrev pub lo_ch : Bytes → Bytes
lo_ch v = swizzle lut (lo v)

abbrev pub first_half : Bytes → Bytes
first_half v = map (byte_at (hi_ch v ++ lo_ch v)) shuffle_lo

abbrev pub second_half : Bytes → Bytes
second_half v = map (byte_at (hi_ch v ++ lo_ch v)) shuffle_hi

hi_ch_lem : (v : Bytes) → length v ≡ 16 → All (λ x. x < 256) v → hi_ch v ≡ map high_digit v
unfolding swizzle shr_u digit_char
hi_ch_lem v h b =
    ap (map (byte_at lut)) (
      zip-broadcast (λ x y. bit_and x y) (shr_u 4 v) 15 (length-map _ v ∙ h)
      ∙ map-map (λ x. bit_and x 15) (λ x. x / 16) v)
    ∙ (map-map (byte_at lut) (λ x. bit_and (x / 16) 15) v
        ∙ map-congr (λ x. byte_at lut (bit_and (x / 16) 15)) high_digit v refl b)

lo_ch_lem : (v : Bytes) → length v ≡ 16 → All (λ x. x < 256) v → lo_ch v ≡ map low_digit v
unfolding swizzle digit_char
lo_ch_lem v h b =
    ap (map (byte_at lut)) (zip-broadcast (λ x y. bit_and x y) v 15 h)
    ∙ (map-map (byte_at lut) (λ x. bit_and x 15) v
        ∙ map-congr (λ x. byte_at lut (bit_and x 15)) low_digit v refl b)

-- The shuffles put each pair of digits together.
paired :
    (m : Memory) (a : ℕ) (high low : ℕ → ℕ)
    → map (byte_at (map high (bytes_at m a 16) ++ map low (bytes_at m a 16))) shuffle_lo
        ++ map (byte_at (map high (bytes_at m a 16) ++ map low (bytes_at m a 16))) shuffle_hi
      ≡ pairs high low (bytes_at m a 16)
unfolding bytes_at
paired m a high low = refl

pub halves :
    (m : Memory) (a : ℕ)
    → first_half (bytes_at m a 16) ++ second_half (bytes_at m a 16) ≡ hex_text (bytes_at m a 16)
halves m a =
    let v = bytes_at m a 16 in
    rw
      (
        hi_ch_lem v (length-bytes_at m a 16) (bytes_at-IsByte m a 16),
        lo_ch_lem v (length-bytes_at m a 16) (bytes_at-IsByte m a 16),
      )
      (paired m a high_digit low_digit)

pub pairs-append :
    (high low : ℕ → ℕ) (xs ys : Bytes)
    → pairs high low (xs ++ ys) ≡ pairs high low xs ++ pairs high low ys
pairs-append high low [] ys = refl
pairs-append high low (x ∷ xs) ys = ap (λ l. high x ∷ low x ∷ l) (pairs-append high low xs ys)

pub length-pairs : (high low : ℕ → ℕ) (v : Bytes) → length (pairs high low v) ≡ 2 * length v
length-pairs high low [] = refl
length-pairs high low (x ∷ v) = ground (arith, length-pairs high low v)

pub hex_text-IsByte : (v : Bytes) → All (λ x. x < 256) v → All (λ x. x < 256) (hex_text v)
unfolding digit_char
hex_text-IsByte [] b = tt
hex_text-IsByte (x ∷ v) b = (ground arith, (ground arith, hex_text-IsByte v b.1))
