-- ===== src/Gap/LittleEndian.antt =====
-- internal/gap/gap.go: `ParseHex` of what `Hex` writes, for the families of four bytes whose test
-- data holds the lowest byte first.
use asmgen.Base.{
  ℕ, zero, suc, ◌+◌, ◌*◌, ◌/◌, ◌%◌, ◌^◌, ◌<◌, ◌≡◌, ◌≢◌, refl, ap, arith, true, false, some, length,
  ◌==◌, ==_iff, ◌++◌, [], length-append, ◌∙◌, ◌|||◌, ◌<<<◌, ◌>>>◌, ◌&&&◌,
}
use asmgen.Base.Bits.{bit_or_low, bit_and_ones}
use asmgen.Base.Text.{Bytes, fmt_hex, parse_uint, parse_loop}
use asmgen.Base.Text.Digits.{length-fmt_hex, parse-uint_loop}
use asmgen.Base.Text.HexBytes.{parse-byte, fmt_hex-byte}
use asmgen.Gap.{Arch, size_of, hex, parse_hex, hex_bytes, swap_bytes}

-- The number whose bytes are those of w the other way round.
abbrev reversed : ℕ → ℕ
reversed w =
    (w >>> 0) % 256 * 2 ^ 24
    + w / 2 ^ 8 % 256 * 2 ^ 16
    + w / 2 ^ 16 % 256 * 2 ^ 8
    + w / 2 ^ 24 % 256

-- One round of the loop.
swap_round : (w v : ℕ) → w < 2 ^ 56 → ((w <<< 8) ||| (v &&& 0xff)) ≡ w * 2 ^ 8 + v % 256
swap_round w v h =
    rw (bit_and_ones 8 v)
      (bit_or_low 8 (w * 2 ^ 8 % 2 ^ 64) (v % 256) (omega arith) (omega arith) ∙ omega arith)

swap_value :
    (v : ℕ)
    → v < 2 ^ 32
    → swap_bytes 4 0 v 0
      ≡ (((v >>> 0) % 256 * 2 ^ 8 + (v >>> 8) % 256) * 2 ^ 8 + (v >>> 16) % 256) * 2 ^ 8
        + (v >>> 24) % 256
unfolding swap_bytes
swap_value v h =
    let w0 = (v >>> 0) % 256 in
    let w1 = w0 * 2 ^ 8 + (v >>> 8) % 256 in
    let w2 = w1 * 2 ^ 8 + (v >>> 16) % 256 in
    let first : ((0 <<< 8) ||| ((v >>> 0) &&& 0xff)) ≡ w0 =
      swap_round 0 (v >>> 0) (omega arith) ∙ omega arith in
    rw
      (
        first,
        swap_round w0 (v >>> 8) (omega arith),
        swap_round w1 (v >>> 16) (omega arith),
        swap_round w2 (v >>> 24) (omega arith),
      )
      refl

swap-reversed : (w : ℕ) → w < 2 ^ 32 → swap_bytes 4 0 (reversed w) 0 ≡ w
swap-reversed w h = swap_value (reversed w) (omega arith) ∙ omega arith

starts : (b : ℕ) (s : Bytes) → b < 256 → (fmt_hex 2 b ++ s) ≢ []
starts b s h = rw (fmt_hex-byte b h) cc

parse-hex_bytes : (w : ℕ) → parse_uint 16 (hex_bytes 4 0 w) ≡ some (reversed w)
unfolding hex_bytes parse_loop
parse-hex_bytes w =
    let b0 = (w >>> 0) % 256 in
    let b1 = w / 2 ^ 8 % 256 in
    let b2 = w / 2 ^ 16 % 256 in
    let b3 = w / 2 ^ 24 % 256 in
    parse-uint_loop 16 _ (starts b0 _ (omega arith))
    ∙ (parse-byte 0 b0 (fmt_hex 2 b1 ++ (fmt_hex 2 b2 ++ (fmt_hex 2 b3 ++ []))) (omega arith)
          (omega arith)
        ∙ (parse-byte (0 * 256 + b0) b1 (fmt_hex 2 b2 ++ (fmt_hex 2 b3 ++ [])) (omega arith)
              (omega arith)
            ∙ (parse-byte ((0 * 256 + b0) * 256 + b1) b2 (fmt_hex 2 b3 ++ []) (omega arith)
                  (omega arith)
                ∙ (parse-byte (((0 * 256 + b0) * 256 + b1) * 256 + b2) b3 [] (omega arith)
                      (omega arith)
                    ∙ ap some (omega arith)))))

pub size_four :
    (a : Arch) (w : ℕ) → a.big_endian_testdata ≡ false → size_of a ≡ 4 → hex a w ≡ hex_bytes 4 0 w
unfolding hex
size_four a w little four = rw (little, four) refl

pub length-hex_bytes : (n i w : ℕ) → length (hex_bytes n i w) ≡ 2 * n
unfolding hex_bytes
length-hex_bytes zero i w = refl
length-hex_bytes (suc n) i w = omega (
  arith,
  length-append (fmt_hex 2 ((w >>> (8 * i)) % 256)) (hex_bytes n (i + 1) w),
  length-fmt_hex 2 ((w >>> (8 * i)) % 256) (omega arith) (omega arith),
  length-hex_bytes n (i + 1) w,
)

parse_hex_little :
    (a : Arch) (s : Bytes) (v : ℕ)
    → a.big_endian_testdata ≡ false
    → size_of a ≡ 4
    → parse_uint 16 s ≡ some v
    → (length s == 8) ≡ true
    → parse_hex a s ≡ some (swap_bytes 4 0 v 0)
unfolding parse_hex
parse_hex_little a s v little four read long = rw (read, four, long, little, parse_hex) refl

-- For a family of four bytes whose test data holds the lowest byte first, every uint32 is read back
-- from its print.
pub parse_hex-hex_little :
    (a : Arch) (w : ℕ)
    → a.big_endian_testdata ≡ false
    → size_of a ≡ 4
    → w < 2 ^ 32
    → parse_hex a (hex a w) ≡ some w
parse_hex-hex_little a w little four h =
    let same = (==_iff (length (hex_bytes 4 0 w)) 8).1 (length-hex_bytes 4 0 w) in
    rw (size_four a w little four) (
      parse_hex_little a _ (reversed w) little four (parse-hex_bytes w) same
      ∙ ap some (swap-reversed w h))
