-- ===== src/Simd/HexDecode/Roundtrip.antt =====
-- examples/wasm/hex/main.go and examples/wasm/hex_decode/main.go: one kernel behind the other.
use asmgen.Base.{
  ℕ, ◌*◌, ◌/◌, ◌%◌, ◌^◌, ◌<◌, ◌≡◌, refl, [], ◌∷◌, arith, some, ap, ap₂, ◌∙◌, subst, length, All,
  ◌==◌, ==_iff, bit_or,
}
use asmgen.Base.Text.{Bytes, digit_char}
use asmgen.Simd.Pointwise.{below_lem}
use asmgen.Simd.Stores.{Apart, Stores}
use asmgen.Simd.Machine.{Memory, bytes_at, word, call, left}
use asmgen.Simd.Blocks.{count, Holds, length-bytes_at, bytes_at-IsByte}
use asmgen.Simd.Hex
use asmgen.Simd.Hex.Digits.{hex_text}
use asmgen.Simd.Hex.Correct.{hex_encode_lem, length-hex_text}
use asmgen.Simd.HexDecode
use asmgen.Simd.HexDecode.Digits.{nibble, unhex}
use asmgen.Simd.HexDecode.Correct.{hex_decode_lem}

two_digits :
    (x : ℕ)
    → x < 256
    → bit_or (nibble (digit_char (x / 16)) * 2 ^ 4 % 256) (nibble (digit_char (x % 16))) ≡ x
unfolding digit_char
two_digits x h = (==_iff _ x).0 (
    below_lem 256
      (λ y. bit_or (nibble (digit_char (y / 16)) * 2 ^ 4 % 256) (nibble (digit_char (y % 16))) == y)
      x refl h)

pub unhex-hex_text : (v : Bytes) → All (λ x. x < 256) v → unhex (hex_text v) ≡ v
unhex-hex_text [] b = refl
unhex-hex_text (x ∷ v) b = ap₂ (λ y l. y ∷ l) (two_digits x b.0) (unhex-hex_text v b.1)

-- hex_decode run on what hex_encode has stored, with twice the blocks, stores the bytes that
-- hex_encode has read, given that the memory holds the source, the text and the result, that the text
-- meets neither of the others, that there are less than 2 ^ 30 blocks, and that a loop may be started
-- more than twice for each block.
pub hex_roundtrip :
    (m : Memory) (dst src out n f : ℕ)
    → n < 2 ^ 30
    → Holds m src (16 * n)
    → Holds m dst (32 * n)
    → Holds m out (16 * n)
    → Apart src (16 * n) dst (32 * n)
    → Apart dst (32 * n) out (16 * n)
    → 2 * n < f
    → (m' : Memory) × (m'' : Memory) × (left
          (call f Hex.program m (word dst ∷ word src ∷ word n ∷ []))
        ≡ some m')
      × (left (call f HexDecode.program m' (word out ∷ word dst ∷ word (2 * n) ∷ [])) ≡ some m'')
      × (bytes_at m'' out (16 * n) ≡ bytes_at m src (16 * n))
hex_roundtrip m dst src out n f k l l' l'' apart apart' h =
    let v = bytes_at m src (16 * n) in
    let c : count n ≡ n = ground arith in
    let c' : count (2 * n) ≡ 2 * n = ground arith in
    let (m', ran, wrote) =
      hex_encode_lem m dst src n f (omega arith) (rw c l) (rw c l') (rw c apart)
        (omega (arith, c)) in
    let s : Stores m dst (hex_text v) m' =
      subst (λ k. Stores m dst (hex_text (bytes_at m src (16 * k))) m') c wrote in
    let len : length (hex_text v) ≡ 16 * count (2 * n) =
      omega (arith, c', length-hex_text v, length-bytes_at m src (16 * n)) in
    let text : bytes_at m' dst (16 * count (2 * n)) ≡ hex_text v =
      subst (λ k. bytes_at m' dst k ≡ hex_text v) len s.holds in
    let (m'', ran', wrote') =
      hex_decode_lem m' out dst (2 * n) f (omega arith)
        (omega (arith, c', s.size, l'.0), omega (arith, s.size, l'.1))
        (omega (arith, c', s.size, l''.0), omega (arith, s.size, l''.1))
        (ground (arith, c', apart')) (omega (arith, c')) in
    let back : unhex (bytes_at m' dst (16 * count (2 * n))) ≡ v =
      ap unhex text ∙ unhex-hex_text v (bytes_at-IsByte m src (16 * n)) in
    let s' : Stores m' out v m'' = subst (λ w. Stores m' out w m'') back wrote' in
    (
      m',
      m'',
      ran,
      ran',
      subst (λ k. bytes_at m'' out k ≡ v) (length-bytes_at m src (16 * n)) s'.holds,
    )
