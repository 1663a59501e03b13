-- ===== src/Gap/Testdata/Readback.antt =====
-- internal/gap/gap.go: `TestdataLine` against `ParseHex`, for the families of the registry.
use asmgen.Base.{
  ℕ, zero, suc, ◌+◌, ◌%◌, ◌>>>◌, length, All-append, ◌*◌, ◌^◌, ◌≤◌, ◌<◌, ◌≡◌, ◌⊎◌, inl, inr, refl,
  subst, arith, true, false, some, ◌++◌, All, All-get, ◌&◌, get_elem?,
}
use native.Mathlib.Nat.{pow-le-pow_right}
use asmgen.Base.Text.{Bytes, codes, fmt_hex}
use asmgen.Base.Text.HexBytes.{IsHexDigit, fmt_hex-hex}
use asmgen.Base.Text.Digits.{length-fmt_hex}
use asmgen.Gap.{Insn, Case, Arch, size_of, hex, parse_hex, hex_bytes, syntax}
use asmgen.Gap.Registry.{arches}
use asmgen.Gap.Arm64.{arm64}
use asmgen.Gap.Loong64.{loong64}
use asmgen.Gap.Ppc64.{ppc64}
use asmgen.Gap.S390x.{s390x}
use asmgen.Gap.Hex.{hex_big, parse_hex-hex}
use asmgen.Gap.LittleEndian.{length-hex_bytes, size_four, parse_hex-hex_little}
use asmgen.Gap.Testdata.{testdata_line, testdata_insn, drop_zeros}

hex_bytes-hex : (n i w : ℕ) → All IsHexDigit (hex_bytes n i w)
unfolding hex_bytes
hex_bytes-hex zero i w = tt
hex_bytes-hex (suc n) i w =
    All-append IsHexDigit (fmt_hex 2 ((w >>> (8 * i)) % 256)) (hex_bytes n (i + 1) w)
      (fmt_hex-hex 2 ((w >>> (8 * i)) % 256)) (hex_bytes-hex n (i + 1) w)

-- The two kinds of families.
abbrev IsReadable : Arch → Type 0
IsReadable a =
    ((a.big_endian_testdata ≡ true) × (1 ≤ size_of a) × (size_of a ≤ 8))
    ⊎ ((a.big_endian_testdata ≡ false) × (size_of a ≡ 4))

arches-IsReadable : All IsReadable arches
unfolding arches size_of arm64 loong64 ppc64 s390x
arches-IsReadable =
    inr (refl, refl)
    & inr (refl, refl)
    & inl (refl, omega arith, omega arith)
    & inl (refl, omega arith, omega arith)
    & tt

small_word : (n w : ℕ) → n ≤ 8 → w < 16 ^ (2 * n) → w < 2 ^ 64
small_word n w h fits =
    omega (arith, pow-le-pow_right {n = 16} (omega arith) {i = 2 * n} {j = 16} (omega arith))

parse_hex-IsReadable :
    (a : Arch) (w : ℕ) → IsReadable a → w < 16 ^ (2 * size_of a) → parse_hex a (hex a w) ≡ some w
parse_hex-IsReadable a w (inl (big, some_bytes, few)) fits =
    parse_hex-hex a w big some_bytes fits (small_word (size_of a) w few fits)
parse_hex-IsReadable a w (inr (little, four)) fits =
    parse_hex-hex_little a w little four (subst (λ (n : ℕ). w < 16 ^ (2 * n)) four fits)

-- What `Hex` writes is as many digits as the entries have, twice over.
hex-IsHex : (a : Arch) (w : ℕ) → IsReadable a → All IsHexDigit (hex a w)
hex-IsHex a w (inl (big, _, _)) = rw (hex_big a w big) (fmt_hex-hex (2 * size_of a) w)
hex-IsHex a w (inr (little, four)) = rw (size_four a w little four) (hex_bytes-hex 4 0 w)

length-hex :
    (a : Arch) (w : ℕ) → IsReadable a → w < 16 ^ (2 * size_of a) → length (hex a w) ≡ 2 * size_of a
length-hex a w (inl (big, some_bytes, _)) fits =
    rw (hex_big a w big) (length-fmt_hex (2 * size_of a) w (omega arith) fits)
length-hex a w (inr (little, four)) fits =
    rw (size_four a w little four) (omega (arith, length-hex_bytes 4 0 w, four))

-- The line of a case in a family of the registry: its end, and how that reads.
pub testdata_line-IsRead :
    (k : ℕ) (a : Arch) (i : Insn) (c : Case)
    → get_elem? arches k ≡ some a
    → c.want < 16 ^ (2 * size_of a)
    → (front : Bytes) × (encoding : Bytes) × (testdata_line a i c
        ≡ front ++ (codes "// " ++ encoding))
      × All IsHexDigit encoding
      × (length encoding ≡ 2 * size_of a)
      × (parse_hex a encoding ≡ some c.want)
unfolding testdata_line
testdata_line-IsRead k a i c at fits =
    let is = All-get IsReadable arches k a arches-IsReadable at in
    (
      testdata_insn a (drop_zeros true (syntax i c.ops)),
      hex a c.want,
      refl,
      hex-IsHex a c.want is,
      length-hex a c.want is fits,
      parse_hex-IsReadable a c.want is fits,
    )

-- The families of the registry have entries of four or of six bytes.
abbrev HasSize : Arch → Type 0
HasSize a = (size_of a ≡ 4) ⊎ (size_of a ≡ 6)

arches-HasSize : All HasSize arches
unfolding arches size_of arm64 loong64 ppc64 s390x
arches-HasSize = inl refl & inl refl & inl refl & inr refl & tt

pub size_cases :
    (k : ℕ) (a : Arch) → get_elem? arches k ≡ some a → (size_of a ≡ 4) ⊎ (size_of a ≡ 6)
size_cases k a at = All-get HasSize arches k a arches-HasSize at
