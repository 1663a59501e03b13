-- ===== src/Gap/Hex.antt =====
-- internal/gap/gap.go: `ParseHex` of what `Hex` writes, for the families whose test data holds the
-- bytes in memory order.
use asmgen.Base.{ℕ, ◌*◌, ◌^◌, ◌≤◌, ◌<◌, ◌≡◌, refl, arith, true, some, length, ◌==◌, ==_iff}
use asmgen.Base.Text.{Bytes, fmt_hex, parse_uint}
use asmgen.Base.Text.Digits.{parse_uint-fmt_hex, length-fmt_hex}
use asmgen.Gap.{Arch, size_of, hex, parse_hex}

pub hex_big :
    (a : Arch) (w : ℕ) → a.big_endian_testdata ≡ true → hex a w ≡ fmt_hex (2 * size_of a) w
unfolding hex
hex_big a w big = rw big refl

parse_hex_big :
    (a : Arch) (s : Bytes) (v : ℕ)
    → a.big_endian_testdata ≡ true
    → parse_uint 16 s ≡ some v
    → (length s == 2 * size_of a) ≡ true
    → parse_hex a s ≡ some v
unfolding parse_hex
parse_hex_big a s v big read long = rw (read, long, big, parse_hex) refl

-- For a family with big-endian test data and entries of at least one byte, every uint64 that fits
-- the entries' size is read back from its print.
pub parse_hex-hex :
    (a : Arch) (w : ℕ)
    → a.big_endian_testdata ≡ true
    → 1 ≤ size_of a
    → w < 16 ^ (2 * size_of a)
    → w < 2 ^ 64
    → parse_hex a (hex a w) ≡ some w
parse_hex-hex a w big some_bytes fits word =
    let read = parse_uint-fmt_hex (2 * size_of a) w word in
    let long = length-fmt_hex (2 * size_of a) w (omega arith) fits in
    let same = (==_iff (length (fmt_hex (2 * size_of a) w)) (2 * size_of a)).1 long in
    rw (hex_big a w big) (parse_hex_big a _ w big read same)
