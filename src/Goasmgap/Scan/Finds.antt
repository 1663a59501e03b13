-- ===== src/Goasmgap/Scan/Finds.antt =====
-- tools/goasmgap/main.go: the regular expression of scan on the lines that testdata writes.
use asmgen.Base.{
  ℕ, zero, suc, List, if◌then◌else◌, get_elem?, ◌<◌, ◌*◌, ◌^◌, ◌≡◌, ◌⊎◌, refl, arith, Bool, true,
  false, ◌&&◌, ◌||◌, Bool-cases, inl, inr, [], ◌∷◌, ◌++◌, none, some, All, length, ◌==◌,
}
use asmgen.Base.Text.{Bytes, codes}
use asmgen.Base.Text.HexBytes.{IsHexDigit}
use asmgen.Gap.{Insn, Case, Arch, matches, size_of, parse_hex}
use asmgen.Gap.Registry.{arches}
use asmgen.Gap.Testdata.{testdata_line}
use asmgen.Gap.Testdata.Readback.{testdata_line-IsRead, size_cases}
use asmgen.Goasmgap.Scan.{
  Hits, add_hit, hit_text, scan_line, is_hex, is_blank, skip_blanks, all_blank, span_hex,
  comment_encoding, encoding_comment,
}

abbrev pub IsHex : ℕ → Type 0
IsHex c = is_hex c ≡ true

span_hex-hex : (s : Bytes) → All IsHex s → span_hex s ≡ (s, [])
unfolding span_hex
span_hex-hex [] h = refl
span_hex-hex (c ∷ s) (here, later) = rw (here, span_hex-hex s later) refl

hex_no_blank : (c : ℕ) → is_hex c ≡ true → is_blank c ≡ false
hex_no_blank c h = ground arith

skip_hex : (s : Bytes) → All IsHex s → skip_blanks s ≡ s
unfolding skip_blanks
skip_hex [] h = refl
skip_hex (c ∷ s) (here, later) = rw (hex_no_blank c here) refl

and_false : (b : Bool) → (b && false) ≡ false
and_false true = refl
and_false false = refl

-- An encoding behind one blank.
comment_encoding-hex :
    (e : Bytes)
    → All IsHex e
    → (length e ≡ 8) ⊎ (length e ≡ 12)
    → comment_encoding (b' ' ∷ e) ≡ some e
unfolding comment_encoding skip_blanks all_blank
comment_encoding-hex e h (inl n) = rw (skip_hex e h, span_hex-hex e h, n) refl
comment_encoding-hex e h (inr n) = rw (skip_hex e h, span_hex-hex e h, n) refl

-- A text with a slash in it is no encoding, whatever stands around the slash.
skip_slash : (u v : Bytes) → (u' : Bytes) × (skip_blanks (u ++ (b'/' ∷ v)) ≡ u' ++ (b'/' ∷ v))
unfolding skip_blanks
skip_slash [] v = ([], refl)
skip_slash (c ∷ u) v = elim (Bool-cases (is_blank c)) [
  | inl e ↦ let (u', eq) = skip_slash u v in (u', rw (e, skip_blanks) eq)
  | inr e ↦ (c ∷ u, rw (e, skip_blanks) refl)
]

span_slash : (u v : Bytes) → (u' : Bytes) × ((span_hex (u ++ (b'/' ∷ v))).1 ≡ u' ++ (b'/' ∷ v))
unfolding span_hex
span_slash [] v = ([], refl)
span_slash (c ∷ u) v = elim (Bool-cases (is_hex c)) [
  | inl e ↦ let (u', eq) = span_slash u v in (u', rw (e, span_hex) eq)
  | inr e ↦ (c ∷ u, rw (e, span_hex) refl)
]

blank_slash : (u v : Bytes) → all_blank (u ++ (b'/' ∷ v)) ≡ false
unfolding all_blank
blank_slash [] v = refl
blank_slash (c ∷ u) v = rw (blank_slash u v) (and_false (is_blank c))

comment-slash : (u v : Bytes) → comment_encoding (u ++ (b'/' ∷ v)) ≡ none
unfolding comment_encoding
comment-slash u v =
    let (u1, skipped) = skip_slash u v in
    let (u2, rest) = span_slash u1 v in
    rw (skipped, rest, blank_slash u2 v, comment_encoding)
      (rw
        (and_false (
          (length (span_hex (u1 ++ (b'/' ∷ v))).0 == 8)
          || (length (span_hex (u1 ++ (b'/' ∷ v))).0 == 12)))
        refl)

pub encoding_comment-front :
    (front e : Bytes)
    → All IsHex e
    → (length e ≡ 8) ⊎ (length e ≡ 12)
    → encoding_comment (front ++ (codes "// " ++ e)) ≡ some e
unfolding encoding_comment
encoding_comment-front [] e h n = rw (comment_encoding-hex e h n) refl
encoding_comment-front (c ∷ []) e h n = elim (Bool-cases (c == b'/')) [
  | inl eq ↦ rw (eq, comment-slash [] (b' ' ∷ e), comment_encoding-hex e h n) refl
  | inr ne ↦ rw (ne, comment_encoding-hex e h n) refl
]
encoding_comment-front (c ∷ d ∷ front) e h n = elim (Bool-cases ((c == b'/') && (d == b'/'))) [
  | inl eq ↦
      rw (eq, comment-slash front (b'/' ∷ b' ' ∷ e)) (encoding_comment-front (d ∷ front) e h n)
  | inr ne ↦ rw ne (encoding_comment-front (d ∷ front) e h n)
]

IsHex-digit : (c : ℕ) → IsHexDigit c → IsHex c
IsHex-digit c h = ground arith

All-IsHex : (s : Bytes) → All IsHexDigit s → All IsHex s
All-IsHex [] h = tt
All-IsHex (c ∷ s) (here, later) = (IsHex-digit c here, All-IsHex s later)

scan_by :
    (a : Arch) (path : Bytes) (n : ℕ) (line e : Bytes) (w : ℕ) (hits : Hits)
    → encoding_comment line ≡ some e
    → parse_hex a e ≡ some w
    → scan_line a path n line hits ≡ add_hit w (hit_text path n line) a.insns hits
unfolding scan_line
scan_by a path n line e w hits found read = rw (found, read, scan_line) refl

add_hit-get :
    (word : ℕ) (text : Bytes) (insns : List Insn) (hits : Hits) (j : ℕ) (i : Insn) (h : List Bytes)
    → get_elem? insns j ≡ some i
    → get_elem? hits j ≡ some h
    → get_elem? (add_hit word text insns hits) j
      ≡ some (if matches i word then h ++ (text ∷ []) else h)
unfolding add_hit
add_hit-get word text [] hits j i h e e' = cc
add_hit-get word text (k ∷ insns) [] j i h e e' = cc
add_hit-get word text (k ∷ insns) (g ∷ hits) zero i h e e' =
    let same : k ≡ i = cc in let same' : g ≡ h = cc in rw (same, same') refl
add_hit-get word text (k ∷ insns) (g ∷ hits) (suc j) i h e e' =
    add_hit-get word text insns hits j i h e e'

-- For each family of the registry, each entry `i` and each case whose encoding has no more bytes
-- than the family's entries: where a test file of Go holds the line that `testdata` writes, scan
-- reads the encoding back from it. For each entry of the family, at any place `j` that has a
-- list of hits, the hits found so far stay, and the line is added behind them just when the encoding
-- passes the entry's test.
pub scan_line-testdata_line :
    (k : ℕ) (a : Arch) (i : Insn) (c : Case) (path : Bytes) (n : ℕ) (hits : Hits) (j : ℕ) (e : Insn)
    (h : List Bytes)
    → get_elem? arches k ≡ some a
    → c.want < 16 ^ (2 * size_of a)
    → get_elem? a.insns j ≡ some e
    → get_elem? hits j ≡ some h
    → get_elem? (scan_line a path n (testdata_line a i c) hits) j
      ≡ some (if matches e c.want then h ++ (hit_text path n (testdata_line a i c) ∷ []) else h)
scan_line-testdata_line k a i c path n hits j e h at fits at_j hits_j =
    let (front, s, line, digits, long, read) = testdata_line-IsRead k a i c at fits in
    let eight : (length s ≡ 8) ⊎ (length s ≡ 12) = elim (size_cases k a at) [
      | inl four ↦ inl (omega arith)
      | inr six ↦ inr (omega arith)
    ] in
    let found =
      scan_by a path n (testdata_line a i c) s c.want hits
        (rw line (encoding_comment-front front s (All-IsHex s digits) eight)) read in
    rw found
      (add_hit-get c.want (hit_text path n (testdata_line a i c)) a.insns hits j e h at_j hits_j)
