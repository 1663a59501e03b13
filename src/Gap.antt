-- ===== src/Gap.antt =====
-- internal/gap/gap.go: the instructions that cmd/asm lacks, one entry each, and how the test data
-- of each architecture family writes an encoding. The entries are in the modules below.
-- (`Source` and `Note`, texts that only messages show, are left out of an entry.)
pub mod Arm64
pub mod Loong64
pub mod Ppc64
pub mod S390x
pub mod Registry
pub mod Registers
pub mod Matching
pub mod Recognition
pub mod Words
pub mod Hex
pub mod Testdata
pub mod LittleEndian
pub mod Names
pub mod Golden
use asmgen.Base.{
  ℕ, zero, suc, ◌+◌, ◌-◌, ◌*◌, ◌%◌, ◌≡◌, refl, Bool, true, false, not, ◌&&◌, ◌||◌, Option, none,
  some, List, [], ◌∷◌, ◌++◌, map, length, get_elem?, ltb, ◌==◌, if◌then◌else◌, ◌<<<◌, ◌>>>◌, ◌&&&◌,
  ◌|||◌,
}
use asmgen.Base.Int.{ℤ, pos, pos_part, ltb_ℤ}
use asmgen.Base.Text.{Bytes, codes, fmt_ℤ, itoa, fmt_hex, parse_uint}
use asmgen.Base.Panics.{Result, ok, panic, Panic, ◌>>=◌}

-- A reference encoding.
pub record Case : Type 0 where
  pub ops : List ℤ
  pub want : ℕ

pub record Insn : Type 0 where
  pub arch : Bytes
  pub isa : Bytes
  pub plan9 : Bytes
  pub mask : ℕ
  pub bits : ℕ
  pub not_mask : ℕ
  pub not_bits : ℕ
  pub encode : List ℤ → Result ℕ
  pub golden : List Case

-- A case whose operands are all registers or other numbers that are not negative.
abbrev pub case : List ℕ → ℕ → Case
case ops want = record { ops = map pos ops; want = want }

abbrev pub case_ℤ : List ℤ → ℕ → Case
case_ℤ ops want = record { ops = ops; want = want }

-- `ops[i]`
pub operand : List ℤ → ℕ → Result ℤ
operand ops i = elim (get_elem? ops i) [ some r ↦ ok r | none ↦ panic Panic.index_out_of_range ]

unfoldable pub matches : Insn → ℕ → Bool
matches i w =
    ((w &&& i.mask) == i.bits) && ((i.not_mask == 0) || not ((w &&& i.not_mask) == i.not_bits))

unfoldable pub reg : Bytes → Bytes → ℤ → ℕ → Result ℕ
reg arch kind r max =
    if ltb_ℤ r (pos 0) || ltb_ℤ (pos max) r
    then panic (Panic.no_register arch kind r)
    else ok (pos_part r)

unfoldable pub has_prefix : Bytes → Bytes → Bool
has_prefix [] s = true
has_prefix (c ∷ p) [] = false
has_prefix (c ∷ p) (d ∷ s) = (c == d) && has_prefix p s

-- strings.ReplaceAll for an `old` that is not empty. `skip` counts the bytes of a match that are
-- still to be passed over.
pub replace_from : ℕ → Bytes → Bytes → Bytes → Bytes
replace_from skip old new [] = []
replace_from (suc skip) old new (c ∷ s) = replace_from skip old new s
replace_from zero old new (c ∷ s) =
    let replaced = new ++ replace_from (length old - 1) old new s in
    let kept = c ∷ replace_from zero old new s in if has_prefix old (c ∷ s) then replaced else kept

unfoldable pub replace_all : Bytes → Bytes → Bytes → Bytes
unfolding replace_from has_prefix
replace_all s old new = replace_from 0 old new s

-- The loop of `Syntax`, from operand i on.
pub fill : ℕ → List ℤ → Bytes → Bytes
fill i [] s = s
fill i (v ∷ ops) s = fill (i + 1) ops (replace_all s (codes "{" ++ (itoa i ++ codes "}")) (fmt_ℤ v))

unfoldable pub syntax : Insn → List ℤ → Bytes
unfolding fill replace_all fmt_ℤ itoa
syntax i ops = fill 0 ops i.plan9

pub record Arch : Type 0 where
  pub name : Bytes
  pub goarch : List Bytes
  pub testdata : Bytes
  pub size : ℕ
  pub big_endian_testdata : Bool
  pub tabbed_testdata : Bool
  pub operand_pad : ℕ
  pub insn_pad : ℕ
  pub insns : List Insn

-- The method `size`: 4 when the field is zero.
unfoldable pub size_of : Arch → ℕ
size_of a = if a.size == 0 then 4 else a.size

-- The loop of `Hex`, from byte i on with `left` bytes to write.
pub hex_bytes : ℕ → ℕ → ℕ → Bytes
hex_bytes zero i w = []
hex_bytes (suc left) i w = fmt_hex 2 ((w >>> (8 * i)) % 256) ++ hex_bytes left (i + 1) w

unfoldable pub hex : Arch → ℕ → Bytes
unfolding size_of hex_bytes
hex a w = if a.big_endian_testdata then fmt_hex (2 * size_of a) w else hex_bytes (size_of a) 0 w

-- The loop of `ParseHex`.
pub swap_bytes : ℕ → ℕ → ℕ → ℕ → ℕ
swap_bytes zero i v w = w
swap_bytes (suc left) i v w = swap_bytes left (i + 1) v (w <<< 8 ||| v >>> (8 * i) &&& 0xff)

-- An error is `none`.
unfoldable pub parse_hex : Arch → Bytes → Option ℕ
unfolding size_of swap_bytes
parse_hex a s = elim (parse_uint 16 s) [
  | none ↦ none
  | some v ↦
      if not (length s == 2 * size_of a)
      then none
      else if a.big_endian_testdata
      then some v
      else some (swap_bytes (size_of a) 0 v 0)
]
