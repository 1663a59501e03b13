-- ===== src/Gap/Testdata.antt =====
-- internal/gap/gap.go: the line of a reference case in the test data of Go's assembler.
pub mod Readback
use asmgen.Base.{
  ℕ, zero, suc, ◌-◌, Bool, true, false, ◌&&◌, ◌||◌, not, List, [], ◌∷◌, ◌++◌, length, ltb, ◌==◌,
  if◌then◌else◌,
}
use asmgen.Base.Text.{Bytes, codes, tab}
use asmgen.Gap.{Insn, Case, Arch, syntax, hex, has_prefix}

abbrev is_break : ℕ → Bool
is_break c = (c == b' ') || (c == b',')

-- `zeroOffset.ReplaceAllString(s, "$1(")`: "0(" at the start, behind a blank or behind a comma loses
-- its digit. `after` says whether a match may begin here.
pub drop_zeros : Bool → Bytes → Bytes
unfolding has_prefix
drop_zeros after [] = []
drop_zeros after (c ∷ s) =
    let dropped = drop_zeros false s in
    let kept = c ∷ drop_zeros (is_break c) s in
    if after && ((c == b'0') && has_prefix (codes "(") s) then dropped else kept

-- `before, after, _ := strings.Cut(s, " ")`
pub cut_blank : Bytes → Bytes × Bytes
cut_blank [] = ([], [])
cut_blank (c ∷ s) = let rest = cut_blank s in if c == b' ' then ([], s) else (c ∷ rest.0, rest.1)

blanks : ℕ → Bytes
blanks zero = []
blanks (suc n) = b' ' ∷ blanks n

-- `%-*s` of a text of ASCII.
pub pad_right : ℕ → Bytes → Bytes
unfolding blanks
pad_right width s = s ++ blanks (width - length s)

abbrev tabs_behind : Bytes → Bytes
tabs_behind mnemonic = if ltb (length mnemonic) 8 then tab ++ tab else tab

-- What stands in front of the comment.
unfoldable pub testdata_insn : Arch → Bytes → Bytes
unfolding cut_blank pad_right
testdata_insn a insn =
    if not (a.operand_pad == 0)
    then tab ++ ((cut_blank insn).0 ++ (tab ++ pad_right a.operand_pad (cut_blank insn).1))
    else if not a.tabbed_testdata
    then tab ++ pad_right (if a.insn_pad == 0 then 32 else a.insn_pad) insn
    else tab
      ++ ((cut_blank insn).0 ++ (tabs_behind (cut_blank insn).0 ++ ((cut_blank insn).1 ++ tab)))

unfoldable pub testdata_line : Arch → Insn → Case → Bytes
unfolding drop_zeros testdata_insn syntax hex
testdata_line a i c =
    testdata_insn a (drop_zeros true (syntax i c.ops)) ++ (codes "// " ++ hex a c.want)
