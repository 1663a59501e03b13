-- ===== src/Examples/Toolchains.antt =====
-- tools/goasmgap/main.go: a toolchain whose assembler writes one word for any line, and the test line of
-- an instruction.
use asmgen.Base.{
  ℕ, zero, suc, ◌≤◌, ◌*◌, ◌^◌, ◌≡◌, refl, subst, beq, if◌then◌else◌, arith, true, false, none, some,
  [], ◌∷◌, ◌++◌, List, Bool, get_elem?, length,
}
use asmgen.Base.Text.{Bytes, codes, tab, fmt_hex}
use asmgen.Gap.{Insn, Case, Arch, case, size_of, matches}
use asmgen.Gap.Registry.{arches}
use asmgen.Gap.Ppc64.{ppc64}
use asmgen.Gap.Testdata.{testdata_line}
use asmgen.Gap.Ppc64.Double.{doubles, xvadddp}
use asmgen.Goasmgap.{done, Assembler}
use asmgen.Goasmgap.Classify.{supported, Detail, Verdict, classify}
use asmgen.Goasmgap.Classify.Meaning.{Meaning, classify-Meaning}
use asmgen.Goasmgap.Classify.Total.{IsHonest, classify_total}
use asmgen.Goasmgap.Scan.{Hits, scan_line, hit_text}
use asmgen.Goasmgap.Scan.Finds.{scan_line-testdata_line}

-- Two words that are right, 7 and 9, whatever the lines.
abbrev entry : Insn
entry = record {
  arch = codes "test";
  isa = codes "nop";
  plan9 = codes "NOP";
  mask = 0;
  bits = 0;
  not_mask = 0;
  not_bits = 0;
  encode = λ ops. asmgen.Base.Panics.ok 7;
  golden = case [] 7 ∷ case [] 7 ∷ [];
}

abbrev sevens : List Bytes → List ℕ
sevens [] = 7 ∷ []
sevens (l ∷ lines) = 7 ∷ sevens lines

abbrev assembler : Assembler
assembler goarch lines = done (sevens lines)

entry_status : classify entry assembler (codes "test") ≡ done (supported, Detail.identical 2 2)
unfolding classify
entry_status = refl

classify-Meaning_example : Meaning entry assembler (codes "test") supported
classify-Meaning_example =
    classify-Meaning entry assembler (codes "test") supported (Detail.identical 2 2) entry_status

sevens_long : (lines : List Bytes) → length lines ≤ length (sevens lines)
sevens_long [] = omega arith
sevens_long (l ∷ lines) = omega (arith, sevens_long lines)

assembler_honest : IsHonest entry assembler (codes "test")
assembler_honest lines words e =
    let same : sevens lines ≡ words = cc e in
    subst (λ (ws : List ℕ). length lines ≤ length ws) same (sevens_long lines)

classify_total_example : (v : Verdict) × (classify entry assembler (codes "test") ≡ done v)
classify_total_example = classify_total entry assembler (codes "test") assembler_honest

abbrev family : Arch
family = record {
  name = codes "test";
  goarch = codes "one" ∷ codes "two" ∷ [];
  testdata = codes "test.s";
  size = 0;
  big_endian_testdata = true;
  tabbed_testdata = false;
  operand_pad = 0;
  insn_pad = 0;
  insns = entry ∷ [];
}

third : get_elem? arches 2 ≡ some ppc64
unfolding arches
third = refl

abbrev add_case : Case
add_case = case (3 ∷ 2 ∷ 1 ∷ []) 0xf0620b00

xvadddp_line :
    testdata_line ppc64 xvadddp add_case
    ≡ tab ++ codes "XVADDDP VS2, VS1, VS3           // f0620b00"
unfolding testdata_line ppc64 xvadddp fmt_hex
xvadddp_line = refl

ppc64_words : size_of ppc64 ≡ 4
unfolding size_of ppc64
ppc64_words = refl

-- One hit has been found for the first entry, xvadddp, and none for the others looked at.
abbrev found : Hits
found = (codes "VADDFP" ∷ []) ∷ [] ∷ []

xvadddp_first : get_elem? ppc64.insns 0 ≡ some xvadddp
unfolding ppc64 doubles
xvadddp_first = refl

scan_line-testdata_line_example :
    get_elem? (scan_line ppc64 (codes "ppc64.s") 7 (testdata_line ppc64 xvadddp add_case) found) 0
    ≡ some (
        if matches xvadddp 0xf0620b00
        then (codes "VADDFP" ∷ [])
          ++ (hit_text (codes "ppc64.s") 7 (testdata_line ppc64 xvadddp add_case) ∷ [])
        else codes "VADDFP" ∷ [])
scan_line-testdata_line_example =
    scan_line-testdata_line 2 ppc64 xvadddp add_case (codes "ppc64.s") 7 found 0 xvadddp
      (codes "VADDFP" ∷ []) third (rw ppc64_words (omega arith)) xvadddp_first refl

matches-xvadddp : matches xvadddp 0xf0620b00 ≡ true
unfolding xvadddp matches
matches-xvadddp = refl
