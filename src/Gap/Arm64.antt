-- ===== src/Gap/Arm64.antt =====
-- internal/gap/arm64.go: the family arm64, as its `init` registers it.
pub mod Format
pub mod Golden
pub mod Fields
pub mod Laws
pub mod Matches
use asmgen.Base.{true, false, List, [], ◌∷◌}
use asmgen.Base.Text.{codes}
use asmgen.Gap.{Arch, Insn}
use Format.{elem_insn}
use Golden.{
  fmla_4s_golden, fmla_2d_golden, fmls_4s_golden, fmls_2d_golden, fmul_4s_golden, fmul_2d_golden,
}

-- The loop over the three opcodes.
unfoldable pub elements : List Insn
unfolding fmla_4s_golden fmla_2d_golden fmls_4s_golden fmls_2d_golden fmul_4s_golden fmul_2d_golden
elements =
    elem_insn (codes "fmla") (codes "VFMLA") 0x1 false fmla_4s_golden
    ∷ elem_insn (codes "fmla") (codes "VFMLA") 0x1 true fmla_2d_golden
    ∷ elem_insn (codes "fmls") (codes "VFMLS") 0x5 false fmls_4s_golden
    ∷ elem_insn (codes "fmls") (codes "VFMLS") 0x5 true fmls_2d_golden
    ∷ elem_insn (codes "fmul") (codes "VFMUL") 0x9 false fmul_4s_golden
    ∷ elem_insn (codes "fmul") (codes "VFMUL") 0x9 true fmul_2d_golden
    ∷ []

unfoldable pub arm64 : Arch
unfolding elements
arm64 = record {
  name = codes "arm64";
  goarch = codes "arm64" ∷ [];
  testdata = codes "arm64enc.s";
  size = 0;
  big_endian_testdata = false;
  tabbed_testdata = false;
  operand_pad = 0;
  insn_pad = 43;
  insns = elements;
}
