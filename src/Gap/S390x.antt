-- ===== src/Gap/S390x.antt =====
-- internal/gap/s390x.go: the family s390x, as its `init` registers it.
pub mod Format
pub mod Three
pub mod Other
pub mod Fields
pub mod Laws
pub mod Matches
use asmgen.Base.{true, false, [], ◌∷◌, ◌++◌}
use asmgen.Base.Text.{codes}
use asmgen.Gap.{Arch}
use Three.{threes}
use Other.{others}

unfoldable pub s390x : Arch
unfolding threes others
s390x = record {
  name = codes "s390x";
  goarch = codes "s390x" ∷ [];
  testdata = codes "s390x.s";
  size = 6;
  big_endian_testdata = true;
  tabbed_testdata = false;
  operand_pad = 24;
  insn_pad = 0;
  insns = threes ++ others;
}
