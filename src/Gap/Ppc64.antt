-- ===== src/Gap/Ppc64.antt =====
-- internal/gap/ppc64.go: the family ppc64, as its `init` registers it.
pub mod Format
pub mod Double
pub mod Single
pub mod Fields
pub mod Laws
pub mod Matches
use asmgen.Base.{true, false, [], ◌∷◌, ◌++◌}
use asmgen.Base.Text.{codes}
use asmgen.Gap.{Arch}
use Double.{doubles}
use Single.{singles}

unfoldable pub ppc64 : Arch
unfolding doubles singles
ppc64 = record {
  name = codes "ppc64";
  goarch = codes "ppc64" ∷ codes "ppc64le" ∷ [];
  testdata = codes "ppc64.s";
  size = 0;
  big_endian_testdata = true;
  tabbed_testdata = false;
  operand_pad = 0;
  insn_pad = 0;
  insns = doubles ++ singles;
}
