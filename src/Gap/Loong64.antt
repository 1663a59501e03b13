-- ===== src/Gap/Loong64.antt =====
-- internal/gap/loong64.go: the family loong64, as its `init` registers it.
pub mod Format
pub mod Vector
pub mod Csr
pub mod Fields
pub mod Laws
pub mod Matches
use asmgen.Base.{true, false, [], ◌∷◌, ◌++◌}
use asmgen.Base.Text.{codes}
use asmgen.Gap.{Arch}
use Vector.{vectors}
use Csr.{csrs}

unfoldable pub loong64 : Arch
unfolding vectors csrs
loong64 = record {
  name = codes "loong64";
  goarch = codes "loong64" ∷ [];
  testdata = codes "loong64enc1.s";
  size = 0;
  big_endian_testdata = false;
  tabbed_testdata = true;
  operand_pad = 0;
  insn_pad = 0;
  insns = vectors ++ csrs;
}
