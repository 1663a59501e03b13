-- ===== src/Gap/Loong64/Csr.antt =====
-- internal/gap/loong64.go: the privileged CSR access instructions.
use asmgen.Base.{List, [], ◌∷◌}
use asmgen.Base.Text.{codes}
use asmgen.Gap.{Insn, case}
use asmgen.Gap.Loong64.Format.{encode_csr, encode_csrxchg}

unfoldable pub csrrd : Insn
csrrd = record {
  arch = codes "loong64";
  isa = codes "csrrd";
  plan9 = codes "CSRRD ${1}, R{0}";
  mask = 0xff0003e0;
  bits = 0x04000000;
  not_mask = 0;
  not_bits = 0;
  encode = encode_csr 0x04000000;
  golden =
      case (0 ∷ 0 ∷ []) 0x04000000
      ∷ case (4 ∷ 1 ∷ []) 0x04000404
      ∷ case (31 ∷ 0 ∷ []) 0x0400001f
      ∷ case (0 ∷ 0x3fff ∷ []) 0x04fffc00
      ∷ case (12 ∷ 0x180 ∷ []) 0x0406000c
      ∷ case (31 ∷ 0x3fff ∷ []) 0x04fffc1f
      ∷ [];
}

unfoldable pub csrwr : Insn
csrwr = record {
  arch = codes "loong64";
  isa = codes "csrwr";
  plan9 = codes "CSRWR ${1}, R{0}";
  mask = 0xff0003e0;
  bits = 0x04000020;
  not_mask = 0;
  not_bits = 0;
  encode = encode_csr 0x04000020;
  golden =
      case (0 ∷ 0 ∷ []) 0x04000020
      ∷ case (19 ∷ 2 ∷ []) 0x04000833
      ∷ case (31 ∷ 0 ∷ []) 0x0400003f
      ∷ case (0 ∷ 0x3fff ∷ []) 0x04fffc20
      ∷ case (12 ∷ 0xc ∷ []) 0x0400302c
      ∷ case (31 ∷ 0x3fff ∷ []) 0x04fffc3f
      ∷ [];
}

unfoldable pub csrxchg : Insn
csrxchg = record {
  arch = codes "loong64";
  isa = codes "csrxchg";
  plan9 = codes "CSRXCHG ${2}, R{1}, R{0}";
  mask = 0xff000000;
  bits = 0x04000000;
  not_mask = 0xff0003c0;
  not_bits = 0x04000000;
  encode = encode_csrxchg;
  golden =
      case (0 ∷ 2 ∷ 0 ∷ []) 0x04000040
      ∷ case (12 ∷ 13 ∷ 1 ∷ []) 0x040005ac
      ∷ case (31 ∷ 2 ∷ 0 ∷ []) 0x0400005f
      ∷ case (0 ∷ 31 ∷ 0 ∷ []) 0x040003e0
      ∷ case (0 ∷ 2 ∷ 0x3fff ∷ []) 0x04fffc40
      ∷ case (4 ∷ 5 ∷ 2 ∷ []) 0x040008a4
      ∷ case (31 ∷ 31 ∷ 0x3fff ∷ []) 0x04ffffff
      ∷ [];
}

unfoldable pub csrs : List Insn
unfolding csrrd csrwr csrxchg
csrs = csrrd ∷ csrwr ∷ csrxchg ∷ []
