-- ===== src/Gap/Loong64/Vector.antt =====
-- internal/gap/loong64.go: the fused multiply-adds and the broadcast loads.
use asmgen.Base.{List, [], ◌∷◌}
use asmgen.Base.Int.{pos, negsuc}
use asmgen.Base.Text.{codes}
use asmgen.Gap.{Insn, case, case_ℤ}
use asmgen.Gap.Loong64.Format.{encode_r4, encode_ldrepl}

unfoldable pub vfmadd_d : Insn
vfmadd_d = record {
  arch = codes "loong64";
  isa = codes "vfmadd.d";
  plan9 = codes "VFMADDD V{3}, V{2}, V{1}, V{0}";
  mask = 0xfff00000;
  bits = 0x09200000;
  not_mask = 0;
  not_bits = 0;
  encode = encode_r4 0x09200000;
  golden =
      case (0 ∷ 0 ∷ 0 ∷ 0 ∷ []) 0x09200000
      ∷ case (3 ∷ 2 ∷ 1 ∷ 4 ∷ []) 0x09220443
      ∷ case (31 ∷ 0 ∷ 0 ∷ 0 ∷ []) 0x0920001f
      ∷ case (0 ∷ 31 ∷ 0 ∷ 0 ∷ []) 0x092003e0
      ∷ case (0 ∷ 0 ∷ 31 ∷ 0 ∷ []) 0x09207c00
      ∷ case (0 ∷ 0 ∷ 0 ∷ 31 ∷ []) 0x092f8000
      ∷ case (17 ∷ 9 ∷ 26 ∷ 5 ∷ []) 0x0922e931
      ∷ case (31 ∷ 31 ∷ 31 ∷ 31 ∷ []) 0x092fffff
      ∷ [];
}

unfoldable pub xvfmadd_d : Insn
xvfmadd_d = record {
  arch = codes "loong64";
  isa = codes "xvfmadd.d";
  plan9 = codes "XVFMADDD X{3}, X{2}, X{1}, X{0}";
  mask = 0xfff00000;
  bits = 0x0a200000;
  not_mask = 0;
  not_bits = 0;
  encode = encode_r4 0x0a200000;
  golden =
      case (0 ∷ 0 ∷ 0 ∷ 0 ∷ []) 0x0a200000
      ∷ case (3 ∷ 2 ∷ 1 ∷ 4 ∷ []) 0x0a220443
      ∷ case (31 ∷ 0 ∷ 0 ∷ 0 ∷ []) 0x0a20001f
      ∷ case (0 ∷ 31 ∷ 0 ∷ 0 ∷ []) 0x0a2003e0
      ∷ case (0 ∷ 0 ∷ 31 ∷ 0 ∷ []) 0x0a207c00
      ∷ case (0 ∷ 0 ∷ 0 ∷ 31 ∷ []) 0x0a2f8000
      ∷ case (17 ∷ 9 ∷ 26 ∷ 5 ∷ []) 0x0a22e931
      ∷ case (31 ∷ 31 ∷ 31 ∷ 31 ∷ []) 0x0a2fffff
      ∷ [];
}

unfoldable pub vfmadd_s : Insn
vfmadd_s = record {
  arch = codes "loong64";
  isa = codes "vfmadd.s";
  plan9 = codes "VFMADDF V{3}, V{2}, V{1}, V{0}";
  mask = 0xfff00000;
  bits = 0x09100000;
  not_mask = 0;
  not_bits = 0;
  encode = encode_r4 0x09100000;
  golden =
      case (0 ∷ 0 ∷ 0 ∷ 0 ∷ []) 0x09100000
      ∷ case (3 ∷ 2 ∷ 1 ∷ 4 ∷ []) 0x09120443
      ∷ case (31 ∷ 0 ∷ 0 ∷ 0 ∷ []) 0x0910001f
      ∷ case (0 ∷ 31 ∷ 0 ∷ 0 ∷ []) 0x091003e0
      ∷ case (0 ∷ 0 ∷ 31 ∷ 0 ∷ []) 0x09107c00
      ∷ case (0 ∷ 0 ∷ 0 ∷ 31 ∷ []) 0x091f8000
      ∷ case (17 ∷ 9 ∷ 26 ∷ 5 ∷ []) 0x0912e931
      ∷ case (31 ∷ 31 ∷ 31 ∷ 31 ∷ []) 0x091fffff
      ∷ [];
}

unfoldable pub xvfmadd_s : Insn
xvfmadd_s = record {
  arch = codes "loong64";
  isa = codes "xvfmadd.s";
  plan9 = codes "XVFMADDF X{3}, X{2}, X{1}, X{0}";
  mask = 0xfff00000;
  bits = 0x0a100000;
  not_mask = 0;
  not_bits = 0;
  encode = encode_r4 0x0a100000;
  golden =
      case (0 ∷ 0 ∷ 0 ∷ 0 ∷ []) 0x0a100000
      ∷ case (3 ∷ 2 ∷ 1 ∷ 4 ∷ []) 0x0a120443
      ∷ case (31 ∷ 0 ∷ 0 ∷ 0 ∷ []) 0x0a10001f
      ∷ case (0 ∷ 31 ∷ 0 ∷ 0 ∷ []) 0x0a1003e0
      ∷ case (0 ∷ 0 ∷ 31 ∷ 0 ∷ []) 0x0a107c00
      ∷ case (0 ∷ 0 ∷ 0 ∷ 31 ∷ []) 0x0a1f8000
      ∷ case (17 ∷ 9 ∷ 26 ∷ 5 ∷ []) 0x0a12e931
      ∷ case (31 ∷ 31 ∷ 31 ∷ 31 ∷ []) 0x0a1fffff
      ∷ [];
}

unfoldable pub vldrepl_d : Insn
vldrepl_d = record {
  arch = codes "loong64";
  isa = codes "vldrepl.d";
  plan9 = codes "VMOVQ {2}(R{1}), V{0}.V2";
  mask = 0xfff80000;
  bits = 0x30100000;
  not_mask = 0;
  not_bits = 0;
  encode = encode_ldrepl 0x30100000;
  golden =
      case (0 ∷ 4 ∷ 0 ∷ []) 0x30100080
      ∷ case (4 ∷ 4 ∷ 8 ∷ []) 0x30100484
      ∷ case (31 ∷ 4 ∷ 0 ∷ []) 0x3010009f
      ∷ case (0 ∷ 31 ∷ 0 ∷ []) 0x301003e0
      ∷ case (7 ∷ 12 ∷ 2040 ∷ []) 0x3013fd87
      ∷ case_ℤ (pos 9 ∷ pos 5 ∷ negsuc 2047 ∷ []) 0x301400a9
      ∷ case_ℤ (pos 3 ∷ pos 6 ∷ negsuc 7 ∷ []) 0x3017fcc3
      ∷ case (31 ∷ 31 ∷ 2040 ∷ []) 0x3013ffff
      ∷ [];
}

unfoldable pub xvldrepl_d : Insn
xvldrepl_d = record {
  arch = codes "loong64";
  isa = codes "xvldrepl.d";
  plan9 = codes "XVMOVQ {2}(R{1}), X{0}.V4";
  mask = 0xfff80000;
  bits = 0x32100000;
  not_mask = 0;
  not_bits = 0;
  encode = encode_ldrepl 0x32100000;
  golden =
      case (0 ∷ 4 ∷ 0 ∷ []) 0x32100080
      ∷ case (4 ∷ 4 ∷ 8 ∷ []) 0x32100484
      ∷ case (31 ∷ 4 ∷ 0 ∷ []) 0x3210009f
      ∷ case (0 ∷ 31 ∷ 0 ∷ []) 0x321003e0
      ∷ case (7 ∷ 12 ∷ 2040 ∷ []) 0x3213fd87
      ∷ case_ℤ (pos 9 ∷ pos 5 ∷ negsuc 2047 ∷ []) 0x321400a9
      ∷ case_ℤ (pos 3 ∷ pos 6 ∷ negsuc 7 ∷ []) 0x3217fcc3
      ∷ case (31 ∷ 31 ∷ 2040 ∷ []) 0x3213ffff
      ∷ [];
}

unfoldable pub vectors : List Insn
unfolding vfmadd_d xvfmadd_d vfmadd_s xvfmadd_s vldrepl_d xvldrepl_d
vectors = vfmadd_d ∷ xvfmadd_d ∷ vfmadd_s ∷ xvfmadd_s ∷ vldrepl_d ∷ xvldrepl_d ∷ []
