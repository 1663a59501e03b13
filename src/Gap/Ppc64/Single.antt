-- ===== src/Gap/Ppc64/Single.antt =====
-- internal/gap/ppc64.go: the VSX arithmetic on four float32 lanes.
use asmgen.Base.{List, [], ◌∷◌, ◌<<<◌, ◌|||◌}
use asmgen.Base.Text.{codes}
use asmgen.Gap.{Insn, case}
use asmgen.Gap.Ppc64.Format.{encode_xx3, encode_xx2}

unfoldable pub xvaddsp : Insn
xvaddsp = record {
  arch = codes "ppc64";
  isa = codes "xvaddsp";
  plan9 = codes "XVADDSP VS{1}, VS{2}, VS{0}";
  mask = 0xfc0007f8;
  bits = 60 <<< 26 ||| 64 <<< 3;
  not_mask = 0;
  not_bits = 0;
  encode = encode_xx3 64;
  golden =
      case (0 ∷ 0 ∷ 0 ∷ []) 0xf0000200
      ∷ case (3 ∷ 2 ∷ 1 ∷ []) 0xf0620a00
      ∷ case (63 ∷ 0 ∷ 0 ∷ []) 0xf3e00201
      ∷ case (0 ∷ 63 ∷ 0 ∷ []) 0xf01f0204
      ∷ case (0 ∷ 0 ∷ 63 ∷ []) 0xf000fa02
      ∷ case (32 ∷ 33 ∷ 34 ∷ []) 0xf0011207
      ∷ case (17 ∷ 41 ∷ 58 ∷ []) 0xf229d206
      ∷ case (63 ∷ 63 ∷ 63 ∷ []) 0xf3fffa07
      ∷ case (31 ∷ 32 ∷ 1 ∷ []) 0xf3e00a04
      ∷ [];
}

unfoldable pub xvsubsp : Insn
xvsubsp = record {
  arch = codes "ppc64";
  isa = codes "xvsubsp";
  plan9 = codes "XVSUBSP VS{1}, VS{2}, VS{0}";
  mask = 0xfc0007f8;
  bits = 60 <<< 26 ||| 72 <<< 3;
  not_mask = 0;
  not_bits = 0;
  encode = encode_xx3 72;
  golden =
      case (0 ∷ 0 ∷ 0 ∷ []) 0xf0000240
      ∷ case (3 ∷ 2 ∷ 1 ∷ []) 0xf0620a40
      ∷ case (63 ∷ 0 ∷ 0 ∷ []) 0xf3e00241
      ∷ case (0 ∷ 63 ∷ 0 ∷ []) 0xf01f0244
      ∷ case (0 ∷ 0 ∷ 63 ∷ []) 0xf000fa42
      ∷ case (32 ∷ 33 ∷ 34 ∷ []) 0xf0011247
      ∷ case (17 ∷ 41 ∷ 58 ∷ []) 0xf229d246
      ∷ case (63 ∷ 63 ∷ 63 ∷ []) 0xf3fffa47
      ∷ case (31 ∷ 32 ∷ 1 ∷ []) 0xf3e00a44
      ∷ [];
}

unfoldable pub xvmulsp : Insn
xvmulsp = record {
  arch = codes "ppc64";
  isa = codes "xvmulsp";
  plan9 = codes "XVMULSP VS{1}, VS{2}, VS{0}";
  mask = 0xfc0007f8;
  bits = 60 <<< 26 ||| 80 <<< 3;
  not_mask = 0;
  not_bits = 0;
  encode = encode_xx3 80;
  golden =
      case (0 ∷ 0 ∷ 0 ∷ []) 0xf0000280
      ∷ case (3 ∷ 2 ∷ 1 ∷ []) 0xf0620a80
      ∷ case (63 ∷ 0 ∷ 0 ∷ []) 0xf3e00281
      ∷ case (0 ∷ 63 ∷ 0 ∷ []) 0xf01f0284
      ∷ case (0 ∷ 0 ∷ 63 ∷ []) 0xf000fa82
      ∷ case (32 ∷ 33 ∷ 34 ∷ []) 0xf0011287
      ∷ case (17 ∷ 41 ∷ 58 ∷ []) 0xf229d286
      ∷ case (63 ∷ 63 ∷ 63 ∷ []) 0xf3fffa87
      ∷ case (31 ∷ 32 ∷ 1 ∷ []) 0xf3e00a84
      ∷ [];
}

unfoldable pub xvdivsp : Insn
xvdivsp = record {
  arch = codes "ppc64";
  isa = codes "xvdivsp";
  plan9 = codes "XVDIVSP VS{1}, VS{2}, VS{0}";
  mask = 0xfc0007f8;
  bits = 60 <<< 26 ||| 88 <<< 3;
  not_mask = 0;
  not_bits = 0;
  encode = encode_xx3 88;
  golden =
      case (0 ∷ 0 ∷ 0 ∷ []) 0xf00002c0
      ∷ case (3 ∷ 2 ∷ 1 ∷ []) 0xf0620ac0
      ∷ case (63 ∷ 0 ∷ 0 ∷ []) 0xf3e002c1
      ∷ case (0 ∷ 63 ∷ 0 ∷ []) 0xf01f02c4
      ∷ case (0 ∷ 0 ∷ 63 ∷ []) 0xf000fac2
      ∷ case (32 ∷ 33 ∷ 34 ∷ []) 0xf00112c7
      ∷ case (17 ∷ 41 ∷ 58 ∷ []) 0xf229d2c6
      ∷ case (63 ∷ 63 ∷ 63 ∷ []) 0xf3fffac7
      ∷ case (31 ∷ 32 ∷ 1 ∷ []) 0xf3e00ac4
      ∷ [];
}

unfoldable pub xvmaddasp : Insn
xvmaddasp = record {
  arch = codes "ppc64";
  isa = codes "xvmaddasp";
  plan9 = codes "XVMADDASP VS{1}, VS{2}, VS{0}";
  mask = 0xfc0007f8;
  bits = 60 <<< 26 ||| 65 <<< 3;
  not_mask = 0;
  not_bits = 0;
  encode = encode_xx3 65;
  golden =
      case (0 ∷ 0 ∷ 0 ∷ []) 0xf0000208
      ∷ case (3 ∷ 2 ∷ 1 ∷ []) 0xf0620a08
      ∷ case (63 ∷ 0 ∷ 0 ∷ []) 0xf3e00209
      ∷ case (0 ∷ 63 ∷ 0 ∷ []) 0xf01f020c
      ∷ case (0 ∷ 0 ∷ 63 ∷ []) 0xf000fa0a
      ∷ case (32 ∷ 33 ∷ 34 ∷ []) 0xf001120f
      ∷ case (17 ∷ 41 ∷ 58 ∷ []) 0xf229d20e
      ∷ case (63 ∷ 63 ∷ 63 ∷ []) 0xf3fffa0f
      ∷ case (31 ∷ 32 ∷ 1 ∷ []) 0xf3e00a0c
      ∷ [];
}

unfoldable pub xvmaxsp : Insn
xvmaxsp = record {
  arch = codes "ppc64";
  isa = codes "xvmaxsp";
  plan9 = codes "XVMAXSP VS{1}, VS{2}, VS{0}";
  mask = 0xfc0007f8;
  bits = 60 <<< 26 ||| 192 <<< 3;
  not_mask = 0;
  not_bits = 0;
  encode = encode_xx3 192;
  golden =
      case (0 ∷ 0 ∷ 0 ∷ []) 0xf0000600
      ∷ case (3 ∷ 2 ∷ 1 ∷ []) 0xf0620e00
      ∷ case (63 ∷ 0 ∷ 0 ∷ []) 0xf3e00601
      ∷ case (0 ∷ 63 ∷ 0 ∷ []) 0xf01f0604
      ∷ case (0 ∷ 0 ∷ 63 ∷ []) 0xf000fe02
      ∷ case (32 ∷ 33 ∷ 34 ∷ []) 0xf0011607
      ∷ case (17 ∷ 41 ∷ 58 ∷ []) 0xf229d606
      ∷ case (63 ∷ 63 ∷ 63 ∷ []) 0xf3fffe07
      ∷ case (31 ∷ 32 ∷ 1 ∷ []) 0xf3e00e04
      ∷ [];
}

unfoldable pub xvminsp : Insn
xvminsp = record {
  arch = codes "ppc64";
  isa = codes "xvminsp";
  plan9 = codes "XVMINSP VS{1}, VS{2}, VS{0}";
  mask = 0xfc0007f8;
  bits = 60 <<< 26 ||| 200 <<< 3;
  not_mask = 0;
  not_bits = 0;
  encode = encode_xx3 200;
  golden =
      case (0 ∷ 0 ∷ 0 ∷ []) 0xf0000640
      ∷ case (3 ∷ 2 ∷ 1 ∷ []) 0xf0620e40
      ∷ case (63 ∷ 0 ∷ 0 ∷ []) 0xf3e00641
      ∷ case (0 ∷ 63 ∷ 0 ∷ []) 0xf01f0644
      ∷ case (0 ∷ 0 ∷ 63 ∷ []) 0xf000fe42
      ∷ case (32 ∷ 33 ∷ 34 ∷ []) 0xf0011647
      ∷ case (17 ∷ 41 ∷ 58 ∷ []) 0xf229d646
      ∷ case (63 ∷ 63 ∷ 63 ∷ []) 0xf3fffe47
      ∷ case (31 ∷ 32 ∷ 1 ∷ []) 0xf3e00e44
      ∷ [];
}

unfoldable pub xvsqrtsp : Insn
xvsqrtsp = record {
  arch = codes "ppc64";
  isa = codes "xvsqrtsp";
  plan9 = codes "XVSQRTSP VS{1}, VS{0}";
  mask = 0xfc0007fc;
  bits = 60 <<< 26 ||| 139 <<< 2;
  not_mask = 0;
  not_bits = 0;
  encode = encode_xx2 139;
  golden =
      case (0 ∷ 0 ∷ []) 0xf000022c
      ∷ case (3 ∷ 2 ∷ []) 0xf060122c
      ∷ case (63 ∷ 0 ∷ []) 0xf3e0022d
      ∷ case (0 ∷ 63 ∷ []) 0xf000fa2e
      ∷ case (17 ∷ 41 ∷ []) 0xf2204a2e
      ∷ case (63 ∷ 63 ∷ []) 0xf3e0fa2f
      ∷ case (31 ∷ 32 ∷ []) 0xf3e0022e
      ∷ [];
}

unfoldable pub singles : List Insn
unfolding xvaddsp xvsubsp xvmulsp xvdivsp xvmaddasp xvmaxsp xvminsp xvsqrtsp
singles = xvaddsp ∷ xvsubsp ∷ xvmulsp ∷ xvdivsp ∷ xvmaddasp ∷ xvmaxsp ∷ xvminsp ∷ xvsqrtsp ∷ []
