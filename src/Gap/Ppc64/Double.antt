-- ===== src/Gap/Ppc64/Double.antt =====
-- internal/gap/ppc64.go: the VSX arithmetic on two float64 lanes.
use asmgen.Base.{List, [], ◌∷◌, ◌<<<◌, ◌|||◌}
use asmgen.Base.Text.{codes}
use asmgen.Gap.{Insn, case}
use asmgen.Gap.Ppc64.Format.{encode_xx3, encode_xx2}

unfoldable pub xvadddp : Insn
xvadddp = record {
  arch = codes "ppc64";
  isa = codes "xvadddp";
  plan9 = codes "XVADDDP VS{1}, VS{2}, VS{0}";
  mask = 0xfc0007f8;
  bits = 60 <<< 26 ||| 96 <<< 3;
  not_mask = 0;
  not_bits = 0;
  encode = encode_xx3 96;
  golden =
      case (0 ∷ 0 ∷ 0 ∷ []) 0xf0000300
      ∷ case (3 ∷ 2 ∷ 1 ∷ []) 0xf0620b00
      ∷ case (63 ∷ 0 ∷ 0 ∷ []) 0xf3e00301
      ∷ case (0 ∷ 63 ∷ 0 ∷ []) 0xf01f0304
      ∷ case (0 ∷ 0 ∷ 63 ∷ []) 0xf000fb02
      ∷ case (32 ∷ 33 ∷ 34 ∷ []) 0xf0011307
      ∷ case (17 ∷ 41 ∷ 58 ∷ []) 0xf229d306
      ∷ case (63 ∷ 63 ∷ 63 ∷ []) 0xf3fffb07
      ∷ case (31 ∷ 32 ∷ 1 ∷ []) 0xf3e00b04
      ∷ [];
}

unfoldable pub xvsubdp : Insn
xvsubdp = record {
  arch = codes "ppc64";
  isa = codes "xvsubdp";
  plan9 = codes "XVSUBDP VS{1}, VS{2}, VS{0}";
  mask = 0xfc0007f8;
  bits = 60 <<< 26 ||| 104 <<< 3;
  not_mask = 0;
  not_bits = 0;
  encode = encode_xx3 104;
  golden =
      case (0 ∷ 0 ∷ 0 ∷ []) 0xf0000340
      ∷ case (3 ∷ 2 ∷ 1 ∷ []) 0xf0620b40
      ∷ case (63 ∷ 0 ∷ 0 ∷ []) 0xf3e00341
      ∷ case (0 ∷ 63 ∷ 0 ∷ []) 0xf01f0344
      ∷ case (0 ∷ 0 ∷ 63 ∷ []) 0xf000fb42
      ∷ case (32 ∷ 33 ∷ 34 ∷ []) 0xf0011347
      ∷ case (17 ∷ 41 ∷ 58 ∷ []) 0xf229d346
      ∷ case (63 ∷ 63 ∷ 63 ∷ []) 0xf3fffb47
      ∷ case (31 ∷ 32 ∷ 1 ∷ []) 0xf3e00b44
      ∷ [];
}

unfoldable pub xvmuldp : Insn
xvmuldp = record {
  arch = codes "ppc64";
  isa = codes "xvmuldp";
  plan9 = codes "XVMULDP VS{1}, VS{2}, VS{0}";
  mask = 0xfc0007f8;
  bits = 60 <<< 26 ||| 112 <<< 3;
  not_mask = 0;
  not_bits = 0;
  encode = encode_xx3 112;
  golden =
      case (0 ∷ 0 ∷ 0 ∷ []) 0xf0000380
      ∷ case (3 ∷ 2 ∷ 1 ∷ []) 0xf0620b80
      ∷ case (63 ∷ 0 ∷ 0 ∷ []) 0xf3e00381
      ∷ case (0 ∷ 63 ∷ 0 ∷ []) 0xf01f0384
      ∷ case (0 ∷ 0 ∷ 63 ∷ []) 0xf000fb82
      ∷ case (32 ∷ 33 ∷ 34 ∷ []) 0xf0011387
      ∷ case (17 ∷ 41 ∷ 58 ∷ []) 0xf229d386
      ∷ case (63 ∷ 63 ∷ 63 ∷ []) 0xf3fffb87
      ∷ case (31 ∷ 32 ∷ 1 ∷ []) 0xf3e00b84
      ∷ [];
}

unfoldable pub xvdivdp : Insn
xvdivdp = record {
  arch = codes "ppc64";
  isa = codes "xvdivdp";
  plan9 = codes "XVDIVDP VS{1}, VS{2}, VS{0}";
  mask = 0xfc0007f8;
  bits = 60 <<< 26 ||| 120 <<< 3;
  not_mask = 0;
  not_bits = 0;
  encode = encode_xx3 120;
  golden =
      case (0 ∷ 0 ∷ 0 ∷ []) 0xf00003c0
      ∷ case (3 ∷ 2 ∷ 1 ∷ []) 0xf0620bc0
      ∷ case (63 ∷ 0 ∷ 0 ∷ []) 0xf3e003c1
      ∷ case (0 ∷ 63 ∷ 0 ∷ []) 0xf01f03c4
      ∷ case (0 ∷ 0 ∷ 63 ∷ []) 0xf000fbc2
      ∷ case (32 ∷ 33 ∷ 34 ∷ []) 0xf00113c7
      ∷ case (17 ∷ 41 ∷ 58 ∷ []) 0xf229d3c6
      ∷ case (63 ∷ 63 ∷ 63 ∷ []) 0xf3fffbc7
      ∷ case (31 ∷ 32 ∷ 1 ∷ []) 0xf3e00bc4
      ∷ [];
}

unfoldable pub xvmaddadp : Insn
xvmaddadp = record {
  arch = codes "ppc64";
  isa = codes "xvmaddadp";
  plan9 = codes "XVMADDADP VS{1}, VS{2}, VS{0}";
  mask = 0xfc0007f8;
  bits = 60 <<< 26 ||| 97 <<< 3;
  not_mask = 0;
  not_bits = 0;
  encode = encode_xx3 97;
  golden =
      case (0 ∷ 0 ∷ 0 ∷ []) 0xf0000308
      ∷ case (3 ∷ 2 ∷ 1 ∷ []) 0xf0620b08
      ∷ case (63 ∷ 0 ∷ 0 ∷ []) 0xf3e00309
      ∷ case (0 ∷ 63 ∷ 0 ∷ []) 0xf01f030c
      ∷ case (0 ∷ 0 ∷ 63 ∷ []) 0xf000fb0a
      ∷ case (32 ∷ 33 ∷ 34 ∷ []) 0xf001130f
      ∷ case (17 ∷ 41 ∷ 58 ∷ []) 0xf229d30e
      ∷ case (63 ∷ 63 ∷ 63 ∷ []) 0xf3fffb0f
      ∷ case (31 ∷ 32 ∷ 1 ∷ []) 0xf3e00b0c
      ∷ [];
}

unfoldable pub xvmaxdp : Insn
xvmaxdp = record {
  arch = codes "ppc64";
  isa = codes "xvmaxdp";
  plan9 = codes "XVMAXDP VS{1}, VS{2}, VS{0}";
  mask = 0xfc0007f8;
  bits = 60 <<< 26 ||| 224 <<< 3;
  not_mask = 0;
  not_bits = 0;
  encode = encode_xx3 224;
  golden =
      case (0 ∷ 0 ∷ 0 ∷ []) 0xf0000700
      ∷ case (3 ∷ 2 ∷ 1 ∷ []) 0xf0620f00
      ∷ case (63 ∷ 0 ∷ 0 ∷ []) 0xf3e00701
      ∷ case (0 ∷ 63 ∷ 0 ∷ []) 0xf01f0704
      ∷ case (0 ∷ 0 ∷ 63 ∷ []) 0xf000ff02
      ∷ case (32 ∷ 33 ∷ 34 ∷ []) 0xf0011707
      ∷ case (17 ∷ 41 ∷ 58 ∷ []) 0xf229d706
      ∷ case (63 ∷ 63 ∷ 63 ∷ []) 0xf3ffff07
      ∷ case (31 ∷ 32 ∷ 1 ∷ []) 0xf3e00f04
      ∷ [];
}

unfoldable pub xvmindp : Insn
xvmindp = record {
  arch = codes "ppc64";
  isa = codes "xvmindp";
  plan9 = codes "XVMINDP VS{1}, VS{2}, VS{0}";
  mask = 0xfc0007f8;
  bits = 60 <<< 26 ||| 232 <<< 3;
  not_mask = 0;
  not_bits = 0;
  encode = encode_xx3 232;
  golden =
      case (0 ∷ 0 ∷ 0 ∷ []) 0xf0000740
      ∷ case (3 ∷ 2 ∷ 1 ∷ []) 0xf0620f40
      ∷ case (63 ∷ 0 ∷ 0 ∷ []) 0xf3e00741
      ∷ case (0 ∷ 63 ∷ 0 ∷ []) 0xf01f0744
      ∷ case (0 ∷ 0 ∷ 63 ∷ []) 0xf000ff42
      ∷ case (32 ∷ 33 ∷ 34 ∷ []) 0xf0011747
      ∷ case (17 ∷ 41 ∷ 58 ∷ []) 0xf229d746
      ∷ case (63 ∷ 63 ∷ 63 ∷ []) 0xf3ffff47
      ∷ case (31 ∷ 32 ∷ 1 ∷ []) 0xf3e00f44
      ∷ [];
}

unfoldable pub xvsqrtdp : Insn
xvsqrtdp = record {
  arch = codes "ppc64";
  isa = codes "xvsqrtdp";
  plan9 = codes "XVSQRTDP VS{1}, VS{0}";
  mask = 0xfc0007fc;
  bits = 60 <<< 26 ||| 203 <<< 2;
  not_mask = 0;
  not_bits = 0;
  encode = encode_xx2 203;
  golden =
      case (0 ∷ 0 ∷ []) 0xf000032c
      ∷ case (3 ∷ 2 ∷ []) 0xf060132c
      ∷ case (63 ∷ 0 ∷ []) 0xf3e0032d
      ∷ case (0 ∷ 63 ∷ []) 0xf000fb2e
      ∷ case (17 ∷ 41 ∷ []) 0xf2204b2e
      ∷ case (63 ∷ 63 ∷ []) 0xf3e0fb2f
      ∷ case (31 ∷ 32 ∷ []) 0xf3e0032e
      ∷ [];
}

unfoldable pub doubles : List Insn
unfolding xvadddp xvsubdp xvmuldp xvdivdp xvmaddadp xvmaxdp xvmindp xvsqrtdp
doubles = xvadddp ∷ xvsubdp ∷ xvmuldp ∷ xvdivdp ∷ xvmaddadp ∷ xvmaxdp ∷ xvmindp ∷ xvsqrtdp ∷ []
