-- ===== src/Gap/S390x/Other.antt =====
-- internal/gap/s390x.go: the float32 instructions of four and of two registers.
use asmgen.Base.{List, [], ◌∷◌}
use asmgen.Base.Text.{codes}
use asmgen.Gap.{Insn, case}
use asmgen.Gap.S390x.Format.{vrre_entry, vrra_entry}

unfoldable pub vfmasb : Insn
vfmasb = vrre_entry (codes "vfmasb") (codes "VFMASB V{1}, V{2}, V{3}, V{0}") 0x8f 0 (
    case (0 ∷ 0 ∷ 0 ∷ 0 ∷ []) 0xe7000200008f
    ∷ case (4 ∷ 1 ∷ 2 ∷ 3 ∷ []) 0xe7412200308f
    ∷ case (16 ∷ 0 ∷ 0 ∷ 0 ∷ []) 0xe7000200088f
    ∷ case (0 ∷ 16 ∷ 0 ∷ 0 ∷ []) 0xe7000200048f
    ∷ case (0 ∷ 0 ∷ 16 ∷ 0 ∷ []) 0xe7000200028f
    ∷ case (0 ∷ 0 ∷ 0 ∷ 16 ∷ []) 0xe7000200018f
    ∷ case (15 ∷ 16 ∷ 31 ∷ 0 ∷ []) 0xe7f0f200068f
    ∷ case (31 ∷ 15 ∷ 16 ∷ 15 ∷ []) 0xe7ff0200fa8f
    ∷ case (16 ∷ 31 ∷ 15 ∷ 31 ∷ []) 0xe70ff200fd8f
    ∷ case (31 ∷ 31 ∷ 31 ∷ 31 ∷ []) 0xe7fff200ff8f
    ∷ [])

unfoldable pub wfmasb : Insn
wfmasb = vrre_entry (codes "wfmasb") (codes "WFMASB V{1}, V{2}, V{3}, V{0}") 0x8f 8 (
    case (0 ∷ 0 ∷ 0 ∷ 0 ∷ []) 0xe7000208008f
    ∷ case (4 ∷ 1 ∷ 2 ∷ 3 ∷ []) 0xe7412208308f
    ∷ case (16 ∷ 0 ∷ 0 ∷ 0 ∷ []) 0xe7000208088f
    ∷ case (0 ∷ 16 ∷ 0 ∷ 0 ∷ []) 0xe7000208048f
    ∷ case (0 ∷ 0 ∷ 16 ∷ 0 ∷ []) 0xe7000208028f
    ∷ case (0 ∷ 0 ∷ 0 ∷ 16 ∷ []) 0xe7000208018f
    ∷ case (15 ∷ 16 ∷ 31 ∷ 0 ∷ []) 0xe7f0f208068f
    ∷ case (31 ∷ 15 ∷ 16 ∷ 15 ∷ []) 0xe7ff0208fa8f
    ∷ case (16 ∷ 31 ∷ 15 ∷ 31 ∷ []) 0xe70ff208fd8f
    ∷ case (31 ∷ 31 ∷ 31 ∷ 31 ∷ []) 0xe7fff208ff8f
    ∷ [])

unfoldable pub vfmssb : Insn
vfmssb = vrre_entry (codes "vfmssb") (codes "VFMSSB V{1}, V{2}, V{3}, V{0}") 0x8e 0 (
    case (0 ∷ 0 ∷ 0 ∷ 0 ∷ []) 0xe7000200008e
    ∷ case (4 ∷ 1 ∷ 2 ∷ 3 ∷ []) 0xe7412200308e
    ∷ case (16 ∷ 0 ∷ 0 ∷ 0 ∷ []) 0xe7000200088e
    ∷ case (0 ∷ 16 ∷ 0 ∷ 0 ∷ []) 0xe7000200048e
    ∷ case (0 ∷ 0 ∷ 16 ∷ 0 ∷ []) 0xe7000200028e
    ∷ case (0 ∷ 0 ∷ 0 ∷ 16 ∷ []) 0xe7000200018e
    ∷ case (15 ∷ 16 ∷ 31 ∷ 0 ∷ []) 0xe7f0f200068e
    ∷ case (31 ∷ 15 ∷ 16 ∷ 15 ∷ []) 0xe7ff0200fa8e
    ∷ case (16 ∷ 31 ∷ 15 ∷ 31 ∷ []) 0xe70ff200fd8e
    ∷ case (31 ∷ 31 ∷ 31 ∷ 31 ∷ []) 0xe7fff200ff8e
    ∷ [])

unfoldable pub wfmssb : Insn
wfmssb = vrre_entry (codes "wfmssb") (codes "WFMSSB V{1}, V{2}, V{3}, V{0}") 0x8e 8 (
    case (0 ∷ 0 ∷ 0 ∷ 0 ∷ []) 0xe7000208008e
    ∷ case (4 ∷ 1 ∷ 2 ∷ 3 ∷ []) 0xe7412208308e
    ∷ case (16 ∷ 0 ∷ 0 ∷ 0 ∷ []) 0xe7000208088e
    ∷ case (0 ∷ 16 ∷ 0 ∷ 0 ∷ []) 0xe7000208048e
    ∷ case (0 ∷ 0 ∷ 16 ∷ 0 ∷ []) 0xe7000208028e
    ∷ case (0 ∷ 0 ∷ 0 ∷ 16 ∷ []) 0xe7000208018e
    ∷ case (15 ∷ 16 ∷ 31 ∷ 0 ∷ []) 0xe7f0f208068e
    ∷ case (31 ∷ 15 ∷ 16 ∷ 15 ∷ []) 0xe7ff0208fa8e
    ∷ case (16 ∷ 31 ∷ 15 ∷ 31 ∷ []) 0xe70ff208fd8e
    ∷ case (31 ∷ 31 ∷ 31 ∷ 31 ∷ []) 0xe7fff208ff8e
    ∷ [])

unfoldable pub vfsqsb : Insn
vfsqsb = vrra_entry (codes "vfsqsb") (codes "VFSQSB V{1}, V{0}") 0xce 0 (
    case (0 ∷ 0 ∷ []) 0xe700000020ce
    ∷ case (2 ∷ 1 ∷ []) 0xe721000020ce
    ∷ case (16 ∷ 0 ∷ []) 0xe700000028ce
    ∷ case (0 ∷ 16 ∷ []) 0xe700000024ce
    ∷ case (15 ∷ 16 ∷ []) 0xe7f0000024ce
    ∷ case (31 ∷ 15 ∷ []) 0xe7ff000028ce
    ∷ case (31 ∷ 31 ∷ []) 0xe7ff00002cce
    ∷ [])

unfoldable pub wfsqsb : Insn
wfsqsb = vrra_entry (codes "wfsqsb") (codes "WFSQSB V{1}, V{0}") 0xce 8 (
    case (0 ∷ 0 ∷ []) 0xe700000820ce
    ∷ case (2 ∷ 1 ∷ []) 0xe721000820ce
    ∷ case (16 ∷ 0 ∷ []) 0xe700000828ce
    ∷ case (0 ∷ 16 ∷ []) 0xe700000824ce
    ∷ case (15 ∷ 16 ∷ []) 0xe7f0000824ce
    ∷ case (31 ∷ 15 ∷ []) 0xe7ff000828ce
    ∷ case (31 ∷ 31 ∷ []) 0xe7ff00082cce
    ∷ [])

unfoldable pub others : List Insn
unfolding vfmasb wfmasb vfmssb wfmssb vfsqsb wfsqsb
others = vfmasb ∷ wfmasb ∷ vfmssb ∷ wfmssb ∷ vfsqsb ∷ wfsqsb ∷ []
