-- ===== src/Gap/S390x/Three.antt =====
-- internal/gap/s390x.go: the float32 instructions of three registers.
use asmgen.Base.{List, [], ◌∷◌}
use asmgen.Base.Text.{codes}
use asmgen.Gap.{Insn, case}
use asmgen.Gap.S390x.Format.{vrrc_entry}

unfoldable pub vfasb : Insn
vfasb = vrrc_entry (codes "vfasb") (codes "VFASB V{1}, V{2}, V{0}") 0xe3 0 (
    case (0 ∷ 0 ∷ 0 ∷ []) 0xe700000020e3
    ∷ case (3 ∷ 1 ∷ 2 ∷ []) 0xe731200020e3
    ∷ case (16 ∷ 0 ∷ 0 ∷ []) 0xe700000028e3
    ∷ case (0 ∷ 16 ∷ 0 ∷ []) 0xe700000024e3
    ∷ case (0 ∷ 0 ∷ 16 ∷ []) 0xe700000022e3
    ∷ case (15 ∷ 16 ∷ 31 ∷ []) 0xe7f0f00026e3
    ∷ case (31 ∷ 15 ∷ 16 ∷ []) 0xe7ff00002ae3
    ∷ case (16 ∷ 31 ∷ 15 ∷ []) 0xe70ff0002ce3
    ∷ case (31 ∷ 31 ∷ 31 ∷ []) 0xe7fff0002ee3
    ∷ [])

unfoldable pub wfasb : Insn
wfasb = vrrc_entry (codes "wfasb") (codes "WFASB V{1}, V{2}, V{0}") 0xe3 8 (
    case (0 ∷ 0 ∷ 0 ∷ []) 0xe700000820e3
    ∷ case (3 ∷ 1 ∷ 2 ∷ []) 0xe731200820e3
    ∷ case (16 ∷ 0 ∷ 0 ∷ []) 0xe700000828e3
    ∷ case (0 ∷ 16 ∷ 0 ∷ []) 0xe700000824e3
    ∷ case (0 ∷ 0 ∷ 16 ∷ []) 0xe700000822e3
    ∷ case (15 ∷ 16 ∷ 31 ∷ []) 0xe7f0f00826e3
    ∷ case (31 ∷ 15 ∷ 16 ∷ []) 0xe7ff00082ae3
    ∷ case (16 ∷ 31 ∷ 15 ∷ []) 0xe70ff0082ce3
    ∷ case (31 ∷ 31 ∷ 31 ∷ []) 0xe7fff0082ee3
    ∷ [])

unfoldable pub vfssb : Insn
vfssb = vrrc_entry (codes "vfssb") (codes "VFSSB V{2}, V{1}, V{0}") 0xe2 0 (
    case (0 ∷ 0 ∷ 0 ∷ []) 0xe700000020e2
    ∷ case (3 ∷ 1 ∷ 2 ∷ []) 0xe731200020e2
    ∷ case (16 ∷ 0 ∷ 0 ∷ []) 0xe700000028e2
    ∷ case (0 ∷ 16 ∷ 0 ∷ []) 0xe700000024e2
    ∷ case (0 ∷ 0 ∷ 16 ∷ []) 0xe700000022e2
    ∷ case (15 ∷ 16 ∷ 31 ∷ []) 0xe7f0f00026e2
    ∷ case (31 ∷ 15 ∷ 16 ∷ []) 0xe7ff00002ae2
    ∷ case (16 ∷ 31 ∷ 15 ∷ []) 0xe70ff0002ce2
    ∷ case (31 ∷ 31 ∷ 31 ∷ []) 0xe7fff0002ee2
    ∷ [])

unfoldable pub wfssb : Insn
wfssb = vrrc_entry (codes "wfssb") (codes "WFSSB V{2}, V{1}, V{0}") 0xe2 8 (
    case (0 ∷ 0 ∷ 0 ∷ []) 0xe700000820e2
    ∷ case (3 ∷ 1 ∷ 2 ∷ []) 0xe731200820e2
    ∷ case (16 ∷ 0 ∷ 0 ∷ []) 0xe700000828e2
    ∷ case (0 ∷ 16 ∷ 0 ∷ []) 0xe700000824e2
    ∷ case (0 ∷ 0 ∷ 16 ∷ []) 0xe700000822e2
    ∷ case (15 ∷ 16 ∷ 31 ∷ []) 0xe7f0f00826e2
    ∷ case (31 ∷ 15 ∷ 16 ∷ []) 0xe7ff00082ae2
    ∷ case (16 ∷ 31 ∷ 15 ∷ []) 0xe70ff0082ce2
    ∷ case (31 ∷ 31 ∷ 31 ∷ []) 0xe7fff0082ee2
    ∷ [])

unfoldable pub vfmsb : Insn
vfmsb = vrrc_entry (codes "vfmsb") (codes "VFMSB V{1}, V{2}, V{0}") 0xe7 0 (
    case (0 ∷ 0 ∷ 0 ∷ []) 0xe700000020e7
    ∷ case (3 ∷ 1 ∷ 2 ∷ []) 0xe731200020e7
    ∷ case (16 ∷ 0 ∷ 0 ∷ []) 0xe700000028e7
    ∷ case (0 ∷ 16 ∷ 0 ∷ []) 0xe700000024e7
    ∷ case (0 ∷ 0 ∷ 16 ∷ []) 0xe700000022e7
    ∷ case (15 ∷ 16 ∷ 31 ∷ []) 0xe7f0f00026e7
    ∷ case (31 ∷ 15 ∷ 16 ∷ []) 0xe7ff00002ae7
    ∷ case (16 ∷ 31 ∷ 15 ∷ []) 0xe70ff0002ce7
    ∷ case (31 ∷ 31 ∷ 31 ∷ []) 0xe7fff0002ee7
    ∷ [])

unfoldable pub wfmsb : Insn
wfmsb = vrrc_entry (codes "wfmsb") (codes "WFMSB V{1}, V{2}, V{0}") 0xe7 8 (
    case (0 ∷ 0 ∷ 0 ∷ []) 0xe700000820e7
    ∷ case (3 ∷ 1 ∷ 2 ∷ []) 0xe731200820e7
    ∷ case (16 ∷ 0 ∷ 0 ∷ []) 0xe700000828e7
    ∷ case (0 ∷ 16 ∷ 0 ∷ []) 0xe700000824e7
    ∷ case (0 ∷ 0 ∷ 16 ∷ []) 0xe700000822e7
    ∷ case (15 ∷ 16 ∷ 31 ∷ []) 0xe7f0f00826e7
    ∷ case (31 ∷ 15 ∷ 16 ∷ []) 0xe7ff00082ae7
    ∷ case (16 ∷ 31 ∷ 15 ∷ []) 0xe70ff0082ce7
    ∷ case (31 ∷ 31 ∷ 31 ∷ []) 0xe7fff0082ee7
    ∷ [])

unfoldable pub vfdsb : Insn
vfdsb = vrrc_entry (codes "vfdsb") (codes "VFDSB V{2}, V{1}, V{0}") 0xe5 0 (
    case (0 ∷ 0 ∷ 0 ∷ []) 0xe700000020e5
    ∷ case (3 ∷ 1 ∷ 2 ∷ []) 0xe731200020e5
    ∷ case (16 ∷ 0 ∷ 0 ∷ []) 0xe700000028e5
    ∷ case (0 ∷ 16 ∷ 0 ∷ []) 0xe700000024e5
    ∷ case (0 ∷ 0 ∷ 16 ∷ []) 0xe700000022e5
    ∷ case (15 ∷ 16 ∷ 31 ∷ []) 0xe7f0f00026e5
    ∷ case (31 ∷ 15 ∷ 16 ∷ []) 0xe7ff00002ae5
    ∷ case (16 ∷ 31 ∷ 15 ∷ []) 0xe70ff0002ce5
    ∷ case (31 ∷ 31 ∷ 31 ∷ []) 0xe7fff0002ee5
    ∷ [])

unfoldable pub wfdsb : Insn
wfdsb = vrrc_entry (codes "wfdsb") (codes "WFDSB V{2}, V{1}, V{0}") 0xe5 8 (
    case (0 ∷ 0 ∷ 0 ∷ []) 0xe700000820e5
    ∷ case (3 ∷ 1 ∷ 2 ∷ []) 0xe731200820e5
    ∷ case (16 ∷ 0 ∷ 0 ∷ []) 0xe700000828e5
    ∷ case (0 ∷ 16 ∷ 0 ∷ []) 0xe700000824e5
    ∷ case (0 ∷ 0 ∷ 16 ∷ []) 0xe700000822e5
    ∷ case (15 ∷ 16 ∷ 31 ∷ []) 0xe7f0f00826e5
    ∷ case (31 ∷ 15 ∷ 16 ∷ []) 0xe7ff00082ae5
    ∷ case (16 ∷ 31 ∷ 15 ∷ []) 0xe70ff0082ce5
    ∷ case (31 ∷ 31 ∷ 31 ∷ []) 0xe7fff0082ee5
    ∷ [])

unfoldable pub threes : List Insn
unfolding vfasb wfasb vfssb wfssb vfmsb wfmsb vfdsb wfdsb
threes = vfasb ∷ wfasb ∷ vfssb ∷ wfssb ∷ vfmsb ∷ wfmsb ∷ vfdsb ∷ wfdsb ∷ []
