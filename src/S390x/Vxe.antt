-- ===== src/S390x/Vxe.antt =====
-- s390x/vxe.go: the Builder methods that emit float32 vector arithmetic as words.
use asmgen.Base.{List, [], ◌∷◌}
use asmgen.Base.Int.{ℤ}
use asmgen.Base.Text.{Bytes, codes}
use asmgen.Base.Panics.{Result}
use asmgen.Builder.{Builder}
use asmgen.Gap.Words.{emit_word}

unfoldable pub vxe : Builder → Bytes → List ℤ → Result Builder
unfolding emit_word
vxe b isa ops = emit_word (codes "s390x") b isa ops

unfoldable pub vfasb : Builder → ℤ → ℤ → ℤ → Result Builder
unfolding vxe
vfasb b v1 v2 v3 = vxe b (codes "vfasb") (v1 ∷ v2 ∷ v3 ∷ [])

unfoldable pub wfasb : Builder → ℤ → ℤ → ℤ → Result Builder
unfolding vxe
wfasb b v1 v2 v3 = vxe b (codes "wfasb") (v1 ∷ v2 ∷ v3 ∷ [])

unfoldable pub vfssb : Builder → ℤ → ℤ → ℤ → Result Builder
unfolding vxe
vfssb b v1 v2 v3 = vxe b (codes "vfssb") (v1 ∷ v2 ∷ v3 ∷ [])

unfoldable pub wfssb : Builder → ℤ → ℤ → ℤ → Result Builder
unfolding vxe
wfssb b v1 v2 v3 = vxe b (codes "wfssb") (v1 ∷ v2 ∷ v3 ∷ [])

unfoldable pub vfmsb : Builder → ℤ → ℤ → ℤ → Result Builder
unfolding vxe
vfmsb b v1 v2 v3 = vxe b (codes "vfmsb") (v1 ∷ v2 ∷ v3 ∷ [])

unfoldable pub wfmsb : Builder → ℤ → ℤ → ℤ → Result Builder
unfolding vxe
wfmsb b v1 v2 v3 = vxe b (codes "wfmsb") (v1 ∷ v2 ∷ v3 ∷ [])

unfoldable pub vfdsb : Builder → ℤ → ℤ → ℤ → Result Builder
unfolding vxe
vfdsb b v1 v2 v3 = vxe b (codes "vfdsb") (v1 ∷ v2 ∷ v3 ∷ [])

unfoldable pub wfdsb : Builder → ℤ → ℤ → ℤ → Result Builder
unfolding vxe
wfdsb b v1 v2 v3 = vxe b (codes "wfdsb") (v1 ∷ v2 ∷ v3 ∷ [])

unfoldable pub vfmasb : Builder → ℤ → ℤ → ℤ → ℤ → Result Builder
unfolding vxe
vfmasb b v1 v2 v3 v4 = vxe b (codes "vfmasb") (v1 ∷ v2 ∷ v3 ∷ v4 ∷ [])

unfoldable pub wfmasb : Builder → ℤ → ℤ → ℤ → ℤ → Result Builder
unfolding vxe
wfmasb b v1 v2 v3 v4 = vxe b (codes "wfmasb") (v1 ∷ v2 ∷ v3 ∷ v4 ∷ [])

unfoldable pub vfmssb : Builder → ℤ → ℤ → ℤ → ℤ → Result Builder
unfolding vxe
vfmssb b v1 v2 v3 v4 = vxe b (codes "vfmssb") (v1 ∷ v2 ∷ v3 ∷ v4 ∷ [])

unfoldable pub wfmssb : Builder → ℤ → ℤ → ℤ → ℤ → Result Builder
unfolding vxe
wfmssb b v1 v2 v3 v4 = vxe b (codes "wfmssb") (v1 ∷ v2 ∷ v3 ∷ v4 ∷ [])

unfoldable pub vfsqsb : Builder → ℤ → ℤ → Result Builder
unfolding vxe
vfsqsb b v1 v2 = vxe b (codes "vfsqsb") (v1 ∷ v2 ∷ [])

unfoldable pub wfsqsb : Builder → ℤ → ℤ → Result Builder
unfolding vxe
wfsqsb b v1 v2 = vxe b (codes "wfsqsb") (v1 ∷ v2 ∷ [])
