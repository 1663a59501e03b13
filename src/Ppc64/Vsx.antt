-- ===== src/Ppc64/Vsx.antt =====
-- ppc64/vsx.go: the Builder methods that emit VSX arithmetic as words.
use asmgen.Base.{List, [], ◌∷◌}
use asmgen.Base.Int.{ℤ}
use asmgen.Base.Text.{Bytes, codes}
use asmgen.Base.Panics.{Result}
use asmgen.Builder.{Builder}
use asmgen.Gap.Words.{emit_word}

unfoldable pub vsx : Builder → Bytes → List ℤ → Result Builder
unfolding emit_word
vsx b isa ops = emit_word (codes "ppc64") b isa ops

unfoldable pub xvadddp : Builder → ℤ → ℤ → ℤ → Result Builder
unfolding vsx
xvadddp b t a bb = vsx b (codes "xvadddp") (t ∷ a ∷ bb ∷ [])

unfoldable pub xvsubdp : Builder → ℤ → ℤ → ℤ → Result Builder
unfolding vsx
xvsubdp b t a bb = vsx b (codes "xvsubdp") (t ∷ a ∷ bb ∷ [])

unfoldable pub xvmuldp : Builder → ℤ → ℤ → ℤ → Result Builder
unfolding vsx
xvmuldp b t a bb = vsx b (codes "xvmuldp") (t ∷ a ∷ bb ∷ [])

unfoldable pub xvdivdp : Builder → ℤ → ℤ → ℤ → Result Builder
unfolding vsx
xvdivdp b t a bb = vsx b (codes "xvdivdp") (t ∷ a ∷ bb ∷ [])

unfoldable pub xvmaddadp : Builder → ℤ → ℤ → ℤ → Result Builder
unfolding vsx
xvmaddadp b t a bb = vsx b (codes "xvmaddadp") (t ∷ a ∷ bb ∷ [])

unfoldable pub xvmaxdp : Builder → ℤ → ℤ → ℤ → Result Builder
unfolding vsx
xvmaxdp b t a bb = vsx b (codes "xvmaxdp") (t ∷ a ∷ bb ∷ [])

unfoldable pub xvmindp : Builder → ℤ → ℤ → ℤ → Result Builder
unfolding vsx
xvmindp b t a bb = vsx b (codes "xvmindp") (t ∷ a ∷ bb ∷ [])

unfoldable pub xvsqrtdp : Builder → ℤ → ℤ → Result Builder
unfolding vsx
xvsqrtdp b t bb = vsx b (codes "xvsqrtdp") (t ∷ bb ∷ [])

unfoldable pub xvaddsp : Builder → ℤ → ℤ → ℤ → Result Builder
unfolding vsx
xvaddsp b t a bb = vsx b (codes "xvaddsp") (t ∷ a ∷ bb ∷ [])

unfoldable pub xvsubsp : Builder → ℤ → ℤ → ℤ → Result Builder
unfolding vsx
xvsubsp b t a bb = vsx b (codes "xvsubsp") (t ∷ a ∷ bb ∷ [])

unfoldable pub xvmulsp : Builder → ℤ → ℤ → ℤ → Result Builder
unfolding vsx
xvmulsp b t a bb = vsx b (codes "xvmulsp") (t ∷ a ∷ bb ∷ [])

unfoldable pub xvdivsp : Builder → ℤ → ℤ → ℤ → Result Builder
unfolding vsx
xvdivsp b t a bb = vsx b (codes "xvdivsp") (t ∷ a ∷ bb ∷ [])

unfoldable pub xvmaddasp : Builder → ℤ → ℤ → ℤ → Result Builder
unfolding vsx
xvmaddasp b t a bb = vsx b (codes "xvmaddasp") (t ∷ a ∷ bb ∷ [])

unfoldable pub xvmaxsp : Builder → ℤ → ℤ → ℤ → Result Builder
unfolding vsx
xvmaxsp b t a bb = vsx b (codes "xvmaxsp") (t ∷ a ∷ bb ∷ [])

unfoldable pub xvminsp : Builder → ℤ → ℤ → ℤ → Result Builder
unfolding vsx
xvminsp b t a bb = vsx b (codes "xvminsp") (t ∷ a ∷ bb ∷ [])

unfoldable pub xvsqrtsp : Builder → ℤ → ℤ → Result Builder
unfolding vsx
xvsqrtsp b t bb = vsx b (codes "xvsqrtsp") (t ∷ bb ∷ [])
