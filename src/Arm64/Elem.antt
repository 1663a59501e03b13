-- ===== src/Arm64/Elem.antt =====
-- arm64/elem.go: the Builder methods that emit multiplications by element as words.
use asmgen.Base.{List, [], ◌∷◌}
use asmgen.Base.Int.{ℤ}
use asmgen.Base.Text.{Bytes, codes}
use asmgen.Base.Panics.{Result}
use asmgen.Builder.{Builder}
use asmgen.Gap.Words.{emit_word}

unfoldable pub elem : Builder → Bytes → List ℤ → Result Builder
unfolding emit_word
elem b isa ops = emit_word (codes "arm64") b isa ops

unfoldable pub vfmla_elem_2d : Builder → ℤ → ℤ → ℤ → ℤ → Result Builder
unfolding elem
vfmla_elem_2d b d n m index = elem b (codes "fmla.elem.2d") (d ∷ n ∷ m ∷ index ∷ [])

unfoldable pub vfmls_elem_2d : Builder → ℤ → ℤ → ℤ → ℤ → Result Builder
unfolding elem
vfmls_elem_2d b d n m index = elem b (codes "fmls.elem.2d") (d ∷ n ∷ m ∷ index ∷ [])

unfoldable pub vfmul_elem_2d : Builder → ℤ → ℤ → ℤ → ℤ → Result Builder
unfolding elem
vfmul_elem_2d b d n m index = elem b (codes "fmul.elem.2d") (d ∷ n ∷ m ∷ index ∷ [])

unfoldable pub vfmla_elem_4s : Builder → ℤ → ℤ → ℤ → ℤ → Result Builder
unfolding elem
vfmla_elem_4s b d n m index = elem b (codes "fmla.elem.4s") (d ∷ n ∷ m ∷ index ∷ [])

unfoldable pub vfmls_elem_4s : Builder → ℤ → ℤ → ℤ → ℤ → Result Builder
unfolding elem
vfmls_elem_4s b d n m index = elem b (codes "fmls.elem.4s") (d ∷ n ∷ m ∷ index ∷ [])

unfoldable pub vfmul_elem_4s : Builder → ℤ → ℤ → ℤ → ℤ → Result Builder
unfolding elem
vfmul_elem_4s b d n m index = elem b (codes "fmul.elem.4s") (d ∷ n ∷ m ∷ index ∷ [])
