-- ===== src/Loong64/Csr.antt =====
-- loong64/csr.go: the Builder methods that emit CSR accesses as words.
use asmgen.Base.{[], ◌∷◌}
use asmgen.Base.Int.{ℤ}
use asmgen.Base.Text.{codes}
use asmgen.Base.Panics.{Result}
use asmgen.Builder.{Builder}
use asmgen.Loong64.Lasx.{word_of}

unfoldable pub csrrd : Builder → ℤ → ℤ → Result Builder
unfolding word_of
csrrd b rd csr = word_of b (codes "csrrd") (rd ∷ csr ∷ [])

unfoldable pub csrwr : Builder → ℤ → ℤ → Result Builder
unfolding word_of
csrwr b rd csr = word_of b (codes "csrwr") (rd ∷ csr ∷ [])

unfoldable pub csrxchg : Builder → ℤ → ℤ → ℤ → Result Builder
unfolding word_of
csrxchg b rd rj csr = word_of b (codes "csrxchg") (rd ∷ rj ∷ csr ∷ [])
