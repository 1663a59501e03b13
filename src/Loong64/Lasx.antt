-- ===== src/Loong64/Lasx.antt =====
-- loong64/lasx.go: the Builder methods for fused multiply-adds and broadcast loads.
use asmgen.Base.{if◌then◌else◌, List, [], ◌∷◌}
use asmgen.Base.Int.{ℤ, negsuc, is_int}
use asmgen.Base.Text.{Bytes, codes}
use asmgen.Base.Panics.{Result, ok, ◌>>=◌}
use asmgen.Builder.{Builder, raw}
use asmgen.Gap.Words.{emit_word}
use asmgen.Gap.{syntax}
use asmgen.Gap.Registry.{lookup, word}

unfoldable pub word_of : Builder → Bytes → List ℤ → Result Builder
unfolding emit_word
word_of b isa ops = emit_word (codes "loong64") b isa ops

-- The word is computed at every offset, since that is what refuses operands; cmd/asm takes the
-- mnemonic at all of them but -2048.
unfoldable pub ldrepl : Builder → Bytes → ℤ → ℤ → ℤ → Result Builder
unfolding lookup word syntax raw
ldrepl b isa d rj off = do
  i ← lookup (codes "loong64") isa
  w ← word i (d ∷ rj ∷ off ∷ [])
  ok (raw b (if is_int off (negsuc 2047) then w else syntax i (d ∷ rj ∷ off ∷ [])))

unfoldable pub xvfmaddd : Builder → ℤ → ℤ → ℤ → ℤ → Result Builder
unfolding word_of
xvfmaddd b d j k a = word_of b (codes "xvfmadd.d") (d ∷ j ∷ k ∷ a ∷ [])

unfoldable pub vfmaddd : Builder → ℤ → ℤ → ℤ → ℤ → Result Builder
unfolding word_of
vfmaddd b d j k a = word_of b (codes "vfmadd.d") (d ∷ j ∷ k ∷ a ∷ [])

unfoldable pub xvfmaddf : Builder → ℤ → ℤ → ℤ → ℤ → Result Builder
unfolding word_of
xvfmaddf b d j k a = word_of b (codes "xvfmadd.s") (d ∷ j ∷ k ∷ a ∷ [])

unfoldable pub vfmaddf : Builder → ℤ → ℤ → ℤ → ℤ → Result Builder
unfolding word_of
vfmaddf b d j k a = word_of b (codes "vfmadd.s") (d ∷ j ∷ k ∷ a ∷ [])

unfoldable pub xvldrepld : Builder → ℤ → ℤ → ℤ → Result Builder
unfolding ldrepl
xvldrepld b d rj off = ldrepl b (codes "xvldrepl.d") d rj off

unfoldable pub vldrepld : Builder → ℤ → ℤ → ℤ → Result Builder
unfolding ldrepl
vldrepld b d rj off = ldrepl b (codes "vldrepl.d") d rj off
