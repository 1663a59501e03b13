-- ===== src/Gap/Ppc64/Format.antt =====
-- internal/gap/ppc64.go: the XX3 and XX2 forms, over VSX registers 0 to 63.
use asmgen.Base.{ℕ, List, ◌<<<◌, ◌>>>◌, ◌&&&◌, ◌|||◌}
use asmgen.Base.Int.{ℤ}
use asmgen.Base.Text.{codes}
use asmgen.Base.Panics.{Result, ok, ◌>>=◌}
use asmgen.Gap.{operand, reg}

unfoldable pub vsr : ℤ → Result ℕ
unfolding reg
vsr r = reg (codes "ppc64") (codes "VSX") r 63

-- The expressions that xx3 and xx2 return, of registers that exist.
unfoldable pub xx3_word : ℕ → ℕ → ℕ → ℕ → ℕ
xx3_word xo t a b =
    60 <<< 26
    ||| t &&& 31 <<< 21
    ||| a &&& 31 <<< 16
    ||| b &&& 31 <<< 11
    ||| xo <<< 3
    ||| a >>> 5 <<< 2
    ||| b >>> 5 <<< 1
    ||| t >>> 5

unfoldable pub xx2_word : ℕ → ℕ → ℕ → ℕ
xx2_word xo t b =
    60 <<< 26 ||| t &&& 31 <<< 21 ||| b &&& 31 <<< 11 ||| xo <<< 2 ||| b >>> 5 <<< 1 ||| t >>> 5

unfoldable pub xx3 : ℕ → ℤ → ℤ → ℤ → Result ℕ
unfolding vsr xx3_word
xx3 xo t a b = do t' ← vsr t; a' ← vsr a; b' ← vsr b; ok (xx3_word xo t' a' b')

unfoldable pub xx2 : ℕ → ℤ → ℤ → Result ℕ
unfolding vsr xx2_word
xx2 xo t b = do t' ← vsr t; b' ← vsr b; ok (xx2_word xo t' b')

-- The `Encode` functions of the entries.
unfoldable pub encode_xx3 : ℕ → List ℤ → Result ℕ
unfolding xx3 operand
encode_xx3 xo ops = do t ← operand ops 0; a ← operand ops 1; b ← operand ops 2; xx3 xo t a b

unfoldable pub encode_xx2 : ℕ → List ℤ → Result ℕ
unfolding xx2 operand
encode_xx2 xo ops = do t ← operand ops 0; b ← operand ops 1; xx2 xo t b
