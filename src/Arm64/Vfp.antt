-- ===== src/Arm64/Vfp.antt =====
-- arm64/vfp.go: the Builder methods for vector float arithmetic that cmd/asm encodes.
use asmgen.Base.{◌||◌, ◌++◌, if◌then◌else◌}
use asmgen.Base.Int.{ℤ, pos, ltb_ℤ}
use asmgen.Base.Text.{Bytes, codes, fmt_ℤ}
use asmgen.Base.Panics.{Result, ok, panic, Panic, ◌>>=◌}
use asmgen.Builder.{Builder, raw}

-- The check `vreg`, with the register for what it returns.
unfoldable pub vreg : ℤ → Result ℤ
vreg r =
    if ltb_ℤ r (pos 0) || ltb_ℤ (pos 31) r
    then panic (Panic.no_register (codes "arm64") (codes "vector") r)
    else ok r

-- "V%d.%s"
pub lane : ℤ → Bytes → Bytes
lane r arr = codes "V" ++ (fmt_ℤ r ++ (codes "." ++ arr))

-- "%s V%d.%s, V%d.%s, V%d.%s" and "%s V%d.%s, V%d.%s", sources first.
pub line3 : Bytes → Bytes → ℤ → ℤ → ℤ → Bytes
line3 mnemonic arr d n m =
    mnemonic
    ++ (codes " " ++ (lane m arr ++ (codes ", " ++ (lane n arr ++ (codes ", " ++ lane d arr)))))

pub line2 : Bytes → Bytes → ℤ → ℤ → Bytes
line2 mnemonic arr d n = mnemonic ++ (codes " " ++ (lane n arr ++ (codes ", " ++ lane d arr)))

unfoldable pub vfp3s : Builder → Bytes → Bytes → ℤ → ℤ → ℤ → Result Builder
unfolding vreg line3 lane raw fmt_ℤ
vfp3s b mnemonic arr d n m = do
  d' ← vreg d
  n' ← vreg n
  m' ← vreg m
  ok (raw b (line3 mnemonic arr d' n' m'))

unfoldable pub vfp3 : Builder → Bytes → ℤ → ℤ → ℤ → Result Builder
unfolding vfp3s
vfp3 b mnemonic d n m = vfp3s b mnemonic (codes "D2") d n m

unfoldable pub vfp2 : Builder → Bytes → Bytes → ℤ → ℤ → Result Builder
unfolding vreg line2 lane raw fmt_ℤ
vfp2 b mnemonic arr d n = do d' ← vreg d; n' ← vreg n; ok (raw b (line2 mnemonic arr d' n'))

unfoldable pub vfadd_2d : Builder → ℤ → ℤ → ℤ → Result Builder
unfolding vfp3
vfadd_2d b d n m = vfp3 b (codes "VFADD") d n m

unfoldable pub vfsub_2d : Builder → ℤ → ℤ → ℤ → Result Builder
unfolding vfp3
vfsub_2d b d n m = vfp3 b (codes "VFSUB") d n m

unfoldable pub vfmul_2d : Builder → ℤ → ℤ → ℤ → Result Builder
unfolding vfp3
vfmul_2d b d n m = vfp3 b (codes "VFMUL") d n m

unfoldable pub vfmla_2d : Builder → ℤ → ℤ → ℤ → Result Builder
unfolding vfp3
vfmla_2d b d n m = vfp3 b (codes "VFMLA") d n m

unfoldable pub vfmls_2d : Builder → ℤ → ℤ → ℤ → Result Builder
unfolding vfp3
vfmls_2d b d n m = vfp3 b (codes "VFMLS") d n m

unfoldable pub vfneg_2d : Builder → ℤ → ℤ → Result Builder
unfolding vfp2
vfneg_2d b d n = vfp2 b (codes "VFNEG") (codes "D2") d n

unfoldable pub vfadd_4s : Builder → ℤ → ℤ → ℤ → Result Builder
unfolding vfp3s
vfadd_4s b d n m = vfp3s b (codes "VFADD") (codes "S4") d n m

unfoldable pub vfsub_4s : Builder → ℤ → ℤ → ℤ → Result Builder
unfolding vfp3s
vfsub_4s b d n m = vfp3s b (codes "VFSUB") (codes "S4") d n m

unfoldable pub vfmul_4s : Builder → ℤ → ℤ → ℤ → Result Builder
unfolding vfp3s
vfmul_4s b d n m = vfp3s b (codes "VFMUL") (codes "S4") d n m

unfoldable pub vfmla_4s : Builder → ℤ → ℤ → ℤ → Result Builder
unfolding vfp3s
vfmla_4s b d n m = vfp3s b (codes "VFMLA") (codes "S4") d n m

unfoldable pub vfmls_4s : Builder → ℤ → ℤ → ℤ → Result Builder
unfolding vfp3s
vfmls_4s b d n m = vfp3s b (codes "VFMLS") (codes "S4") d n m

unfoldable pub vfneg_4s : Builder → ℤ → ℤ → Result Builder
unfolding vfp2
vfneg_4s b d n = vfp2 b (codes "VFNEG") (codes "S4") d n
