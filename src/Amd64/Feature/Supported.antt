-- ===== src/Amd64/Feature/Supported.antt =====
-- What the processor's manual asks for before the instructions of a feature may be used.
use asmgen.Base.{zero, suc, ◌<◌, Bool, false, ◌&&◌, leb}
use asmgen.Base.Int.{pos, negsuc}
use asmgen.Amd64.Machine.{Cpu, bit}
use asmgen.Amd64.Feature.{Feature}

-- The instructions of AVX, and XGETBV, are there.
abbrev pub has_avx : Cpu → Bool
has_avx c = bit 27 c.leaf1.ecx && bit 28 c.leaf1.ecx

-- The system saves the XMM and the YMM registers.
abbrev pub saves_ymm : Cpu → Bool
saves_ymm c = bit 1 c.xcr0 && bit 2 c.xcr0

-- The system saves the mask registers and all of the ZMM registers too.
abbrev pub saves_zmm : Cpu → Bool
saves_zmm c = saves_ymm c && (bit 5 c.xcr0 && (bit 6 c.xcr0 && bit 7 c.xcr0))

-- Leaf 7 is there.
abbrev pub has_leaf7 : Cpu → Bool
has_leaf7 c = leb 7 c.leaf0.eax

abbrev pub has_avx2 : Cpu → Bool
has_avx2 c = has_leaf7 c && (has_avx c && (saves_ymm c && bit 5 (c.leaf 7 0).ebx))

abbrev pub has_popcnt : Cpu → Bool
has_popcnt c = bit 23 c.leaf1.ecx

abbrev pub has_avx512f : Cpu → Bool
has_avx512f c = has_leaf7 c && (has_avx c && (saves_zmm c && bit 16 (c.leaf 7 0).ebx))

abbrev pub has_fma : Cpu → Bool
has_fma c = bit 12 c.leaf1.ecx && (has_avx c && saves_ymm c)

abbrev pub IsKnown : Feature → Type 0
IsKnown (pos n) = n < 4
IsKnown (negsuc n) = ⊥

abbrev pub supported : Cpu → Feature → Bool
supported c (pos zero) = has_avx2 c
supported c (pos (suc zero)) = has_popcnt c
supported c (pos (suc (suc zero))) = has_avx512f c
supported c (pos (suc (suc (suc n)))) = has_fma c
supported c (negsuc n) = false
