-- ===== src/Amd64/Feature.antt =====
-- amd64/feature.go: the probes for processor features and for the vendor.
pub mod Masks
pub mod Supported
pub mod Runs
pub mod Correct
use asmgen.Base.{
  ℕ, zero, suc, ◌+◌, ◌*◌, ◌%◌, ◌^◌, not, List, [], ◌∷◌, ◌++◌, Option, none, some, length, get_elem?,
  ◌==◌, if◌then◌else◌, ◌|||◌,
}
use asmgen.Base.Int.{ℤ, pos, negsuc}
use asmgen.Base.Text.{Bytes, codes, fmt_hex}
use asmgen.Base.Panics.{Result, ok, panic, Panic, ◌>>=◌}
use asmgen.Abi.{Signature, layout, uint8}
use asmgen.Emit.{Function}
use asmgen.Builder.{new_func}
use asmgen.Amd64.Machine.{
  Ins, ax, bx, cx, dx, movl, xorl, andl, testl, cmpl, cpuid, xgetbv, jl, jz, jne, set_ret, mark,
  return, write_code,
}

-- The type `Feature`: an int.
abbrev pub Feature : Type 0
Feature = ℤ

abbrev pub avx2 : Feature
avx2 = pos 0

abbrev pub popcnt : Feature
popcnt = pos 1

abbrev pub avx512f : Feature
avx512f = pos 2

abbrev pub fma : Feature
fma = pos 3

-- The method `String`.
pub feature_string : Feature → Bytes
feature_string (pos zero) = codes "AVX2"
feature_string (pos (suc zero)) = codes "POPCNT"
feature_string (pos (suc (suc zero))) = codes "AVX512F"
feature_string (pos (suc (suc (suc zero)))) = codes "FMA"
feature_string (pos (suc (suc (suc (suc n))))) = codes "Feature(?)"
feature_string (negsuc n) = codes "Feature(?)"

abbrev popcnt_code : Bytes → List Ins
popcnt_code done =
    movl (codes "1") ax ∷ cpuid ∷ testl (codes "0x800000") cx (some (codes "POPCNT")) ∷ jz done ∷ []

abbrev avx2_code : Bytes → List Ins
avx2_code done =
    xorl ax
    ∷ cpuid
    ∷ cmpl ax (codes "7") none
    ∷ jl done
    ∷ movl (codes "1") ax
    ∷ cpuid
    ∷ andl (codes "0x18000000") cx (some (codes "AVX and OSXSAVE"))
    ∷ cmpl cx (codes "0x18000000") none
    ∷ jne done
    ∷ xorl cx
    ∷ xgetbv
    ∷ andl (codes "6") ax (some (codes "XMM and YMM state enabled in XCR0"))
    ∷ cmpl ax (codes "6") none
    ∷ jne done
    ∷ movl (codes "7") ax
    ∷ xorl cx
    ∷ cpuid
    ∷ testl (codes "0x20") bx (some (codes "AVX2"))
    ∷ jz done
    ∷ []

abbrev avx512f_code : Bytes → List Ins
avx512f_code done =
    xorl ax
    ∷ cpuid
    ∷ cmpl ax (codes "7") none
    ∷ jl done
    ∷ movl (codes "1") ax
    ∷ cpuid
    ∷ andl (codes "0x18000000") cx (some (codes "AVX and OSXSAVE"))
    ∷ cmpl cx (codes "0x18000000") none
    ∷ jne done
    ∷ xorl cx
    ∷ xgetbv
    ∷ andl (codes "0xE6") ax (some (codes "XMM, YMM, opmask, ZMM_Hi256 and Hi16_ZMM state in XCR0"))
    ∷ cmpl ax (codes "0xE6") none
    ∷ jne done
    ∷ movl (codes "7") ax
    ∷ xorl cx
    ∷ cpuid
    ∷ testl (codes "0x10000") bx (some (codes "AVX512F"))
    ∷ jz done
    ∷ []

abbrev fma_code : Bytes → List Ins
fma_code done =
    movl (codes "1") ax
    ∷ cpuid
    ∷ andl (codes "0x18001000") cx (some (codes "FMA, AVX and OSXSAVE"))
    ∷ cmpl cx (codes "0x18001000") none
    ∷ jne done
    ∷ xorl cx
    ∷ xgetbv
    ∷ andl (codes "6") ax (some (codes "XMM and YMM state enabled in XCR0"))
    ∷ cmpl ax (codes "6") none
    ∷ jne done
    ∷ []

-- The `switch`; its default panics.
unfoldable pub feature_code : Feature → Bytes → Result (List Ins)
feature_code (pos zero) done = ok (avx2_code done)
feature_code (pos (suc zero)) done = ok (popcnt_code done)
feature_code (pos (suc (suc zero))) done = ok (avx512f_code done)
feature_code (pos (suc (suc (suc zero)))) done = ok (fma_code done)
feature_code (pos (suc (suc (suc (suc n))))) done = panic (Panic.unknown_feature (pos (n + 4)))
feature_code (negsuc n) done = panic (Panic.unknown_feature (negsuc n))

abbrev pub unsupported_label : Bytes → Bytes
unsupported_label name = name ++ codes "_unsupported"

-- What all probes share: false is stored first, true at the end.
abbrev pub framed : Bytes → List Ins → List Ins
framed done code = set_ret (codes "0") ∷ (code ++ (set_ret (codes "1") ∷ mark done ∷ return ∷ []))

unfoldable pub feature_probe : Bytes → Feature → Result Function
unfolding feature_code layout new_func write_code
feature_probe name f = do
  sig ← layout [] [] (codes "ret" ∷ []) (uint8 ∷ [])
  code ← feature_code f (unsupported_label name)
  ok (write_code (new_func name sig 0) (framed (unsupported_label name) code)).fn
