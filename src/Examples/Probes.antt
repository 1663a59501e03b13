-- ===== src/Examples/Probes.antt =====
-- amd64/feature.go: probes on a processor with AVX2 and without AVX-512.
use asmgen.Base.{◌≡◌, refl, arith, [], List, ◌++◌, none, some, false, All, ◌&◌}
use asmgen.Base.Text.{Bytes, codes, newline, tab}
use asmgen.Base.Panics.{ok}
use asmgen.Builder.{new_func}
use asmgen.Emit.{Function, function_string, middle_dot}
use asmgen.Amd64.Machine.{Cpu, State, Ins, returned, run, write_code}
use asmgen.Amd64.Feature.{feature_probe, avx2, popcnt}
use asmgen.Amd64.Feature.Correct.{probe_sig, feature_probe-Decides}
use asmgen.Amd64.Vendor.{vendor_probe}
use asmgen.Amd64.Vendor.Decides.{IsByte, vendor_probe-Decides}

-- "GenuineIntel", the leaves 0 to 13; AVX, OSXSAVE, POPCNT and FMA at leaf 1, AVX2 at leaf 7.
abbrev skylake : Cpu
skylake = record {
  leaf0 = record { eax = 13; ebx = 0x756e6547; ecx = 0x6c65746e; edx = 0x49656e69 };
  leaf1 = record { eax = 0; ebx = 0; ecx = 0x18801000; edx = 0 };
  leaf = λ _ _. record { eax = 0; ebx = 0x20; ecx = 0; edx = 0 };
  xcr0 = 7;
}

abbrev blank : State
blank = record {
  ax_value = 0;
  bx_value = 0;
  cx_value = 0;
  dx_value = 0;
  zero_flag = false;
  less = false;
  slot = none;
}

feature_probe-Decides_example :
    (code : List Ins) × (feature_probe (codes "supportsAVX2") avx2
      ≡ ok (write_code (new_func (codes "supportsAVX2") probe_sig 0) code).fn)
    × (run skylake code none blank ≡ returned (some 1))
feature_probe-Decides_example =
    feature_probe-Decides (codes "supportsAVX2") avx2 skylake blank (omega arith) (omega arith)

abbrev intel : Bytes
intel = codes "GenuineIntel"

intel_bytes : All IsByte intel
intel_bytes =
    omega arith
    & omega arith
    & omega arith
    & omega arith
    & omega arith
    & omega arith
    & omega arith
    & omega arith
    & omega arith
    & omega arith
    & omega arith
    & omega arith
    & tt

abbrev quote : Bytes → Bytes
quote s = codes "\"" ++ (s ++ codes "\"")

vendor_probe-Decides_example :
    (code : List Ins) × (vendor_probe quote (codes "isIntel") intel
      ≡ ok (write_code (new_func (codes "isIntel") probe_sig 0) code).fn)
    × (run skylake code none blank ≡ returned (some 1))
vendor_probe-Decides_example =
    vendor_probe-Decides quote (codes "isIntel") intel skylake blank refl intel_bytes (omega arith)
      (omega arith) (omega arith)

abbrev line : Bytes → Bytes → Bytes
line s rest = tab ++ (s ++ (newline ++ rest))

-- The probe for POPCNT in full.
abbrev popcnt_lines : Bytes
popcnt_lines =
    codes "TEXT "
    ++ (middle_dot
        ++ (codes "p(SB), NOSPLIT, $0-1"
            ++ (newline
                ++ line (codes "MOVB $0, ret+0(FP)") (
                    line (codes "MOVL $1, AX") (
                      line (codes "CPUID") (
                        line (codes "TESTL $0x800000, CX // POPCNT") (
                          line (codes "JZ p_unsupported") (
                            line (codes "MOVB $1, ret+0(FP)")
                              (codes "p_unsupported:" ++ (newline ++ line (codes "RET") []))))))))))

popcnt_text :
    (f : Function) × (feature_probe (codes "p") popcnt ≡ ok f) × (function_string f ≡ popcnt_lines)
unfolding feature_probe function_string
popcnt_text = (_, refl, refl)
