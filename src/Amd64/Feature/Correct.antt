-- ===== src/Amd64/Feature/Correct.antt =====
-- amd64/feature.go: FeatureProbe as a whole, for every feature.
use asmgen.Base.{
  ℕ, zero, suc, ◌<◌, ◌^◌, ◌≡◌, refl, ap, Bool, true, false, not, ◌&&◌, ◌∷◌, [], List, none, some,
  leb, arith,
}
use asmgen.Base.Int.{pos, negsuc}
use asmgen.Base.Text.{Bytes, codes}
use asmgen.Base.Panics.{ok, panic, Panic}
use asmgen.Abi.{Signature, layout, layout_args, scalar, uint8}
use asmgen.Builder.{new_func}
use asmgen.Amd64.Machine.{bit, Cpu, State, Ins, returned, run, lt32, write_code}
use asmgen.Amd64.Feature.{
  Feature, feature_code, feature_probe, framed, popcnt_code, avx2_code, avx512f_code, fma_code,
  unsupported_label,
}
use asmgen.Amd64.Feature.Masks.{
  popcnt_mask, avx2_mask, avx512f_mask, avx_mask, fma_mask, ymm_mask, zmm_mask,
}
use asmgen.Amd64.Feature.Runs.{byte, popcnt_run, avx2_run, avx512f_run, fma_run}
use asmgen.Amd64.Feature.Supported.{IsKnown, supported}

leaf7 : (m : ℕ) → m < 2 ^ 31 → not (lt32 m 7) ≡ leb 7 m
leaf7 m h = ground arith

regroup : (a b d : Bool) → ((a && b) && d) ≡ (a && (b && d))
regroup true b d = refl
regroup false b d = refl

-- The frame of a probe: no argument and a result of one byte.
abbrev pub probe_sig : Signature
probe_sig = record {
  args = [];
  rets = record { name = codes "ret"; type = uint8; offset = 0 } ∷ [];
  args_size = 1;
}

-- FeatureProbe emits code that every processor runs to its RET and never faults on, whatever the
-- registers hold, and that returns true exactly when the processor and the system support the
-- feature, for each of the four features and each name. (The number of the last basic leaf is below
-- 2 ^ 31, since the leaves above are the extended ones.)
pub feature_probe-Decides :
    (name : Bytes) (f : Feature) (c : Cpu) (s : State)
    → IsKnown f
    → c.leaf0.eax < 2 ^ 31
    → (code : List Ins) × (feature_probe name f
        ≡ ok (write_code (new_func name probe_sig 0) code).fn)
      × (run c code none s ≡ returned (some (byte (supported c f))))
unfolding feature_probe feature_code
feature_probe-Decides name (pos zero) c s k h = (
  framed (unsupported_label name) (avx2_code (unsupported_label name)),
  refl,
  rw
      (
        avx2_run (unsupported_label name) c s,
        leaf7 c.leaf0.eax h,
        avx_mask c.leaf1.ecx,
        ymm_mask c.xcr0,
        avx2_mask (c.leaf 7 0).ebx,
      )
      refl,
)
feature_probe-Decides name (pos (suc zero)) c s k h = (
  framed (unsupported_label name) (popcnt_code (unsupported_label name)),
  refl,
  rw (popcnt_run (unsupported_label name) c s, popcnt_mask c.leaf1.ecx) refl,
)
feature_probe-Decides name (pos (suc (suc zero))) c s k h = (
  framed (unsupported_label name) (avx512f_code (unsupported_label name)),
  refl,
  rw
      (
        avx512f_run (unsupported_label name) c s,
        leaf7 c.leaf0.eax h,
        avx_mask c.leaf1.ecx,
        zmm_mask c.xcr0,
        avx512f_mask (c.leaf 7 0).ebx,
      )
      refl,
)
feature_probe-Decides name (pos (suc (suc (suc zero)))) c s k h = (
  framed (unsupported_label name) (fma_code (unsupported_label name)),
  refl,
  rw
      (
        fma_run (unsupported_label name) c s,
        fma_mask c.leaf1.ecx,
        ymm_mask c.xcr0,
        regroup (bit 12 c.leaf1.ecx) (bit 27 c.leaf1.ecx && bit 28 c.leaf1.ecx)
            (bit 1 c.xcr0 && bit 2 c.xcr0),
      )
      refl,
)
feature_probe-Decides name (pos (suc (suc (suc (suc n))))) c s k h = absurd (omega arith)
feature_probe-Decides name (negsuc n) c s k h = absurd k

-- Any other feature is a panic that names it, whatever the name of the probe is.
pub feature_probe-unknown :
    (name : Bytes) (f : Feature)
    → ¬ IsKnown f
    → feature_probe name f ≡ panic (Panic.unknown_feature f)
unfolding feature_probe feature_code layout layout_args scalar
feature_probe-unknown name (pos zero) u = absurd (u (omega arith))
feature_probe-unknown name (pos (suc zero)) u = absurd (u (omega arith))
feature_probe-unknown name (pos (suc (suc zero))) u = absurd (u (omega arith))
feature_probe-unknown name (pos (suc (suc (suc zero)))) u = absurd (u (omega arith))
feature_probe-unknown name (pos (suc (suc (suc (suc n))))) u =
    ap (λ (m : ℕ). panic (Panic.unknown_feature (pos m))) (omega arith)
feature_probe-unknown name (negsuc n) u = refl
