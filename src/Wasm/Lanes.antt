-- ===== src/Wasm/Lanes.antt =====
-- wasm/emit.go: the methods that refuse an operand.
use asmgen.Base.{ℕ, ◌+◌, if◌then◌else◌, ◌<◌, ◌≡◌, ◌↔◌, refl, arith, Bool, false, ◌||◌}
use asmgen.Base.Int.{ℤ, pos, negsuc, ltb_ℤ}
use asmgen.Base.Panics.{Result, ok, panic, Panic, passed}
use asmgen.Wasm.{Function, v128_store64_lane, i32x4_extract_lane}

-- A lane below n.
abbrev pub IsLane : ℕ → ℤ → Type 0
IsLane n (pos k) = k < n
IsLane n (negsuc k) = ⊥

-- The method emits something.
abbrev pub Accepts : Result Function → Type 0
Accepts r = (g : Function) × (r ≡ ok g)

abbrev outside : ℕ → ℤ → Bool
outside top lane = ltb_ℤ lane (pos 0) || ltb_ℤ (pos top) lane

inside : (top : ℕ) (lane : ℤ) → outside top lane ≡ false → IsLane (top + 1) lane
inside top (pos k) h = ground arith
inside top (negsuc k) h = ground arith

not_outside : (top : ℕ) (lane : ℤ) → IsLane (top + 1) lane → outside top lane ≡ false
not_outside top (pos k) h = ground arith
not_outside top (negsuc k) h = absurd h

-- The guard that the two methods share.
guard_iff :
    (top : ℕ) (lane : ℤ) (p : Panic) (g : Function)
    → Accepts (if outside top lane then panic p else ok g) ↔ IsLane (top + 1) lane
guard_iff top lane p g = (
  λ (k, h). inside top lane (passed (outside top lane) p (ok g) k h).0,
  λ h. (g, rw (not_outside top lane h) refl),
)

-- V128Store64Lane emits a line exactly for the lanes 0 and 1, and I32x4ExtractLane for the lanes 0 to
-- 3; for any other lane, negative ones included, they panic.
pub lanes_iff :
    (f : Function) (offset lane : ℤ)
    → (Accepts (v128_store64_lane f offset lane) ↔ IsLane 2 lane)
      × (Accepts (i32x4_extract_lane f lane) ↔ IsLane 4 lane)
unfolding v128_store64_lane i32x4_extract_lane
lanes_iff f offset lane = (guard_iff 1 lane _ _, guard_iff 3 lane _ _)
