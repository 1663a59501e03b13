-- ===== src/Amd64/Feature/Runs.antt =====
-- amd64/feature.go: the probes run.
use asmgen.Base.{
  ℕ, Bool, true, false, not, ◌&&◌, ◌∷◌, [], none, some, ◌≡◌, refl, sym, ap, inl, inr, Bool-cases,
  beq_refl, if◌then◌else◌, ◌==◌, ◌%◌, ◌^◌, bit_and, ◌∙◌,
}
use asmgen.Base.Text.{Bytes, parse_uint}
use asmgen.Amd64.Machine.{Cpu, State, returned, mark, return, run, imm, lt32, bit}
use asmgen.Amd64.Feature.{framed, popcnt_code, avx2_code, avx512f_code, fma_code}
use asmgen.Amd64.Feature.Masks.{avx_mask, fma_mask}

abbrev pub byte : Bool → ℕ
byte b = if b then 1 else 0

-- OSXSAVE, that lets XGETBV run, is one of the bits that the probes test first.
osxsave : (a b : Bool) → (a && b) ≡ true → a ≡ true
osxsave true b h = refl
osxsave false b h = cc

osxsave_fma : (a b d : Bool) → (a && (b && d)) ≡ true → b ≡ true
osxsave_fma true true d h = refl
osxsave_fma true false d h = cc
osxsave_fma false b d h = cc

pub ends :
    (l : Bytes) (c : Cpu) (s : State) → run c (mark l ∷ return ∷ []) (some l) s ≡ returned s.slot
unfolding run
ends l c s = ap (λ t. run c (return ∷ []) (if t then none else some l) s) (beq_refl l)

pub popcnt_run :
    (l : Bytes) (c : Cpu) (s : State)
    → run c (framed l (popcnt_code l)) none s
      ≡ returned (some (byte (not (bit_and c.leaf1.ecx 8388608 == 0))))
unfolding run imm parse_uint
popcnt_run l c s = elim (Bool-cases (bit_and c.leaf1.ecx 8388608 == 0)) [
  | inl e ↦ rw e (ends l c _)
  | inr e ↦ rw e refl
]

pub avx2_run :
    (l : Bytes) (c : Cpu) (s : State)
    → run c (framed l (avx2_code l)) none s
      ≡ returned (
          some (
            byte (
              not (lt32 c.leaf0.eax 7)
              && ((bit_and c.leaf1.ecx 402653184 == 402653184)
                  && ((bit_and (c.xcr0 % 2 ^ 32) 6 == 6)
                      && not (bit_and (c.leaf 7 0).ebx 32 == 0))))))
unfolding run imm parse_uint
avx2_run l c s = elim (Bool-cases (lt32 c.leaf0.eax 7)) [
  | inl e ↦ rw e (ends l c _)
  | inr e ↦ elim (Bool-cases (bit_and c.leaf1.ecx 402653184 == 402653184)) [
    | inr f ↦ rw (e, f) (ends l c _)
    | inl f ↦
        let o =
          osxsave (bit 27 c.leaf1.ecx) (bit 28 c.leaf1.ecx) (sym (avx_mask c.leaf1.ecx) ∙ f) in
        elim (Bool-cases (bit_and (c.xcr0 % 2 ^ 32) 6 == 6)) [
          | inr g ↦ rw (e, f, o, g) (ends l c _)
          | inl g ↦ elim (Bool-cases (bit_and (c.leaf 7 0).ebx 32 == 0)) [
            | inl h ↦ rw (e, f, o, g, h) (ends l c _)
            | inr h ↦ rw (e, f, o, g, h) refl
          ]
        ]
  ]
]

pub avx512f_run :
    (l : Bytes) (c : Cpu) (s : State)
    → run c (framed l (avx512f_code l)) none s
      ≡ returned (
          some (
            byte (
              not (lt32 c.leaf0.eax 7)
              && ((bit_and c.leaf1.ecx 402653184 == 402653184)
                  && ((bit_and (c.xcr0 % 2 ^ 32) 230 == 230)
                      && not (bit_and (c.leaf 7 0).ebx 65536 == 0))))))
unfolding run imm parse_uint
avx512f_run l c s = elim (Bool-cases (lt32 c.leaf0.eax 7)) [
  | inl e ↦ rw e (ends l c _)
  | inr e ↦ elim (Bool-cases (bit_and c.leaf1.ecx 402653184 == 402653184)) [
    | inr f ↦ rw (e, f) (ends l c _)
    | inl f ↦
        let o =
          osxsave (bit 27 c.leaf1.ecx) (bit 28 c.leaf1.ecx) (sym (avx_mask c.leaf1.ecx) ∙ f) in
        elim (Bool-cases (bit_and (c.xcr0 % 2 ^ 32) 230 == 230)) [
          | inr g ↦ rw (e, f, o, g) (ends l c _)
          | inl g ↦ elim (Bool-cases (bit_and (c.leaf 7 0).ebx 65536 == 0)) [
            | inl h ↦ rw (e, f, o, g, h) (ends l c _)
            | inr h ↦ rw (e, f, o, g, h) refl
          ]
        ]
  ]
]

pub fma_run :
    (l : Bytes) (c : Cpu) (s : State)
    → run c (framed l (fma_code l)) none s
      ≡ returned (
          some (
            byte
              ((bit_and c.leaf1.ecx 402657280 == 402657280) && (bit_and (c.xcr0 % 2 ^ 32) 6 == 6))))
unfolding run imm parse_uint
fma_run l c s = elim (Bool-cases (bit_and c.leaf1.ecx 402657280 == 402657280)) [
  | inr f ↦ rw f (ends l c _)
  | inl f ↦
      let o =
        osxsave_fma (bit 12 c.leaf1.ecx) (bit 27 c.leaf1.ecx) (bit 28 c.leaf1.ecx)
          (sym (fma_mask c.leaf1.ecx) ∙ f) in
      elim (Bool-cases (bit_and (c.xcr0 % 2 ^ 32) 6 == 6)) [
        | inr g ↦ rw (f, o, g) (ends l c _)
        | inl g ↦ rw (f, o, g) refl
      ]
]
