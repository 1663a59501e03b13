-- ===== src/Fft/Kernels/Slots.antt =====
-- fft/amd64/kernels.go: `fp` against the layout of the kernels' arguments.
use asmgen.Base.{
  ℕ, suc, ◌+◌, ◌*◌, ◌^◌, ◌<◌, ◌≡◌, ◌⊎◌, inl, inr, refl, ap, arith, Bool-cases, List, [], ◌∷◌, All,
  length, none, some, beq, beq→eq,
}
use asmgen.Base.Text.{Bytes}
use asmgen.Base.Panics.{ok, panic, Panic}
use asmgen.Abi.{Param, Signature, ScalarType, layout, find_param}
use asmgen.Abi.Words.{IsWord, word_slots, layout_words}
use asmgen.Fft.Kernels.{index_of, fp, slot_text}

-- Both searches, from place i on.
searches :
    (names : List Bytes) (types : List ScalarType) (name : Bytes) (i : ℕ)
    → length names ≡ length types
    → ((index_of names name ≡ none) × (find_param name (word_slots names types i) ≡ none))
      ⊎ ((k : ℕ) × (p : Param) × (index_of names name ≡ some k)
          × (find_param name (word_slots names types i) ≡ some p)
          × (p.name ≡ name)
          × (p.offset ≡ (i + k) * 8))
unfolding index_of find_param
searches [] types name i n = inl (refl, refl)
searches (x ∷ names) [] name i n = absurd (omega arith)
searches (x ∷ names) (t ∷ types) name i n = elim (Bool-cases (beq x name)) [
  | inl e ↦ inr (
    0,
    record { name = x; type = t; offset = i * 8 },
    rw (e, index_of) refl,
    rw (e, find_param) refl,
    beq→eq x name e,
    omega arith,
  )
  | inr e ↦ elim (searches names types name (i + 1) (omega arith)) [
    | inl (a, b) ↦ inl (rw (e, a, index_of) refl, rw (e, find_param) b)
    | inr (k, p, a, b, named, at) ↦
        inr (suc k, p, rw (e, a, index_of) refl, rw (e, find_param) b, named, omega (arith, at))
  ]
]

-- For a kernel whose arguments are all eight bytes wide, one name for each, fewer than 2 ^ 50: where
-- the layout of the signature has no slot of a name, `fp` panics with the name; otherwise it is the
-- operand of the first slot with the name, at the slot's offset.
pub fp_cases :
    (names : List Bytes) (types : List ScalarType) (sig : Signature) (name : Bytes)
    → layout names types [] [] ≡ ok sig
    → All IsWord types
    → length names ≡ length types
    → length types < 2 ^ 50
    → ((fp names name ≡ panic (Panic.no_argument name names)) × (find_param name sig.args ≡ none))
      ⊎ ((p : Param) × (find_param name sig.args ≡ some p)
          × (p.name ≡ name)
          × (fp names name ≡ ok (slot_text p.name p.offset)))
unfolding fp
fp_cases names types sig name e words n h =
    rw (layout_words names types sig e words h) (elim (searches names types name 0 n) [
      | inl (a, b) ↦ inl (rw (a, fp) refl, b)
      | inr (k, p, a, b, named, at) ↦
          inr (
            p,
            b,
            named,
            rw (a, fp, named, at) (ap (λ (m : ℕ). ok (slot_text name m)) (omega arith)),
          )
    ])
