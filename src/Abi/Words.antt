-- ===== src/Abi/Words.antt =====
-- `Layout` of arguments of eight bytes each: they stand one behind the other.
use asmgen.Base.{
  ℕ, ◌+◌, ◌*◌, ◌^◌, ◌<◌, ◌≡◌, refl, subst, ap, ◌∙◌, arith, List, [], ◌∷◌, All, length, add64, inr,
}
use asmgen.Base.Text.{Bytes}
use asmgen.Base.Panics.{ok, >>=-eq-ok}
use asmgen.Abi.{
  Param, Signature, Arg, ScalarType, align, scalar, scalars, place, place_by, place_scalar, layout,
  layout_args,
}
use asmgen.Abi.Arrays.{align_multiple, layout_args_args}

abbrev pub IsWord : ScalarType → Type 0
IsWord t = t.size ≡ 8

-- The slots of words from place i on.
abbrev pub word_slots : List Bytes → List ScalarType → ℕ → List Param
word_slots [] types i = []
word_slots (n ∷ names) [] i = []
word_slots (n ∷ names) (t ∷ types) i =
    record { name = n; type = t; offset = i * 8 } ∷ word_slots names types (i + 1)

aligned_word : (i s : ℕ) → s ≡ 8 → i < 2 ^ 50 → align (i * 8) s ≡ i * 8
aligned_word i s e h = rw e (align_multiple i 8 (inr (inr (inr refl))) (omega arith))

place_word :
    (i : ℕ) (n : Bytes) (t : ScalarType) (rest : List Arg)
    → IsWord t
    → i < 2 ^ 50
    → (place (i * 8) (scalar n t ∷ rest)).0
      ≡ record { name = n; type = t; offset = i * 8 } ∷ (place ((i + 1) * 8) rest).0
unfolding place place_by place_scalar scalar
place_word i n t rest word h =
    let next : add64 (i * 8) 8 ≡ (i + 1) * 8 = omega arith in
    rw (aligned_word i t.size word h, word, next) refl

place_words :
    (names : List Bytes) (types : List ScalarType) (args : List Arg) (i : ℕ)
    → scalars names types ≡ ok args
    → All IsWord types
    → i + length types < 2 ^ 50
    → (place (i * 8) args).0 ≡ word_slots names types i
unfolding scalars place
place_words [] [] args i e words h =
    let same : [] ≡ args = cc e in subst (λ (xs : List Arg). (place (i * 8) xs).0 ≡ []) same refl
place_words (n ∷ names) [] args i e words h =
    let same : [] ≡ args = cc e in subst (λ (xs : List Arg). (place (i * 8) xs).0 ≡ []) same refl
place_words [] (t ∷ types) args i e words h = cc
place_words (n ∷ names) (t ∷ types) args i e (word, words) h =
    let (rest, later, same) = >>=-eq-ok (scalars names types) (λ r. ok (scalar n t ∷ r)) e in
    let parts : (scalar n t ∷ rest) ≡ args = cc same in
    let here : Param = record { name = n; type = t; offset = i * 8 } in
    subst (λ (xs : List Arg). (place (i * 8) xs).0 ≡ here ∷ word_slots names types (i + 1)) parts
      (place_word i n t rest word (omega arith)
        ∙ ap (λ slots. here ∷ slots)
            (place_words names types rest (i + 1) later words (omega arith)))

-- The slots that `Layout` makes of them.
pub layout_words :
    (names : List Bytes) (types : List ScalarType) (sig : Signature)
    → layout names types [] [] ≡ ok sig
    → All IsWord types
    → length types < 2 ^ 50
    → sig.args ≡ word_slots names types 0
unfolding layout scalars
layout_words names types sig e words h =
    let (args, made, same) = >>=-eq-ok (scalars names types) (λ xs. ok (layout_args xs [])) e in
    let laid : layout_args args [] ≡ sig = cc same in
    subst (λ (s : Signature). s.args ≡ word_slots names types 0) laid
      (layout_args_args args ∙ place_words names types args 0 made words (omega arith))
