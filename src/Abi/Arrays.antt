-- ===== src/Abi/Arrays.antt =====
-- `Array`: element i of an array argument is the slot `name_i`, at i times the element's size.
use native.Mathlib.Decide.{ℕ_discrete}
use native.Mathlib.Nat.{mul-mod_left}
use asmgen.Base.{
  ℕ, zero, suc, ◌+◌, ◌*◌, ◌^◌, ◌≤◌, ◌<◌, ◌≡◌, ◌≢◌, inl, inr, refl, sym, ap, ◌∙◌, arith, false, some,
  List, [], ◌∷◌, ◌++◌, append-nil, subst, All, beq, beq→eq, beq_refl, Bool-cases, add64,
}
use asmgen.Base.Text.{Bytes, codes, itoa}
use asmgen.Base.Text.Digits.{itoa-injective}
use asmgen.Abi.{
  Param, Signature, Field, Arg, ScalarType, align, array, array_fields, aggregate_align, no_type,
  place_fields, place_aggregate, place_by, place, layout_args, find_param, slot,
}
use asmgen.Abi.Align.{IsScalarSize, align_scalar}
use asmgen.Abi.Spec.{HasSize}
use asmgen.Abi.Refine.{aggregate_align-IsWidest}

element : Bytes → ScalarType → ℕ → ℕ → Param
element name elem base k = record {
  name = name ++ codes "_" ++ itoa k;
  type = elem;
  offset = base + k * elem.size;
}

-- The slots of the elements i, ..., i + n - 1.
elements : Bytes → ScalarType → ℕ → ℕ → ℕ → List Param
elements name elem base i zero = []
elements name elem base i (suc n) = element name elem base i ∷ elements name elem base (i + 1) n

pub align_multiple : (k s : ℕ) → IsScalarSize s → k * s < 2 ^ 63 → align (k * s) s ≡ k * s
align_multiple k s size fits =
    let ((ge, _, least), _) = align_scalar (k * s) s size fits in
    omega (arith, least (k * s) (omega arith) (mul-mod_left k s))

place_fields-elements :
    (name : Bytes) (elem : ScalarType) (base i n : ℕ)
    → IsScalarSize elem.size
    → base < 2 ^ 60
    → (i + n) * elem.size < 2 ^ 60
    → place_fields name base (i * elem.size) (array_fields elem i n)
      ≡ (elements name elem base i n, (i + n) * elem.size)
unfolding place_fields array_fields elements element
place_fields-elements name elem base i zero size hb fits =
    let same : i * elem.size ≡ (i + 0) * elem.size = omega arith in rw same
place_fields-elements name elem base i (suc n) size hb fits =
    let s = elem.size in
    let on_grid : align (i * s) s ≡ i * s = align_multiple i s size (omega arith) in
    let here : add64 base (i * s) ≡ base + i * s = omega arith in
    let behind : add64 (i * s) s ≡ (i + 1) * s = omega arith in
    let later = place_fields-elements name elem base (i + 1) n size hb (omega arith) in
    let last : (i + 1 + n) * s ≡ (i + suc n) * s = omega arith in
    rw (on_grid, here, behind, later, last)

HasSize-elements :
    (a i n : ℕ) (elem : ScalarType) → HasSize a (array_fields elem i n) → elem.size ≡ a
unfolding array_fields
HasSize-elements a i zero elem h = absurd h
HasSize-elements a i (suc n) elem (inl e) = e
HasSize-elements a i (suc n) elem (inr h) = HasSize-elements a (i + 1) n elem h

All-elements :
    (i n : ℕ) (elem : ScalarType)
    → IsScalarSize elem.size
    → All (λ f. IsScalarSize f.type.size) (array_fields elem i n)
unfolding array_fields
All-elements i zero elem size = tt
All-elements i (suc n) elem size = (size, All-elements (i + 1) n elem size)

first_bound :
    (a n : ℕ) (elem : ScalarType)
    → All (λ f. f.type.size ≤ a) (array_fields elem 0 (suc n))
    → elem.size ≤ a
unfolding array_fields
first_bound a n elem h = h.0

aggregate_align-elements :
    (n : ℕ) (elem : ScalarType)
    → IsScalarSize elem.size
    → aggregate_align (array_fields elem 0 (suc n)) ≡ elem.size
aggregate_align-elements n elem size =
    let wide = (aggregate_align-IsWidest _ (All-elements 0 (suc n) elem size)).0 in
    let first = first_bound _ n elem wide.bounds in
    elim wide.attained [ inl e ↦ omega arith | inr h ↦ sym (HasSize-elements _ 0 (suc n) elem h) ]

-- Element names tell the elements apart.
beq-append : (p x y : Bytes) → beq (p ++ x) (p ++ y) ≡ beq x y
beq-append [] x y = refl
beq-append (c ∷ p) x y = ground (arith, beq-append p x y)

other_element :
    (name : Bytes) (i j : ℕ)
    → i < 2 ^ 64
    → j < 2 ^ 64
    → i ≢ j
    → beq (name ++ codes "_" ++ itoa i) (name ++ codes "_" ++ itoa j) ≡ false
other_element name i j hi hj ne = elim (Bool-cases (beq (itoa i) (itoa j))) [
  | inl same ↦ absurd (ne (itoa-injective i j hi hj (beq→eq _ _ same)))
  | inr differ ↦ rw (beq-append (name ++ codes "_") (itoa i) (itoa j)) differ
]

find_param-elements :
    (name : Bytes) (elem : ScalarType) (base i n j : ℕ)
    → i ≤ j
    → j < i + n
    → i + n < 2 ^ 60
    → find_param (name ++ codes "_" ++ itoa j) (elements name elem base i n)
      ≡ some (element name elem base j)
unfolding find_param elements element
find_param-elements name elem base i zero j ge lt fits = absurd (omega arith)
find_param-elements name elem base i (suc n) j ge lt fits = elim (ℕ_discrete i j) [
  | yes same ↦
      subst
        (λ k.
          find_param (name ++ codes "_" ++ itoa k) (elements name elem base i (suc n))
          ≡ some (element name elem base k))
        same (rw (beq_refl (name ++ codes "_" ++ itoa i)))
  | no differ ↦
      rw (other_element name i j (omega arith) (omega arith) differ)
        (find_param-elements name elem base (i + 1) n j (omega arith) (omega arith) (omega arith))
]

-- An aggregate that is the only argument begins at 0.
place_only :
    (name : Bytes) (fs : List Field) (al end : ℕ) (ps : List Param)
    → aggregate_align fs ≡ al
    → place_fields name (align 0 al) 0 fs ≡ (ps, end)
    → place 0 (record { name = name; type = no_type; fields = some fs } ∷ [])
      ≡ (ps, add64 (align 0 al) (align end al))
unfolding place place_by place_aggregate
place_only name fs al end ps wide placed = rw (wide, placed, append-nil ps)

array_lem :
    (name : Bytes) (elem : ScalarType) (n : ℕ)
    → array name elem n
      ≡ record { name = name; type = no_type; fields = some (array_fields elem 0 n) }
unfolding array
array_lem name elem n = refl

place_array :
    (name : Bytes) (elem : ScalarType) (n : ℕ)
    → IsScalarSize elem.size
    → suc n * elem.size < 2 ^ 60
    → place 0 (array name elem (suc n) ∷ []) ≡ (elements name elem 0 0 (suc n), suc n * elem.size)
place_array name elem n size fits =
    let s = elem.size in
    let none_yet : 0 * s ≡ 0 = omega arith in
    let all : (0 + suc n) * s ≡ suc n * s = omega arith in
    let origin : align 0 s ≡ 0 = rw none_yet at (align_multiple 0 s size (omega arith)) in
    let grid : align (suc n * s) s ≡ suc n * s = align_multiple (suc n) s size (omega arith) in
    let inside = place_fields-elements name elem 0 0 (suc n) size (omega arith) (omega arith) in
    let end : add64 0 (suc n * s) ≡ suc n * s = omega arith in
    ap (λ a. place 0 (a ∷ [])) (array_lem name elem (suc n))
    ∙ place_only name (array_fields elem 0 (suc n)) s (suc n * s) (elements name elem 0 0 (suc n))
        (aggregate_align-elements n elem size) (rw (origin, ← all) (rw none_yet at inside))
    ∙ rw (origin, grid, end)

pub layout_args_args : (args : List Arg) → (layout_args args []).args ≡ (place 0 args).0
unfolding layout_args
layout_args_args args = refl

slot_in_args :
    (s : Signature) (name : Bytes) (p : Param)
    → find_param name s.args ≡ some p
    → slot s name ≡ some p
unfolding slot
slot_in_args s name p e = rw (e, slot)

-- Of an array of n scalars that is the only argument, with n times their size below 2 ^ 50, element
-- i < n is found by its name at i times the size of an element.
pub slot-array :
    (name : Bytes) (elem : ScalarType) (n i : ℕ)
    → IsScalarSize elem.size
    → n * elem.size < 2 ^ 50
    → i < n
    → slot (layout_args (array name elem n ∷ []) []) (name ++ codes "_" ++ itoa i)
      ≡ some (record { name = name ++ codes "_" ++ itoa i; type = elem; offset = i * elem.size })
slot-array name elem zero i size fits lt = absurd (omega arith)
slot-array name elem (suc n) i size fits lt = slot_in_args _ _ _ (
    rw (layout_args_args, place_array name elem n size (omega arith))
      (find_param-elements name elem 0 0 (suc n) i (omega arith) (omega arith)
          (omega (arith, small))
        ∙ at_zero))
  where
    small : suc n ≤ suc n * elem.size
    small = ground arith

    at_zero :
        some (element name elem 0 i)
        ≡ some (record { name = name ++ codes "_" ++ itoa i; type = elem; offset = i * elem.size })
    at_zero = let e : 0 + i * elem.size ≡ i * elem.size = omega arith in unfold element in rw e
