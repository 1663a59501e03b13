-- ===== src/Abi/EmptyStruct.antt =====
-- `Struct` with no field has nil `Fields` and so is placed as a scalar of size 0, for which
-- `to - 1` in `Align` wraps around to a mask of ones.
use native.Mathlib.Nat.{zero-mod}
use asmgen.Base.{
  ℕ, ◌≡◌, refl, sym, ap, ap₂, ◌∙◌, arith, List, [], ◌∷◌, ◌++◌, append_assoc, add64, sub64,
}
use asmgen.Base.Bits.{bit_and_ones}
use asmgen.Base.Text.{Bytes}
use asmgen.Abi.{
  Arg, ScalarType, no_type, align, scalar, struct, place, place_by, place_scalar, layout_args,
}
use asmgen.Abi.Arrays.{layout_args_args}
use asmgen.Abi.Align.{IsScalarSize, align_scalar}

align_to_zero : (n : ℕ) → align n 0 ≡ 0
unfolding align
align_to_zero n = let x = sub64 (add64 n 0) 1 in omega (arith, bit_and_ones 64 x)

align-origin : (s : ℕ) → IsScalarSize s → align 0 s ≡ 0
align-origin s size =
    let ((_, _, least), _) = align_scalar 0 s size (omega arith) in
    omega (arith, least 0 (omega arith) (zero-mod s))

place-append :
    (off : ℕ) (xs ys : List Arg)
    → (place off (xs ++ ys)).0 ≡ (place off xs).0 ++ (place (place off xs).1 ys).0
unfolding place
place-append off [] ys = refl
place-append off (x ∷ xs) ys =
    let here = place_by x.name x.type x.fields off in
    ap (λ ps. here.0 ++ ps) (place-append here.1 xs ys) ∙ sym (append_assoc here.0 _ _)

place_struct :
    (off : ℕ) (name n : Bytes) (t : ScalarType)
    → IsScalarSize t.size
    → (place off (struct name [] ∷ scalar n t ∷ [])).0
      ≡ record { name = name; type = no_type; offset = 0 }
        ∷ record { name = n; type = t; offset = 0 }
        ∷ []
unfolding place place_by place_scalar struct scalar
place_struct off name n t size = rw (align_to_zero off, align-origin t.size size)

-- Behind a struct with no field a scalar is laid out at offset 0, whatever arguments come before:
-- its slot lies over theirs.
pub empty_struct_resets :
    (before : List Arg) (name n : Bytes) (t : ScalarType)
    → IsScalarSize t.size
    → (layout_args (before ++ (struct name [] ∷ scalar n t ∷ [])) []).args
      ≡ (layout_args before []).args
        ++ (record { name = name; type = no_type; offset = 0 }
            ∷ record { name = n; type = t; offset = 0 }
            ∷ [])
empty_struct_resets before name n t size =
    layout_args_args _
    ∙ place-append 0 before _
    ∙ ap₂ (λ ps qs. ps ++ qs) (sym (layout_args_args before)) (place_struct _ name n t size)
