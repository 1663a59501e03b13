-- ===== src/Simd/Typing/Sound.antt =====
-- Code that validates does not go wrong.
use asmgen.Base.{ℕ, ◌≡◌, refl, ap, List, [], ◌∷◌, map, some}
use mathlib.Core.Option
use asmgen.Base.Text.{Bytes}
use asmgen.Simd.Code.{Op}
use asmgen.Simd.Machine.{Value, word, vec, on_word, on_words, on_vec, on_vecs, on_vec_word, compute}
use asmgen.Simd.Typing.{Shape, word_shape, vec_shape, shape_of, pop1, pop2, flow}

abbrev pub shapes : List Value → List Shape
shapes st = map shape_of st

on_word-shapes :
    (f : ℕ → Value) (r : Shape)
    → ((a : ℕ) → shape_of (f a) ≡ r)
    → (st : List Value) → Option.map shapes (on_word f st) ≡ pop1 word_shape r (shapes st)
on_word-shapes f r h [] = refl
on_word-shapes f r h (word a ∷ st) = ap (λ s. some (s ∷ shapes st)) (h a)
on_word-shapes f r h (vec a ∷ st) = refl

on_vec-shapes :
    (f : Bytes → Value) (r : Shape)
    → ((a : Bytes) → shape_of (f a) ≡ r)
    → (st : List Value) → Option.map shapes (on_vec f st) ≡ pop1 vec_shape r (shapes st)
on_vec-shapes f r h [] = refl
on_vec-shapes f r h (word a ∷ st) = refl
on_vec-shapes f r h (vec a ∷ st) = ap (λ s. some (s ∷ shapes st)) (h a)

on_words-shapes :
    (f : ℕ → ℕ → Value) (r : Shape)
    → ((a b : ℕ) → shape_of (f a b) ≡ r)
    → (st : List Value)
    → Option.map shapes (on_words f st) ≡ pop2 word_shape word_shape r (shapes st)
on_words-shapes f r h [] = refl
on_words-shapes f r h (word a ∷ []) = refl
on_words-shapes f r h (vec a ∷ []) = refl
on_words-shapes f r h (word b ∷ word a ∷ st) = ap (λ s. some (s ∷ shapes st)) (h a b)
on_words-shapes f r h (word b ∷ vec a ∷ st) = refl
on_words-shapes f r h (vec b ∷ word a ∷ st) = refl
on_words-shapes f r h (vec b ∷ vec a ∷ st) = refl

on_vecs-shapes :
    (f : Bytes → Bytes → Value) (r : Shape)
    → ((a b : Bytes) → shape_of (f a b) ≡ r)
    → (st : List Value) → Option.map shapes (on_vecs f st) ≡ pop2 vec_shape vec_shape r (shapes st)
on_vecs-shapes f r h [] = refl
on_vecs-shapes f r h (word a ∷ []) = refl
on_vecs-shapes f r h (vec a ∷ []) = refl
on_vecs-shapes f r h (word b ∷ word a ∷ st) = refl
on_vecs-shapes f r h (word b ∷ vec a ∷ st) = refl
on_vecs-shapes f r h (vec b ∷ word a ∷ st) = refl
on_vecs-shapes f r h (vec b ∷ vec a ∷ st) = ap (λ s. some (s ∷ shapes st)) (h a b)

on_vec_word-shapes :
    (f : ℕ → Bytes → Value) (r : Shape)
    → ((a : ℕ) (b : Bytes) → shape_of (f a b) ≡ r)
    → (st : List Value)
    → Option.map shapes (on_vec_word f st) ≡ pop2 word_shape vec_shape r (shapes st)
on_vec_word-shapes f r h [] = refl
on_vec_word-shapes f r h (word a ∷ []) = refl
on_vec_word-shapes f r h (vec a ∷ []) = refl
on_vec_word-shapes f r h (word b ∷ word a ∷ st) = refl
on_vec_word-shapes f r h (word b ∷ vec a ∷ st) = ap (λ s. some (s ∷ shapes st)) (h b a)
on_vec_word-shapes f r h (vec b ∷ word a ∷ st) = refl
on_vec_word-shapes f r h (vec b ∷ vec a ∷ st) = refl

-- What an operation does to the stack is what its type says.
pub compute-shapes :
    (op : Op) (st : List Value) → Option.map shapes (compute op st) ≡ flow op (shapes st)
compute-shapes (Op.i32_const v) st = refl
compute-shapes Op.i32_add st = on_words-shapes _ word_shape (λ x y. refl) st
compute-shapes Op.i32_sub st = on_words-shapes _ word_shape (λ x y. refl) st
compute-shapes Op.i32_mul st = on_words-shapes _ word_shape (λ x y. refl) st
compute-shapes Op.i32_eqz st = on_word-shapes _ word_shape (λ x. refl) st
compute-shapes Op.i32_ne st = on_words-shapes _ word_shape (λ x y. refl) st
compute-shapes Op.i32_gt_s st = on_words-shapes _ word_shape (λ x y. refl) st
compute-shapes Op.i32_ge_s st = on_words-shapes _ word_shape (λ x y. refl) st
compute-shapes Op.i32_ctz st = on_word-shapes _ word_shape (λ x. refl) st
compute-shapes Op.i32_popcnt st = on_word-shapes _ word_shape (λ x. refl) st
compute-shapes (Op.v128_const16 b) st = refl
compute-shapes Op.v128_zero st = refl
compute-shapes Op.v128_and st = on_vecs-shapes _ vec_shape (λ x y. refl) st
compute-shapes Op.v128_or st = on_vecs-shapes _ vec_shape (λ x y. refl) st
compute-shapes Op.i8x16_eq st = on_vecs-shapes _ vec_shape (λ x y. refl) st
compute-shapes Op.i8x16_gt_u st = on_vecs-shapes _ vec_shape (λ x y. refl) st
compute-shapes Op.i8x16_ge_s st = on_vecs-shapes _ vec_shape (λ x y. refl) st
compute-shapes Op.i8x16_le_s st = on_vecs-shapes _ vec_shape (λ x y. refl) st
compute-shapes Op.i8x16_add st = on_vecs-shapes _ vec_shape (λ x y. refl) st
compute-shapes Op.i8x16_sub st = on_vecs-shapes _ vec_shape (λ x y. refl) st
compute-shapes Op.i8x16_splat st = on_word-shapes _ vec_shape (λ x. refl) st
compute-shapes Op.i8x16_bitmask st = on_vec-shapes _ word_shape (λ x. refl) st
compute-shapes Op.i8x16_all_true st = on_vec-shapes _ word_shape (λ x. refl) st
compute-shapes Op.i8x16_popcnt st = on_vec-shapes _ vec_shape (λ x. refl) st
compute-shapes Op.i8x16_swizzle st = on_vecs-shapes _ vec_shape (λ x y. refl) st
compute-shapes Op.i8x16_shl st = on_vec_word-shapes _ vec_shape (λ x y. refl) st
compute-shapes Op.i8x16_shr_u st = on_vec_word-shapes _ vec_shape (λ x y. refl) st
compute-shapes (Op.i8x16_shuffle imm) st = on_vecs-shapes _ vec_shape (λ x y. refl) st
compute-shapes Op.i16x8_mul st = on_vecs-shapes _ vec_shape (λ x y. refl) st
compute-shapes Op.i16x8_narrow_i32x4_u st = on_vecs-shapes _ vec_shape (λ x y. refl) st
compute-shapes Op.i16x8_extadd_pairwise_i8x16_u st = on_vec-shapes _ vec_shape (λ x. refl) st
compute-shapes Op.i16x8_extmul_low_i8x16_u st = on_vecs-shapes _ vec_shape (λ x y. refl) st
compute-shapes Op.i16x8_extmul_high_i8x16_u st = on_vecs-shapes _ vec_shape (λ x y. refl) st
compute-shapes Op.i32x4_add st = on_vecs-shapes _ vec_shape (λ x y. refl) st
compute-shapes Op.i32x4_shr_u st = on_vec_word-shapes _ vec_shape (λ x y. refl) st
compute-shapes Op.i32x4_extadd_pairwise_i16x8_u st = on_vec-shapes _ vec_shape (λ x. refl) st
compute-shapes Op.i32x4_extmul_low_i16x8_u st = on_vecs-shapes _ vec_shape (λ x y. refl) st
compute-shapes Op.i32x4_extmul_high_i16x8_u st = on_vecs-shapes _ vec_shape (λ x y. refl) st
compute-shapes (Op.i32x4_extract_lane k) st = on_vec-shapes _ word_shape (λ x. refl) st
compute-shapes (Op.local_get x) st = refl
compute-shapes (Op.local_set x) st = refl
compute-shapes (Op.local_tee x) st = refl
compute-shapes Op.i32_load8_u st = refl
compute-shapes (Op.i32_store x) st = refl
compute-shapes (Op.v128_load x) st = refl
compute-shapes (Op.v128_store x) st = refl
compute-shapes (Op.v128_store64_lane x y) st = refl
