-- ===== src/Simd/Typing/Steps.antt =====
-- One instruction that validates does not go wrong.
use asmgen.Base.{
  ℕ, ◌≡◌, refl, ap, ◌∙◌, sym, Bool, true, false, List, [], ◌∷◌, Option, some, none, beq,
  if◌then◌else◌, Bool-cases, inl, inr,
}
use mathlib.Core.Option
use mathlib.Core.Option.{some_inj}
use asmgen.Base.Int.{ℤ, pos}
use asmgen.Base.Text.{Bytes}
use asmgen.Simd.Code.{Op}
use asmgen.Simd.Machine.{
  Value, word, vec, State, Outcome, next, trap, compute, step, lookup, assign, with_stack,
  read_local, load, set_local, tee_local, store_vec, store_word, first_byte,
}
use asmgen.Simd.Typing.{
  Shape, word_shape, vec_shape, shape_of, same_shape, pop1, find_shape, push_shape, set_shape,
  drop2, flow, op_flow,
}
use asmgen.Simd.Typing.Sound.{shapes, compute-shapes}

abbrev pub context : List (Bytes × Value) → List (Bytes × Shape)
context [] = []
context ((x, v) ∷ l) = (x, shape_of v) ∷ context l

-- An instruction leaves a stack and locals of these shapes, or traps.
pub data Goes (Γ : List (Bytes × Shape)) (τ : List Shape) : Outcome → Type 0 where
  goes : {t : State} → shapes t.stack ≡ τ → context t.locals ≡ Γ → Goes Γ τ (next t)
  traps : Goes Γ τ trap

lookup-shape :
    (x : Bytes) (l : List (Bytes × Value))
    → Option.map shape_of (lookup x l) ≡ find_shape x (context l)
lookup-shape x [] = refl
lookup-shape x ((y, v) ∷ l) = elim (Bool-cases (beq x y)) [
  | inl e ↦ rw e refl
  | inr e ↦ rw e (lookup-shape x l)
]

same→shape : (a b : Shape) → same_shape a b ≡ true → a ≡ b
same→shape word_shape word_shape h = refl
same→shape word_shape vec_shape h = cc
same→shape vec_shape word_shape h = cc
same→shape vec_shape vec_shape h = refl

context-assign :
    (x : Bytes) (v : Value) (l : List (Bytes × Value))
    → find_shape x (context l) ≡ some (shape_of v)
    → context (assign x v l) ≡ context l
context-assign x v [] h = refl
context-assign x v ((y, w) ∷ l) h = elim (Bool-cases (beq x y)) [
  | inl e ↦
      let t : some (shape_of w) ≡ some (shape_of v) = rw e at h in
      rw e (ap (λ s. (y, s) ∷ context l) (sym (some_inj.0 t)))
  | inr e ↦
      let t : find_shape x (context l) ≡ some (shape_of v) = rw e at h in
      rw e (ap (λ c. (y, shape_of w) ∷ c) (context-assign x v l t))
]

read_sound :
    (s : State) (o : Option Value) (τ : List Shape)
    → push_shape (Option.map shape_of o) (shapes s.stack) ≡ some τ
    → Goes (context s.locals) τ (read_local s o)
read_sound s none τ h = cc
read_sound s (some v) τ h = goes (some_inj.0 h) refl

set_sound :
    (s : State) (x : Bytes) (st : List Value) (o : Option Shape) (τ : List Shape)
    → find_shape x (context s.locals) ≡ o
    → set_shape o false (shapes st) ≡ some τ
    → Goes (context s.locals) τ (set_local s x st)
set_sound s x st none τ f h = cc
set_sound s x [] (some a) τ f h = cc
set_sound s x (v ∷ st) (some a) τ f h = elim (Bool-cases (same_shape a (shape_of v))) [
  | inl e ↦
      let t : some (shapes st) ≡ some τ = rw e at h in
      goes (some_inj.0 t)
        (context-assign x v s.locals (f ∙ ap (λ b. some b) (same→shape a (shape_of v) e)))
  | inr e ↦ let t : Path (Option (List Shape)) none (some τ) = rw e at h in cc
]

tee_sound :
    (s : State) (x : Bytes) (o : Option Shape) (τ : List Shape) (st : List Value)
    → s.stack ≡ st
    → find_shape x (context s.locals) ≡ o
    → set_shape o true (shapes st) ≡ some τ
    → Goes (context s.locals) τ (tee_local s x st)
tee_sound s x none τ st q f h = cc
tee_sound s x (some a) τ [] q f h = cc
tee_sound s x (some a) τ (v ∷ st) q f h = elim (Bool-cases (same_shape a (shape_of v))) [
  | inl e ↦
      let t : some (shapes (v ∷ st)) ≡ some τ = rw e at h in
      goes (ap shapes q ∙ some_inj.0 t)
        (context-assign x v s.locals (f ∙ ap (λ b. some b) (same→shape a (shape_of v) e)))
  | inr e ↦ let t : Path (Option (List Shape)) none (some τ) = rw e at h in cc
]

-- An access is inside the memory, or traps.
either_sound :
    (Γ : List (Bytes × Shape)) (τ : List Shape) (b : Bool) (t : State)
    → shapes t.stack ≡ τ
    → context t.locals ≡ Γ
    → Goes Γ τ (if b then trap else next t)
either_sound Γ τ true t h k = traps
either_sound Γ τ false t h k = goes h k

load_sound :
    (s : State) (n : ℕ) (offset : ℤ) (f : Bytes → Value) (r : Shape)
    → ((v : Bytes) → shape_of (f v) ≡ r)
    → (st : List Value) (τ : List Shape) → pop1 word_shape r (shapes st) ≡ some τ
    → Goes (context s.locals) τ (load s n offset f st)
load_sound s n offset f r k [] τ h = cc
load_sound s n offset f r k (word a ∷ st) τ h =
    either_sound _ _ _ _ (ap (λ a. a ∷ shapes st) (k _) ∙ some_inj.0 h) refl
load_sound s n offset f r k (vec v ∷ st) τ h = cc

store_vec_sound :
    (s : State) (offset : ℤ) (n : ℕ) (f : Bytes → Bytes) (st : List Value) (τ : List Shape)
    → drop2 vec_shape word_shape (shapes st) ≡ some τ
    → Goes (context s.locals) τ (store_vec s offset n f st)
store_vec_sound s offset n f [] τ h = cc
store_vec_sound s offset n f (word a ∷ []) τ h = cc
store_vec_sound s offset n f (vec v ∷ []) τ h = cc
store_vec_sound s offset n f (word a ∷ w ∷ st) τ h = cc
store_vec_sound s offset n f (vec v ∷ word a ∷ st) τ h = either_sound _ _ _ _ (some_inj.0 h) refl
store_vec_sound s offset n f (vec v ∷ vec a ∷ st) τ h = cc

store_word_sound :
    (s : State) (offset : ℤ) (st : List Value) (τ : List Shape)
    → drop2 word_shape word_shape (shapes st) ≡ some τ
    → Goes (context s.locals) τ (store_word s offset st)
store_word_sound s offset [] τ h = cc
store_word_sound s offset (word a ∷ []) τ h = cc
store_word_sound s offset (vec v ∷ []) τ h = cc
store_word_sound s offset (vec v ∷ w ∷ st) τ h = cc
store_word_sound s offset (word x ∷ word a ∷ st) τ h = either_sound _ _ _ _ (some_inj.0 h) refl
store_word_sound s offset (word x ∷ vec a ∷ st) τ h = cc

-- An operation on the stack.
with_sound :
    (s : State) (o : Option (List Value)) (τ : List Shape)
    → Option.map shapes o ≡ some τ
    → Goes (context s.locals) τ (with_stack s o)
with_sound s none τ h = cc
with_sound s (some st) τ h = goes (some_inj.0 h) refl

computed :
    (op : Op) (s : State) (τ : List Shape)
    → flow op (shapes s.stack) ≡ some τ
    → Goes (context s.locals) τ (with_stack s (compute op s.stack))
computed op s τ h = with_sound s (compute op s.stack) τ (compute-shapes op s.stack ∙ h)

abbrev Sound : Op → Type 0
Sound op =
    (s : State) (τ : List Shape)
    → op_flow (context s.locals) op (shapes s.stack) ≡ some τ
    → Goes (context s.locals) τ (step op s)

-- An instruction whose type allows it goes on with what its type says, or traps.
pub step-Sound : (op : Op) → Sound op
step-Sound (Op.local_get x) s τ h =
    read_sound s (lookup x s.locals) τ
      (ap (λ o. push_shape o (shapes s.stack)) (lookup-shape x s.locals) ∙ h)
step-Sound (Op.local_set x) s τ h = set_sound s x s.stack _ τ refl h
step-Sound (Op.local_tee x) s τ h = tee_sound s x _ τ s.stack refl refl h
step-Sound Op.i32_load8_u s τ h =
    load_sound s 1 (pos 0) (λ v. word (first_byte v)) word_shape (λ v. refl) s.stack τ h
step-Sound (Op.v128_load o) s τ h = load_sound s 16 o (λ v. vec v) vec_shape (λ v. refl) s.stack τ h
step-Sound (Op.i32_store o) s τ h = store_word_sound s o s.stack τ h
step-Sound (Op.v128_store o) s τ h = store_vec_sound s o 16 _ s.stack τ h
step-Sound (Op.v128_store64_lane o k) s τ h = store_vec_sound s o 8 _ s.stack τ h
step-Sound (Op.i32_const v) s τ h = computed (Op.i32_const v) s τ h
step-Sound Op.i32_add s τ h = computed Op.i32_add s τ h
step-Sound Op.i32_sub s τ h = computed Op.i32_sub s τ h
step-Sound Op.i32_mul s τ h = computed Op.i32_mul s τ h
step-Sound Op.i32_eqz s τ h = computed Op.i32_eqz s τ h
step-Sound Op.i32_ne s τ h = computed Op.i32_ne s τ h
step-Sound Op.i32_gt_s s τ h = computed Op.i32_gt_s s τ h
step-Sound Op.i32_ge_s s τ h = computed Op.i32_ge_s s τ h
step-Sound Op.i32_ctz s τ h = computed Op.i32_ctz s τ h
step-Sound Op.i32_popcnt s τ h = computed Op.i32_popcnt s τ h
step-Sound (Op.v128_const16 b) s τ h = computed (Op.v128_const16 b) s τ h
step-Sound Op.v128_zero s τ h = computed Op.v128_zero s τ h
step-Sound Op.v128_and s τ h = computed Op.v128_and s τ h
step-Sound Op.v128_or s τ h = computed Op.v128_or s τ h
step-Sound Op.i8x16_eq s τ h = computed Op.i8x16_eq s τ h
step-Sound Op.i8x16_gt_u s τ h = computed Op.i8x16_gt_u s τ h
step-Sound Op.i8x16_ge_s s τ h = computed Op.i8x16_ge_s s τ h
step-Sound Op.i8x16_le_s s τ h = computed Op.i8x16_le_s s τ h
step-Sound Op.i8x16_add s τ h = computed Op.i8x16_add s τ h
step-Sound Op.i8x16_sub s τ h = computed Op.i8x16_sub s τ h
step-Sound Op.i8x16_splat s τ h = computed Op.i8x16_splat s τ h
step-Sound Op.i8x16_bitmask s τ h = computed Op.i8x16_bitmask s τ h
step-Sound Op.i8x16_all_true s τ h = computed Op.i8x16_all_true s τ h
step-Sound Op.i8x16_popcnt s τ h = computed Op.i8x16_popcnt s τ h
step-Sound Op.i8x16_swizzle s τ h = computed Op.i8x16_swizzle s τ h
step-Sound Op.i8x16_shl s τ h = computed Op.i8x16_shl s τ h
step-Sound Op.i8x16_shr_u s τ h = computed Op.i8x16_shr_u s τ h
step-Sound (Op.i8x16_shuffle imm) s τ h = computed (Op.i8x16_shuffle imm) s τ h
step-Sound Op.i16x8_mul s τ h = computed Op.i16x8_mul s τ h
step-Sound Op.i16x8_narrow_i32x4_u s τ h = computed Op.i16x8_narrow_i32x4_u s τ h
step-Sound Op.i16x8_extadd_pairwise_i8x16_u s τ h = computed Op.i16x8_extadd_pairwise_i8x16_u s τ h
step-Sound Op.i16x8_extmul_low_i8x16_u s τ h = computed Op.i16x8_extmul_low_i8x16_u s τ h
step-Sound Op.i16x8_extmul_high_i8x16_u s τ h = computed Op.i16x8_extmul_high_i8x16_u s τ h
step-Sound Op.i32x4_add s τ h = computed Op.i32x4_add s τ h
step-Sound Op.i32x4_shr_u s τ h = computed Op.i32x4_shr_u s τ h
step-Sound Op.i32x4_extadd_pairwise_i16x8_u s τ h = computed Op.i32x4_extadd_pairwise_i16x8_u s τ h
step-Sound Op.i32x4_extmul_low_i16x8_u s τ h = computed Op.i32x4_extmul_low_i16x8_u s τ h
step-Sound Op.i32x4_extmul_high_i16x8_u s τ h = computed Op.i32x4_extmul_high_i16x8_u s τ h
step-Sound (Op.i32x4_extract_lane k) s τ h = computed (Op.i32x4_extract_lane k) s τ h
