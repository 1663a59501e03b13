-- ===== src/Simd/Typing.antt =====
-- When a kernel validates: the types that WebAssembly's validation gives the operand stack, for code
-- whose blocks have the type [] → [].
pub mod Sound
pub mod Steps
pub mod Runs
pub mod Programs
use asmgen.Base.{
  ℕ, Bool, true, false, ◌&&◌, ◌||◌, List, [], ◌∷◌, ◌++◌, map, Option, some, none, beq,
  if◌then◌else◌,
}
use asmgen.Base.Text.{Bytes}
use asmgen.Wasm.{Param, i32}
use asmgen.Simd.Code.{Op, Code, close, ◌▸◌, br, br_if, return, block, loop, Program}
use asmgen.Simd.Machine.{Value, word, vec}

pub data Shape : Type 0 where
  word_shape vec_shape : Shape

abbrev pub shape_of : Value → Shape
shape_of (word a) = word_shape
shape_of (vec v) = vec_shape

abbrev pub same_shape : Shape → Shape → Bool
same_shape word_shape word_shape = true
same_shape vec_shape vec_shape = true
same_shape _ _ = false

abbrev pub pop1 : Shape → Shape → List Shape → Option (List Shape)
pop1 a r [] = none
pop1 a r (s ∷ σ) = if same_shape a s then some (r ∷ σ) else none

-- The first shape is the top's.
abbrev pub pop2 : Shape → Shape → Shape → List Shape → Option (List Shape)
pop2 a b r [] = none
pop2 a b r (s ∷ []) = none
pop2 a b r (s ∷ t ∷ σ) = if same_shape a s && same_shape b t then some (r ∷ σ) else none

-- The operations that only change the stack.
abbrev pub flow : Op → List Shape → Option (List Shape)
flow (Op.i32_const _) σ = some (word_shape ∷ σ)
flow Op.i32_add σ = pop2 word_shape word_shape word_shape σ
flow Op.i32_sub σ = pop2 word_shape word_shape word_shape σ
flow Op.i32_mul σ = pop2 word_shape word_shape word_shape σ
flow Op.i32_eqz σ = pop1 word_shape word_shape σ
flow Op.i32_ne σ = pop2 word_shape word_shape word_shape σ
flow Op.i32_gt_s σ = pop2 word_shape word_shape word_shape σ
flow Op.i32_ge_s σ = pop2 word_shape word_shape word_shape σ
flow Op.i32_ctz σ = pop1 word_shape word_shape σ
flow Op.i32_popcnt σ = pop1 word_shape word_shape σ
flow (Op.v128_const16 _) σ = some (vec_shape ∷ σ)
flow Op.v128_zero σ = some (vec_shape ∷ σ)
flow Op.v128_and σ = pop2 vec_shape vec_shape vec_shape σ
flow Op.v128_or σ = pop2 vec_shape vec_shape vec_shape σ
flow Op.i8x16_eq σ = pop2 vec_shape vec_shape vec_shape σ
flow Op.i8x16_gt_u σ = pop2 vec_shape vec_shape vec_shape σ
flow Op.i8x16_ge_s σ = pop2 vec_shape vec_shape vec_shape σ
flow Op.i8x16_le_s σ = pop2 vec_shape vec_shape vec_shape σ
flow Op.i8x16_add σ = pop2 vec_shape vec_shape vec_shape σ
flow Op.i8x16_sub σ = pop2 vec_shape vec_shape vec_shape σ
flow Op.i8x16_splat σ = pop1 word_shape vec_shape σ
flow Op.i8x16_bitmask σ = pop1 vec_shape word_shape σ
flow Op.i8x16_all_true σ = pop1 vec_shape word_shape σ
flow Op.i8x16_popcnt σ = pop1 vec_shape vec_shape σ
flow Op.i8x16_swizzle σ = pop2 vec_shape vec_shape vec_shape σ
flow Op.i8x16_shl σ = pop2 word_shape vec_shape vec_shape σ
flow Op.i8x16_shr_u σ = pop2 word_shape vec_shape vec_shape σ
flow (Op.i8x16_shuffle _) σ = pop2 vec_shape vec_shape vec_shape σ
flow Op.i16x8_mul σ = pop2 vec_shape vec_shape vec_shape σ
flow Op.i16x8_narrow_i32x4_u σ = pop2 vec_shape vec_shape vec_shape σ
flow Op.i16x8_extadd_pairwise_i8x16_u σ = pop1 vec_shape vec_shape σ
flow Op.i16x8_extmul_low_i8x16_u σ = pop2 vec_shape vec_shape vec_shape σ
flow Op.i16x8_extmul_high_i8x16_u σ = pop2 vec_shape vec_shape vec_shape σ
flow Op.i32x4_add σ = pop2 vec_shape vec_shape vec_shape σ
flow Op.i32x4_shr_u σ = pop2 word_shape vec_shape vec_shape σ
flow Op.i32x4_extadd_pairwise_i16x8_u σ = pop1 vec_shape vec_shape σ
flow Op.i32x4_extmul_low_i16x8_u σ = pop2 vec_shape vec_shape vec_shape σ
flow Op.i32x4_extmul_high_i16x8_u σ = pop2 vec_shape vec_shape vec_shape σ
flow (Op.i32x4_extract_lane _) σ = pop1 vec_shape word_shape σ
flow _ σ = none

abbrev pub find_shape : Bytes → List (Bytes × Shape) → Option Shape
find_shape x [] = none
find_shape x ((y, s) ∷ l) = if beq x y then some s else find_shape x l

abbrev pub push_shape : Option Shape → List Shape → Option (List Shape)
push_shape none σ = none
push_shape (some s) σ = some (s ∷ σ)

-- A value that a local is set to; `local_tee` keeps it on the stack.
abbrev pub set_shape : Option Shape → Bool → List Shape → Option (List Shape)
set_shape none keep σ = none
set_shape (some s) keep [] = none
set_shape (some s) keep (t ∷ σ) = if same_shape s t then some (if keep then t ∷ σ else σ) else none

abbrev pub drop2 : Shape → Shape → List Shape → Option (List Shape)
drop2 a b [] = none
drop2 a b (s ∷ []) = none
drop2 a b (s ∷ t ∷ σ) = if same_shape a s && same_shape b t then some σ else none

abbrev pub op_flow : List (Bytes × Shape) → Op → List Shape → Option (List Shape)
op_flow Γ (Op.local_get x) σ = push_shape (find_shape x Γ) σ
op_flow Γ (Op.local_set x) σ = set_shape (find_shape x Γ) false σ
op_flow Γ (Op.local_tee x) σ = set_shape (find_shape x Γ) true σ
op_flow Γ Op.i32_load8_u σ = pop1 word_shape word_shape σ
op_flow Γ (Op.v128_load _) σ = pop1 word_shape vec_shape σ
op_flow Γ (Op.i32_store _) σ = drop2 word_shape word_shape σ
op_flow Γ (Op.v128_store _) σ = drop2 vec_shape word_shape σ
op_flow Γ (Op.v128_store64_lane _ _) σ = drop2 vec_shape word_shape σ
op_flow Γ op σ = flow op σ

-- How code ends: with this stack, or never at its end.
pub data Exit : Type 0 where
  falls : List Shape → Exit
  departs : Exit

abbrev pub has_label : Bytes → List Bytes → Bool
has_label l [] = false
has_label l (m ∷ ls) = beq l m || has_label l ls

abbrev pub begins_with : List Shape → List Shape → Bool
begins_with [] σ = true
begins_with (r ∷ rs) [] = false
begins_with (r ∷ rs) (s ∷ σ) = same_shape r s && begins_with rs σ

abbrev pub after_body : Option Exit → Option Exit → Option Exit
after_body (some departs) r = r
after_body (some (falls [])) r = r
after_body _ r = none

abbrev pub flow_then : Option (List Shape) → (List Shape → Option Exit) → Option Exit
flow_then none k = none
flow_then (some σ) k = k σ

abbrev pub condition : List Shape → (List Shape → Option Exit) → Option Exit
condition (word_shape ∷ σ) k = k σ
condition _ k = none

-- The locals' shapes, the labels around the code, and the shapes that the function gives back.
unfoldable pub check :
    List (Bytes × Shape) → List Bytes → List Shape → Code → List Shape → Option Exit
check Γ ls R close σ = some (falls σ)
check Γ ls R (op ▸ rest) σ = flow_then (op_flow Γ op σ) (λ τ. check Γ ls R rest τ)
check Γ ls R (br l rest) σ = if has_label l ls then some departs else none
check Γ ls R (br_if l rest) σ =
    condition σ (λ τ. let r = check Γ ls R rest τ in if has_label l ls then r else none)
check Γ ls R (return rest) σ = if begins_with R σ then some departs else none
check Γ ls R (block l body rest) σ = after_body (check Γ (l ∷ ls) R body []) (check Γ ls R rest σ)
check Γ ls R (loop l body rest) σ = after_body (check Γ (l ∷ ls) R body []) (check Γ ls R rest σ)
