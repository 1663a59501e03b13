-- ===== src/Wasm/Methods.antt =====
-- wasm/emit.go: the methods that emit one line as steps of a function's building.
use asmgen.Base.{ℕ, ◌≡◌, refl, List, [], ◌∷◌, All, ◌&◌, get_elem?, some, All-get}
use asmgen.Base.Text.{codes}
use asmgen.Wasm.{Function}
use asmgen.Wasm.Nesting.{depth, Step}
use asmgen.Wasm.Ops.{
  v128_and, v128_or, v128_xor, i8x16_eq, i8x16_ge_s, i8x16_le_s, i8x16_sub, i8x16_splat,
  i8x16_bitmask, i32_ctz, i32_sub, i32_popcnt, i8x16_all_true, i8x16_swizzle, i8x16_shr_u,
  i8x16_shl, i8x16_popcnt, i16x8_extadd_pairwise_i8x16_u, i32x4_extadd_pairwise_i16x8_u,
  i16x8_extmul_low_i8x16_u, i16x8_extmul_high_i8x16_u, i16x8_mul, i32x4_extmul_low_i16x8_u,
  i32x4_extmul_high_i16x8_u, i32x4_shr_u, i16x8_narrow_i32x4_u, i8x16_gt_u, i8x16_lt_u, i8x16_add,
  i32x4_add, v128_zero, i32_eqz, i32_add, i32_mul, i32_load8_u, i32_gt_s, i32_ge_s, i32_ne,
  return_values,
}

-- The methods without an argument, but for `end`.
abbrev pub methods : List (Function → Function)
methods =
    v128_and ∷ v128_or ∷ v128_xor ∷ i8x16_eq ∷ i8x16_ge_s ∷ i8x16_le_s ∷ i8x16_sub ∷ i8x16_splat
    ∷ i8x16_bitmask ∷ i32_ctz ∷ i32_sub ∷ i32_popcnt ∷ i8x16_all_true ∷ i8x16_swizzle ∷ i8x16_shr_u
    ∷ i8x16_shl ∷ i8x16_popcnt ∷ i16x8_extadd_pairwise_i8x16_u ∷ i32x4_extadd_pairwise_i16x8_u
    ∷ i16x8_extmul_low_i8x16_u ∷ i16x8_extmul_high_i8x16_u ∷ i16x8_mul ∷ i32x4_extmul_low_i16x8_u
    ∷ i32x4_extmul_high_i16x8_u ∷ i32x4_shr_u ∷ i16x8_narrow_i32x4_u ∷ i8x16_gt_u ∷ i8x16_lt_u
    ∷ i8x16_add ∷ i32x4_add ∷ v128_zero ∷ i32_eqz ∷ i32_add ∷ i32_mul ∷ i32_load8_u ∷ i32_gt_s
    ∷ i32_ge_s ∷ i32_ne ∷ return_values ∷ []

abbrev IsStep : (Function → Function) → Type 0
IsStep method = (f : Function) (d : ℕ) → Step f d (method f) d

methods-IsStep : All IsStep methods
unfolding depth
methods-IsStep =
    (λ f d. Step.line_op (codes "(v128.and)") (λ e t. refl))
    & (λ f d. Step.line_op (codes "(v128.or)") (λ e t. refl))
    & (λ f d. Step.line_op (codes "(v128.xor)") (λ e t. refl))
    & (λ f d. Step.line_op (codes "(i8x16.eq)") (λ e t. refl))
    & (λ f d. Step.line_op (codes "(i8x16.ge_s)") (λ e t. refl))
    & (λ f d. Step.line_op (codes "(i8x16.le_s)") (λ e t. refl))
    & (λ f d. Step.line_op (codes "(i8x16.sub)") (λ e t. refl))
    & (λ f d. Step.line_op (codes "(i8x16.splat)") (λ e t. refl))
    & (λ f d. Step.line_op (codes "(i8x16.bitmask)") (λ e t. refl))
    & (λ f d. Step.line_op (codes "(i32.ctz)") (λ e t. refl))
    & (λ f d. Step.line_op (codes "(i32.sub)") (λ e t. refl))
    & (λ f d. Step.line_op (codes "(i32.popcnt)") (λ e t. refl))
    & (λ f d. Step.line_op (codes "(i8x16.all_true)") (λ e t. refl))
    & (λ f d. Step.line_op (codes "(i8x16.swizzle)") (λ e t. refl))
    & (λ f d. Step.line_op (codes "(i8x16.shr_u)") (λ e t. refl))
    & (λ f d. Step.line_op (codes "(i8x16.shl)") (λ e t. refl))
    & (λ f d. Step.line_op (codes "(i8x16.popcnt)") (λ e t. refl))
    & (λ f d. Step.line_op (codes "(i16x8.extadd_pairwise_i8x16_u)") (λ e t. refl))
    & (λ f d. Step.line_op (codes "(i32x4.extadd_pairwise_i16x8_u)") (λ e t. refl))
    & (λ f d. Step.line_op (codes "(i16x8.extmul_low_i8x16_u)") (λ e t. refl))
    & (λ f d. Step.line_op (codes "(i16x8.extmul_high_i8x16_u)") (λ e t. refl))
    & (λ f d. Step.line_op (codes "(i16x8.mul)") (λ e t. refl))
    & (λ f d. Step.line_op (codes "(i32x4.extmul_low_i16x8_u)") (λ e t. refl))
    & (λ f d. Step.line_op (codes "(i32x4.extmul_high_i16x8_u)") (λ e t. refl))
    & (λ f d. Step.line_op (codes "(i32x4.shr_u)") (λ e t. refl))
    & (λ f d. Step.line_op (codes "(i16x8.narrow_i32x4_u)") (λ e t. refl))
    & (λ f d. Step.line_op (codes "(i8x16.gt_u)") (λ e t. refl))
    & (λ f d. Step.line_op (codes "(i8x16.lt_u)") (λ e t. refl))
    & (λ f d. Step.line_op (codes "(i8x16.add)") (λ e t. refl))
    & (λ f d. Step.line_op (codes "(i32x4.add)") (λ e t. refl))
    & (λ f d. Step.line_op (codes "(v128.const i32x4 0 0 0 0)") (λ e t. refl))
    & (λ f d. Step.line_op (codes "(i32.eqz)") (λ e t. refl))
    & (λ f d. Step.line_op (codes "(i32.add)") (λ e t. refl))
    & (λ f d. Step.line_op (codes "(i32.mul)") (λ e t. refl))
    & (λ f d. Step.line_op (codes "(i32.load8_u)") (λ e t. refl))
    & (λ f d. Step.line_op (codes "(i32.gt_s)") (λ e t. refl))
    & (λ f d. Step.line_op (codes "(i32.ge_s)") (λ e t. refl))
    & (λ f d. Step.line_op (codes "(i32.ne)") (λ e t. refl))
    & (λ f d. Step.line_op (codes "(return)") (λ e t. refl))
    & tt

-- Each of them leaves the depth as it is.
pub method-Step :
    (k : ℕ) (method : Function → Function) (f : Function) (d : ℕ)
    → get_elem? methods k ≡ some method
    → Step f d (method f) d
method-Step k method f d at = All-get IsStep methods k method methods-IsStep at f d
