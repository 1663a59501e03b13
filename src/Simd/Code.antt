-- ===== src/Simd/Code.antt =====
-- The instructions that the programs of examples/wasm emit, and the method of wasm/emit.go that emits
-- each. A program's calls are a term of `Code`: `Block` and `Loop` hold what stands before their
-- `End`.
pub mod Nested
pub mod Balanced
use asmgen.Base.{List, [], ◌∷◌, ◌++◌, ℕ}
use asmgen.Base.Int.{ℤ}
use asmgen.Base.Text.{Bytes, codes}
use asmgen.Base.Panics.{Result, ok, ◌>>=◌}
use asmgen.Wasm
use asmgen.Wasm.{Function, Param, Module, new_module, import_memory, module_string}
use asmgen.Wasm.Ops

-- The instructions on one line that do not leave a block.
pub data Op : Type 0 where
  local_get : Bytes → Op
  local_set : Bytes → Op
  local_tee : Bytes → Op
  i32_const : ℤ → Op
  i32_add i32_sub i32_mul i32_eqz i32_ne i32_gt_s i32_ge_s i32_ctz i32_popcnt : Op
  i32_load8_u : Op
  i32_store : ℤ → Op
  v128_load : ℤ → Op
  v128_store : ℤ → Op
  v128_store64_lane : ℤ → ℤ → Op
  v128_const16 : Bytes → Op
  v128_zero v128_and v128_or : Op
  i8x16_eq i8x16_gt_u i8x16_ge_s i8x16_le_s i8x16_add i8x16_sub : Op
  i8x16_splat i8x16_bitmask i8x16_all_true i8x16_popcnt i8x16_swizzle : Op
  i8x16_shl i8x16_shr_u : Op
  i8x16_shuffle : Bytes → Op
  i16x8_mul i16x8_narrow_i32x4_u i16x8_extadd_pairwise_i8x16_u : Op
  i16x8_extmul_low_i8x16_u i16x8_extmul_high_i8x16_u : Op
  i32x4_add i32x4_shr_u i32x4_extadd_pairwise_i16x8_u : Op
  i32x4_extmul_low_i16x8_u i32x4_extmul_high_i16x8_u : Op
  i32x4_extract_lane : ℤ → Op

infixr 5 ◌▸◌
pub data Code : Type 0 where
  -- where an `End` stands, or the function's own end
  close : Code
  ◌▸◌ : Op → Code → Code
  br : Bytes → Code → Code
  br_if : Bytes → Code → Code
  return : Code → Code
  -- the label, the body, and what follows the `End`
  block : Bytes → Code → Code → Code
  loop : Bytes → Code → Code → Code

pub write_op : Function → Op → Result Function
write_op f (local_get x) = ok (Wasm.local_get f x)
write_op f (local_set x) = ok (Wasm.local_set f x)
write_op f (local_tee x) = ok (Wasm.local_tee f x)
write_op f (i32_const v) = ok (Wasm.i32_const f v)
write_op f i32_add = ok (Ops.i32_add f)
write_op f i32_sub = ok (Ops.i32_sub f)
write_op f i32_mul = ok (Ops.i32_mul f)
write_op f i32_eqz = ok (Ops.i32_eqz f)
write_op f i32_ne = ok (Ops.i32_ne f)
write_op f i32_gt_s = ok (Ops.i32_gt_s f)
write_op f i32_ge_s = ok (Ops.i32_ge_s f)
write_op f i32_ctz = ok (Ops.i32_ctz f)
write_op f i32_popcnt = ok (Ops.i32_popcnt f)
write_op f i32_load8_u = ok (Ops.i32_load8_u f)
write_op f (i32_store offset) = ok (Wasm.i32_store f offset)
write_op f (v128_load offset) = ok (Wasm.v128_load f offset)
write_op f (v128_store offset) = ok (Wasm.v128_store f offset)
write_op f (v128_store64_lane offset lane) = Wasm.v128_store64_lane f offset lane
write_op f (v128_const16 b) = Wasm.v128_const16 f b
write_op f v128_zero = ok (Ops.v128_zero f)
write_op f v128_and = ok (Ops.v128_and f)
write_op f v128_or = ok (Ops.v128_or f)
write_op f i8x16_eq = ok (Ops.i8x16_eq f)
write_op f i8x16_gt_u = ok (Ops.i8x16_gt_u f)
write_op f i8x16_ge_s = ok (Ops.i8x16_ge_s f)
write_op f i8x16_le_s = ok (Ops.i8x16_le_s f)
write_op f i8x16_add = ok (Ops.i8x16_add f)
write_op f i8x16_sub = ok (Ops.i8x16_sub f)
write_op f i8x16_splat = ok (Ops.i8x16_splat f)
write_op f i8x16_bitmask = ok (Ops.i8x16_bitmask f)
write_op f i8x16_all_true = ok (Ops.i8x16_all_true f)
write_op f i8x16_popcnt = ok (Ops.i8x16_popcnt f)
write_op f i8x16_swizzle = ok (Ops.i8x16_swizzle f)
write_op f i8x16_shl = ok (Ops.i8x16_shl f)
write_op f i8x16_shr_u = ok (Ops.i8x16_shr_u f)
write_op f (i8x16_shuffle imm) = Wasm.i8x16_shuffle f imm
write_op f i16x8_mul = ok (Ops.i16x8_mul f)
write_op f i16x8_narrow_i32x4_u = ok (Ops.i16x8_narrow_i32x4_u f)
write_op f i16x8_extadd_pairwise_i8x16_u = ok (Ops.i16x8_extadd_pairwise_i8x16_u f)
write_op f i16x8_extmul_low_i8x16_u = ok (Ops.i16x8_extmul_low_i8x16_u f)
write_op f i16x8_extmul_high_i8x16_u = ok (Ops.i16x8_extmul_high_i8x16_u f)
write_op f i32x4_add = ok (Ops.i32x4_add f)
write_op f i32x4_shr_u = ok (Ops.i32x4_shr_u f)
write_op f i32x4_extadd_pairwise_i16x8_u = ok (Ops.i32x4_extadd_pairwise_i16x8_u f)
write_op f i32x4_extmul_low_i16x8_u = ok (Ops.i32x4_extmul_low_i16x8_u f)
write_op f i32x4_extmul_high_i16x8_u = ok (Ops.i32x4_extmul_high_i16x8_u f)
write_op f (i32x4_extract_lane lane) = Wasm.i32x4_extract_lane f lane

-- The calls of a program on its function, in their order.
unfoldable pub write : Function → Code → Result Function
unfolding write_op
write f close = ok f
write f (op ▸ rest) = write_op f op >>= λ g. write g rest
write f (br l rest) = write (Wasm.br f (record { name = l })) rest
write f (br_if l rest) = write (Wasm.br_if f (record { name = l })) rest
write f (return rest) = write (Ops.return_values f) rest
write f (block l body rest) =
    let opened = Wasm.block f l in write opened.0 body >>= λ g. write (Wasm.end g) rest
write f (loop l body rest) =
    let opened = Wasm.loop f l in write opened.0 body >>= λ g. write (Wasm.end g) rest

-- 16 copies of a byte.
abbrev pub broadcast : ℕ → Bytes
broadcast b = b ∷ b ∷ b ∷ b ∷ b ∷ b ∷ b ∷ b ∷ b ∷ b ∷ b ∷ b ∷ b ∷ b ∷ b ∷ b ∷ []

-- `repU32`, which copies 4 bytes to each quarter.
abbrev pub rep_u32 : Bytes → Bytes
rep_u32 u = u ++ (u ++ (u ++ u))

-- A program: the arguments of `NewFunction`, the calls of `Local`, and the other calls on the function.
pub record Program : Type 0 where
  pub name : Bytes
  pub params : List Param
  pub results : List Bytes
  pub locals : List Param
  pub code : Code

pub declare : Function → List Param → Function
declare f [] = f
declare f (p ∷ ps) = declare (Wasm.add_local f p.name p.type).0 ps

-- The function that the program builds.
unfoldable pub build : Program → Result Function
unfolding declare write
build p = write (declare (Wasm.new_function p.name p.name p.params p.results) p.locals) p.code

-- What the program writes.
unfoldable pub run : Program → Result Bytes
unfolding build
run p = build p >>= λ f.
    ok (module_string (Wasm.add (import_memory new_module (codes "env") (codes "memory")) f))
