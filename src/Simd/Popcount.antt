-- ===== src/Simd/Popcount.antt =====
-- examples/wasm/popcount/main.go.
pub mod Correct
use asmgen.Base.{[], ◌∷◌}
use asmgen.Base.Int.{pos}
use asmgen.Base.Text.{codes}
use asmgen.Wasm.{i32, v128}
use asmgen.Simd.Code.{Program, Code, close, ◌▸◌, block, br, br_if, loop}
use asmgen.Simd.Code.Op.{
  i16x8_extadd_pairwise_i8x16_u, i32_add, i32_const, i32_ge_s, i32_mul, i32x4_add,
  i32x4_extadd_pairwise_i16x8_u, i32x4_extract_lane, i8x16_popcnt, local_get, local_set, v128_load,
  v128_zero,
}

abbrev pub loop_body : Code
loop_body =
    local_get (codes "i")
    ▸ local_get (codes "nBlocks")
    ▸ i32_ge_s
    ▸ br_if (codes "done") (
        local_get (codes "srcPtr")
        ▸ local_get (codes "i")
        ▸ i32_const (pos 16)
        ▸ i32_mul
        ▸ i32_add
        ▸ v128_load (pos 0)
        ▸ local_set (codes "bytes")
        ▸ local_get (codes "acc")
        ▸ local_get (codes "bytes")
        ▸ i8x16_popcnt
        ▸ i16x8_extadd_pairwise_i8x16_u
        ▸ i32x4_extadd_pairwise_i16x8_u
        ▸ i32x4_add
        ▸ local_set (codes "acc")
        ▸ local_get (codes "i")
        ▸ i32_const (pos 1)
        ▸ i32_add
        ▸ local_set (codes "i")
        ▸ br (codes "loop") close)

-- The calls on the function, from the first one behind its locals on.
abbrev pub kernel : Code
kernel =
    v128_zero
    ▸ local_set (codes "acc")
    ▸ i32_const (pos 0)
    ▸ local_set (codes "i")
    ▸ block (codes "done") (loop (codes "loop") loop_body close) (
        local_get (codes "acc")
        ▸ i32x4_extract_lane (pos 0)
        ▸ local_get (codes "acc")
        ▸ i32x4_extract_lane (pos 1)
        ▸ i32_add
        ▸ local_get (codes "acc")
        ▸ i32x4_extract_lane (pos 2)
        ▸ i32_add
        ▸ local_get (codes "acc")
        ▸ i32x4_extract_lane (pos 3)
        ▸ i32_add
        ▸ close)

-- What `run` builds.
abbrev pub program : Program
program = record {
  name = codes "popcount";
  params =
      record { name = codes "srcPtr"; type = i32 }
      ∷ record { name = codes "nBlocks"; type = i32 }
      ∷ [];
  results = i32 ∷ [];
  locals =
      record { name = codes "i"; type = i32 }
      ∷ record { name = codes "acc"; type = v128 }
      ∷ record { name = codes "bytes"; type = v128 }
      ∷ [];
  code = kernel;
}
