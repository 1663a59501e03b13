-- ===== src/Simd/Adler32.antt =====
-- examples/wasm/adler32/main.go.
pub mod Sums
pub mod Correct
use asmgen.Base.{[], ◌∷◌}
use asmgen.Base.Int.{pos}
use asmgen.Base.Text.{codes, Bytes}
use asmgen.Wasm.{i32, v128}
use asmgen.Simd.Code.{Program, Code, close, ◌▸◌, block, br, br_if, loop}
use asmgen.Simd.Code.Op.{
  i16x8_extadd_pairwise_i8x16_u, i16x8_extmul_high_i8x16_u, i16x8_extmul_low_i8x16_u, i32_add,
  i32_const, i32_ge_s, i32_mul, i32_store, i32x4_add, i32x4_extadd_pairwise_i16x8_u,
  i32x4_extract_lane, local_get, local_set, v128_const16, v128_load,
}

abbrev pub coef : Bytes
coef = 16 ∷ 15 ∷ 14 ∷ 13 ∷ 12 ∷ 11 ∷ 10 ∷ 9 ∷ 8 ∷ 7 ∷ 6 ∷ 5 ∷ 4 ∷ 3 ∷ 2 ∷ 1 ∷ []

abbrev pub loop_body : Code
loop_body =
    local_get (codes "i")
    ▸ local_get (codes "nBlocks")
    ▸ i32_ge_s
    ▸ br_if (codes "done") (
        local_get (codes "srcPtr")
        ▸ local_get (codes "i")
        ▸ i32_const (pos 16)
        ▸ i32_mul
        ▸ i32_add
        ▸ v128_load (pos 0)
        ▸ local_set (codes "bytes")
        ▸ local_get (codes "bytes")
        ▸ i16x8_extadd_pairwise_i8x16_u
        ▸ i32x4_extadd_pairwise_i16x8_u
        ▸ local_set (codes "wpair")
        ▸ local_get (codes "wpair")
        ▸ i32x4_extract_lane (pos 0)
        ▸ local_get (codes "wpair")
        ▸ i32x4_extract_lane (pos 1)
        ▸ i32_add
        ▸ local_get (codes "wpair")
        ▸ i32x4_extract_lane (pos 2)
        ▸ i32_add
        ▸ local_get (codes "wpair")
        ▸ i32x4_extract_lane (pos 3)
        ▸ i32_add
        ▸ local_set (codes "deltaA")
        ▸ local_get (codes "bytes")
        ▸ v128_const16 coef
        ▸ i16x8_extmul_low_i8x16_u
        ▸ i32x4_extadd_pairwise_i16x8_u
        ▸ local_get (codes "bytes")
        ▸ v128_const16 coef
        ▸ i16x8_extmul_high_i8x16_u
        ▸ i32x4_extadd_pairwise_i16x8_u
        ▸ i32x4_add
        ▸ local_set (codes "wpair")
        ▸ local_get (codes "wpair")
        ▸ i32x4_extract_lane (pos 0)
        ▸ local_get (codes "wpair")
        ▸ i32x4_extract_lane (pos 1)
        ▸ i32_add
        ▸ local_get (codes "wpair")
        ▸ i32x4_extract_lane (pos 2)
        ▸ i32_add
        ▸ local_get (codes "wpair")
        ▸ i32x4_extract_lane (pos 3)
        ▸ i32_add
        ▸ local_set (codes "weighted")
        ▸ local_get (codes "b")
        ▸ local_get (codes "a")
        ▸ i32_const (pos 16)
        ▸ i32_mul
        ▸ i32_add
        ▸ local_get (codes "weighted")
        ▸ i32_add
        ▸ local_set (codes "b")
        ▸ local_get (codes "a")
        ▸ local_get (codes "deltaA")
        ▸ i32_add
        ▸ local_set (codes "a")
        ▸ local_get (codes "i")
        ▸ i32_const (pos 1)
        ▸ i32_add
        ▸ local_set (codes "i")
        ▸ br (codes "loop") close)

-- The calls on the function, from the first one behind its locals on.
abbrev pub kernel : Code
kernel =
    local_get (codes "aInit")
    ▸ local_set (codes "a")
    ▸ local_get (codes "bInit")
    ▸ local_set (codes "b")
    ▸ i32_const (pos 0)
    ▸ local_set (codes "i")
    ▸ block (codes "done") (loop (codes "loop") loop_body close) (
        local_get (codes "aOut")
        ▸ local_get (codes "a")
        ▸ i32_store (pos 0)
        ▸ local_get (codes "bOut")
        ▸ local_get (codes "b")
        ▸ i32_store (pos 0)
        ▸ close)

-- What `run` builds.
abbrev pub program : Program
program = record {
  name = codes "adler32";
  params =
      record { name = codes "srcPtr"; type = i32 }
      ∷ record { name = codes "nBlocks"; type = i32 }
      ∷ record { name = codes "aInit"; type = i32 }
      ∷ record { name = codes "bInit"; type = i32 }
      ∷ record { name = codes "aOut"; type = i32 }
      ∷ record { name = codes "bOut"; type = i32 }
      ∷ [];
  results = [];
  locals =
      record { name = codes "i"; type = i32 }
      ∷ record { name = codes "a"; type = i32 }
      ∷ record { name = codes "b"; type = i32 }
      ∷ record { name = codes "bytes"; type = v128 }
      ∷ record { name = codes "wpair"; type = v128 }
      ∷ record { name = codes "deltaA"; type = i32 }
      ∷ record { name = codes "weighted"; type = i32 }
      ∷ [];
  code = kernel;
}
