-- ===== src/Simd/Base64Encode.antt =====
-- examples/wasm/base64_encode/main.go.
use asmgen.Base.{[], ◌∷◌}
use asmgen.Base.Int.{pos}
use asmgen.Base.Text.{codes, Bytes}
use asmgen.Wasm.{i32, v128}
use asmgen.Simd.Code.{Program, Code, close, ◌▸◌, block, br, br_if, loop, broadcast, rep_u32}
use asmgen.Simd.Code.Op.{
  i16x8_mul, i16x8_narrow_i32x4_u, i32_add, i32_const, i32_ge_s, i32_mul, i32x4_extmul_high_i16x8_u,
  i32x4_extmul_low_i16x8_u, i32x4_shr_u, i8x16_add, i8x16_eq, i8x16_gt_u, i8x16_shuffle, local_get,
  local_set, local_tee, v128_and, v128_const16, v128_load, v128_or, v128_store,
}

abbrev pub shuf : Bytes
shuf = 1 ∷ 0 ∷ 2 ∷ 1 ∷ 4 ∷ 3 ∷ 5 ∷ 4 ∷ 7 ∷ 6 ∷ 8 ∷ 7 ∷ 10 ∷ 9 ∷ 11 ∷ 10 ∷ []

abbrev pub mask1 : Bytes
mask1 = rep_u32 (0 ∷ 252 ∷ 192 ∷ 15 ∷ [])

abbrev pub mulhi : Bytes
mulhi = rep_u32 (64 ∷ 0 ∷ 0 ∷ 4 ∷ [])

abbrev pub mask2 : Bytes
mask2 = rep_u32 (240 ∷ 3 ∷ 63 ∷ 0 ∷ [])

abbrev pub mullo : Bytes
mullo = rep_u32 (16 ∷ 0 ∷ 0 ∷ 1 ∷ [])

abbrev pub c51 : Bytes
c51 = broadcast 51

abbrev pub c25 : Bytes
c25 = broadcast 25

abbrev pub c62 : Bytes
c62 = broadcast 62

abbrev pub c63 : Bytes
c63 = broadcast 63

abbrev pub add65 : Bytes
add65 = broadcast 65

abbrev pub add06 : Bytes
add06 = broadcast 6

abbrev pub sub75 : Bytes
sub75 = broadcast 181

abbrev pub sub15 : Bytes
sub15 = broadcast 241

abbrev pub sub12 : Bytes
sub12 = broadcast 244

abbrev pub loop_body : Code
loop_body =
    local_get (codes "i")
    ▸ local_get (codes "nBlocks")
    ▸ i32_ge_s
    ▸ br_if (codes "done") (
        local_get (codes "srcPtr")
        ▸ local_get (codes "i")
        ▸ i32_const (pos 12)
        ▸ i32_mul
        ▸ i32_add
        ▸ v128_load (pos 0)
        ▸ local_set (codes "bytes")
        ▸ local_get (codes "bytes")
        ▸ local_get (codes "bytes")
        ▸ i8x16_shuffle shuf
        ▸ local_set (codes "triplets")
        ▸ local_get (codes "triplets")
        ▸ v128_const16 mask1
        ▸ v128_and
        ▸ local_tee (codes "hi")
        ▸ v128_const16 mulhi
        ▸ i32x4_extmul_low_i16x8_u
        ▸ i32_const (pos 16)
        ▸ i32x4_shr_u
        ▸ local_get (codes "hi")
        ▸ v128_const16 mulhi
        ▸ i32x4_extmul_high_i16x8_u
        ▸ i32_const (pos 16)
        ▸ i32x4_shr_u
        ▸ i16x8_narrow_i32x4_u
        ▸ local_set (codes "hi")
        ▸ local_get (codes "triplets")
        ▸ v128_const16 mask2
        ▸ v128_and
        ▸ v128_const16 mullo
        ▸ i16x8_mul
        ▸ local_set (codes "lo")
        ▸ local_get (codes "hi")
        ▸ local_get (codes "lo")
        ▸ v128_or
        ▸ local_set (codes "idx")
        ▸ local_get (codes "dstPtr")
        ▸ local_get (codes "i")
        ▸ i32_const (pos 16)
        ▸ i32_mul
        ▸ i32_add
        ▸ local_get (codes "idx")
        ▸ v128_const16 add65
        ▸ i8x16_add
        ▸ local_get (codes "idx")
        ▸ v128_const16 c25
        ▸ i8x16_gt_u
        ▸ v128_const16 add06
        ▸ v128_and
        ▸ i8x16_add
        ▸ local_get (codes "idx")
        ▸ v128_const16 c51
        ▸ i8x16_gt_u
        ▸ v128_const16 sub75
        ▸ v128_and
        ▸ i8x16_add
        ▸ local_get (codes "idx")
        ▸ v128_const16 c62
        ▸ i8x16_eq
        ▸ v128_const16 sub15
        ▸ v128_and
        ▸ i8x16_add
        ▸ local_get (codes "idx")
        ▸ v128_const16 c63
        ▸ i8x16_eq
        ▸ v128_const16 sub12
        ▸ v128_and
        ▸ i8x16_add
        ▸ v128_store (pos 0)
        ▸ local_get (codes "i")
        ▸ i32_const (pos 1)
        ▸ i32_add
        ▸ local_set (codes "i")
        ▸ br (codes "loop") close)

-- The calls on the function, from the first one behind its locals on.
abbrev pub kernel : Code
kernel =
    i32_const (pos 0)
    ▸ local_set (codes "i")
    ▸ block (codes "done") (loop (codes "loop") loop_body close) close

-- What `run` builds.
abbrev pub program : Program
program = record {
  name = codes "base64_encode";
  params =
      record { name = codes "dstPtr"; type = i32 }
      ∷ record { name = codes "srcPtr"; type = i32 }
      ∷ record { name = codes "nBlocks"; type = i32 }
      ∷ [];
  results = [];
  locals =
      record { name = codes "i"; type = i32 }
      ∷ record { name = codes "bytes"; type = v128 }
      ∷ record { name = codes "triplets"; type = v128 }
      ∷ record { name = codes "hi"; type = v128 }
      ∷ record { name = codes "lo"; type = v128 }
      ∷ record { name = codes "idx"; type = v128 }
      ∷ [];
  code = kernel;
}
