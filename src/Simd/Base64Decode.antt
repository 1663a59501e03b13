-- ===== src/Simd/Base64Decode.antt =====
-- examples/wasm/base64_decode/main.go.
use asmgen.Base.{[], ◌∷◌}
use asmgen.Base.Int.{pos}
use asmgen.Base.Text.{codes, Bytes}
use asmgen.Wasm.{i32, v128}
use asmgen.Simd.Code.{Program, Code, close, ◌▸◌, block, br, br_if, loop, broadcast}
use asmgen.Simd.Code.Op.{
  i32_add, i32_const, i32_ge_s, i32_mul, i8x16_eq, i8x16_ge_s, i8x16_le_s, i8x16_shl, i8x16_shr_u,
  i8x16_shuffle, i8x16_sub, local_get, local_set, v128_and, v128_const16, v128_load, v128_or,
  v128_store,
}

abbrev pub c0 : Bytes
c0 = broadcast b'0'

abbrev pub c9 : Bytes
c9 = broadcast b'9'

abbrev pub c_upper_a : Bytes
c_upper_a = broadcast b'A'

abbrev pub c_upper_z : Bytes
c_upper_z = broadcast b'Z'

abbrev pub c_lower_a : Bytes
c_lower_a = broadcast b'a'

abbrev pub c_lower_z : Bytes
c_lower_z = broadcast b'z'

abbrev pub c_plus : Bytes
c_plus = broadcast b'+'

abbrev pub c_slash : Bytes
c_slash = broadcast b'/'

abbrev pub off252 : Bytes
off252 = broadcast 252

abbrev pub off65 : Bytes
off65 = broadcast 65

abbrev pub off71 : Bytes
off71 = broadcast 71

abbrev pub off237 : Bytes
off237 = broadcast 237

abbrev pub off240 : Bytes
off240 = broadcast 240

abbrev pub pat_left23 : Bytes
pat_left23 = 0 ∷ 17 ∷ 0 ∷ 4 ∷ 21 ∷ 0 ∷ 8 ∷ 25 ∷ 0 ∷ 12 ∷ 29 ∷ 0 ∷ 0 ∷ 0 ∷ 0 ∷ 0 ∷ []

abbrev pub pat_left6 : Bytes
pat_left6 = 0 ∷ 1 ∷ 18 ∷ 3 ∷ 4 ∷ 22 ∷ 6 ∷ 7 ∷ 26 ∷ 9 ∷ 10 ∷ 30 ∷ 0 ∷ 0 ∷ 0 ∷ 0 ∷ []

abbrev pub pat_right24 : Bytes
pat_right24 = 1 ∷ 18 ∷ 0 ∷ 5 ∷ 22 ∷ 0 ∷ 9 ∷ 26 ∷ 0 ∷ 13 ∷ 30 ∷ 0 ∷ 0 ∷ 0 ∷ 0 ∷ 0 ∷ []

abbrev pub pat_right0 : Bytes
pat_right0 = 0 ∷ 1 ∷ 19 ∷ 3 ∷ 4 ∷ 23 ∷ 6 ∷ 7 ∷ 27 ∷ 9 ∷ 10 ∷ 31 ∷ 0 ∷ 0 ∷ 0 ∷ 0 ∷ []

abbrev pub loop_body : Code
loop_body =
    local_get (codes "i")
    ▸ local_get (codes "nBlocks")
    ▸ i32_ge_s
    ▸ br_if (codes "done") (
        local_get (codes "srcPtr")
        ▸ local_get (codes "i")
        ▸ i32_const (pos 16)
        ▸ i32_mul
        ▸ i32_add
        ▸ v128_load (pos 0)
        ▸ local_set (codes "chars")
        ▸ local_get (codes "chars")
        ▸ local_get (codes "chars")
        ▸ v128_const16 c0
        ▸ i8x16_ge_s
        ▸ local_get (codes "chars")
        ▸ v128_const16 c9
        ▸ i8x16_le_s
        ▸ v128_and
        ▸ v128_const16 off252
        ▸ v128_and
        ▸ local_get (codes "chars")
        ▸ v128_const16 c_upper_a
        ▸ i8x16_ge_s
        ▸ local_get (codes "chars")
        ▸ v128_const16 c_upper_z
        ▸ i8x16_le_s
        ▸ v128_and
        ▸ v128_const16 off65
        ▸ v128_and
        ▸ v128_or
        ▸ local_get (codes "chars")
        ▸ v128_const16 c_lower_a
        ▸ i8x16_ge_s
        ▸ local_get (codes "chars")
        ▸ v128_const16 c_lower_z
        ▸ i8x16_le_s
        ▸ v128_and
        ▸ v128_const16 off71
        ▸ v128_and
        ▸ v128_or
        ▸ local_get (codes "chars")
        ▸ v128_const16 c_plus
        ▸ i8x16_eq
        ▸ v128_const16 off237
        ▸ v128_and
        ▸ v128_or
        ▸ local_get (codes "chars")
        ▸ v128_const16 c_slash
        ▸ i8x16_eq
        ▸ v128_const16 off240
        ▸ v128_and
        ▸ v128_or
        ▸ i8x16_sub
        ▸ local_set (codes "idx")
        ▸ local_get (codes "idx")
        ▸ i32_const (pos 2)
        ▸ i8x16_shl
        ▸ local_set (codes "shl2")
        ▸ local_get (codes "idx")
        ▸ i32_const (pos 4)
        ▸ i8x16_shl
        ▸ local_set (codes "shl4")
        ▸ local_get (codes "idx")
        ▸ i32_const (pos 6)
        ▸ i8x16_shl
        ▸ local_set (codes "shl6")
        ▸ local_get (codes "idx")
        ▸ i32_const (pos 4)
        ▸ i8x16_shr_u
        ▸ local_set (codes "shr4")
        ▸ local_get (codes "idx")
        ▸ i32_const (pos 2)
        ▸ i8x16_shr_u
        ▸ local_set (codes "shr2")
        ▸ local_get (codes "shl2")
        ▸ local_get (codes "shl4")
        ▸ i8x16_shuffle pat_left23
        ▸ local_set (codes "left23")
        ▸ local_get (codes "shr4")
        ▸ local_get (codes "shr2")
        ▸ i8x16_shuffle pat_right24
        ▸ local_set (codes "right24")
        ▸ local_get (codes "dstPtr")
        ▸ local_get (codes "i")
        ▸ i32_const (pos 12)
        ▸ i32_mul
        ▸ i32_add
        ▸ local_get (codes "left23")
        ▸ local_get (codes "shl6")
        ▸ i8x16_shuffle pat_left6
        ▸ local_get (codes "right24")
        ▸ local_get (codes "idx")
        ▸ i8x16_shuffle pat_right0
        ▸ v128_or
        ▸ v128_store (pos 0)
        ▸ local_get (codes "i")
        ▸ i32_const (pos 1)
        ▸ i32_add
        ▸ local_set (codes "i")
        ▸ br (codes "loop") close)

-- The calls on the function, from the first one behind its locals on.
abbrev pub kernel : Code
kernel =
    i32_const (pos 0)
    ▸ local_set (codes "i")
    ▸ block (codes "done") (loop (codes "loop") loop_body close) close

-- What `run` builds.
abbrev pub program : Program
program = record {
  name = codes "base64_decode";
  params =
      record { name = codes "dstPtr"; type = i32 }
      ∷ record { name = codes "srcPtr"; type = i32 }
      ∷ record { name = codes "nBlocks"; type = i32 }
      ∷ [];
  results = [];
  locals =
      record { name = codes "i"; type = i32 }
      ∷ record { name = codes "chars"; type = v128 }
      ∷ record { name = codes "idx"; type = v128 }
      ∷ record { name = codes "shl2"; type = v128 }
      ∷ record { name = codes "shl4"; type = v128 }
      ∷ record { name = codes "shl6"; type = v128 }
      ∷ record { name = codes "shr4"; type = v128 }
      ∷ record { name = codes "shr2"; type = v128 }
      ∷ record { name = codes "left23"; type = v128 }
      ∷ record { name = codes "right24"; type = v128 }
      ∷ [];
  code = kernel;
}
