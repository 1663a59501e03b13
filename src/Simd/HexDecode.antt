-- ===== src/Simd/HexDecode.antt =====
-- examples/wasm/hex_decode/main.go.
pub mod Digits
pub mod Correct
pub mod Roundtrip
use asmgen.Base.{[], ◌∷◌}
use asmgen.Base.Int.{pos}
use asmgen.Base.Text.{codes, Bytes}
use asmgen.Wasm.{i32, v128}
use asmgen.Simd.Code.{Program, Code, close, ◌▸◌, block, br, br_if, loop, broadcast}
use asmgen.Simd.Code.Op.{
  i32_add, i32_const, i32_ge_s, i32_mul, i8x16_ge_s, i8x16_le_s, i8x16_shl, i8x16_shuffle,
  i8x16_sub, local_get, local_set, v128_and, v128_const16, v128_load, v128_or, v128_store64_lane,
}

abbrev pub c0 : Bytes
c0 = broadcast b'0'

abbrev pub c9 : Bytes
c9 = broadcast b'9'

abbrev pub c_upper_a : Bytes
c_upper_a = broadcast b'A'

abbrev pub c_upper_f : Bytes
c_upper_f = broadcast b'F'

abbrev pub c_lower_a : Bytes
c_lower_a = broadcast b'a'

abbrev pub c_lower_f : Bytes
c_lower_f = broadcast b'f'

abbrev pub off48 : Bytes
off48 = broadcast 48

abbrev pub off55 : Bytes
off55 = broadcast 55

abbrev pub off87 : Bytes
off87 = broadcast 87

abbrev pub shuf_hi : Bytes
shuf_hi = 0 ∷ 2 ∷ 4 ∷ 6 ∷ 8 ∷ 10 ∷ 12 ∷ 14 ∷ 0 ∷ 0 ∷ 0 ∷ 0 ∷ 0 ∷ 0 ∷ 0 ∷ 0 ∷ []

abbrev pub shuf_lo : Bytes
shuf_lo = 1 ∷ 3 ∷ 5 ∷ 7 ∷ 9 ∷ 11 ∷ 13 ∷ 15 ∷ 0 ∷ 0 ∷ 0 ∷ 0 ∷ 0 ∷ 0 ∷ 0 ∷ 0 ∷ []

abbrev pub loop_body : Code
loop_body =
    local_get (codes "i")
    ▸ local_get (codes "nBlocks")
    ▸ i32_ge_s
    ▸ br_if (codes "done") (
        local_get (codes "srcPtr")
        ▸ local_get (codes "i")
        ▸ i32_const (pos 16)
        ▸ i32_mul
        ▸ i32_add
        ▸ v128_load (pos 0)
        ▸ local_set (codes "chars")
        ▸ local_get (codes "chars")
        ▸ v128_const16 c0
        ▸ i8x16_ge_s
        ▸ local_get (codes "chars")
        ▸ v128_const16 c9
        ▸ i8x16_le_s
        ▸ v128_and
        ▸ local_set (codes "digit")
        ▸ local_get (codes "chars")
        ▸ v128_const16 c_upper_a
        ▸ i8x16_ge_s
        ▸ local_get (codes "chars")
        ▸ v128_const16 c_upper_f
        ▸ i8x16_le_s
        ▸ v128_and
        ▸ local_set (codes "upper")
        ▸ local_get (codes "chars")
        ▸ v128_const16 c_lower_a
        ▸ i8x16_ge_s
        ▸ local_get (codes "chars")
        ▸ v128_const16 c_lower_f
        ▸ i8x16_le_s
        ▸ v128_and
        ▸ local_set (codes "lower")
        ▸ local_get (codes "digit")
        ▸ v128_const16 off48
        ▸ v128_and
        ▸ local_get (codes "upper")
        ▸ v128_const16 off55
        ▸ v128_and
        ▸ v128_or
        ▸ local_get (codes "lower")
        ▸ v128_const16 off87
        ▸ v128_and
        ▸ v128_or
        ▸ local_set (codes "offset")
        ▸ local_get (codes "chars")
        ▸ local_get (codes "offset")
        ▸ i8x16_sub
        ▸ local_set (codes "nibbles")
        ▸ local_get (codes "dstPtr")
        ▸ local_get (codes "i")
        ▸ i32_const (pos 8)
        ▸ i32_mul
        ▸ i32_add
        ▸ local_get (codes "nibbles")
        ▸ local_get (codes "nibbles")
        ▸ i8x16_shuffle shuf_hi
        ▸ i32_const (pos 4)
        ▸ i8x16_shl
        ▸ local_get (codes "nibbles")
        ▸ local_get (codes "nibbles")
        ▸ i8x16_shuffle shuf_lo
        ▸ v128_or
        ▸ v128_store64_lane (pos 0) (pos 0)
        ▸ local_get (codes "i")
        ▸ i32_const (pos 1)
        ▸ i32_add
        ▸ local_set (codes "i")
        ▸ br (codes "loop") close)

-- The calls on the function, from the first one behind its locals on.
abbrev pub kernel : Code
kernel =
    i32_const (pos 0)
    ▸ local_set (codes "i")
    ▸ block (codes "done") (loop (codes "loop") loop_body close) close

-- What `run` builds.
abbrev pub program : Program
program = record {
  name = codes "hex_decode";
  params =
      record { name = codes "dstPtr"; type = i32 }
      ∷ record { name = codes "srcPtr"; type = i32 }
      ∷ record { name = codes "nBlocks"; type = i32 }
      ∷ [];
  results = [];
  locals =
      record { name = codes "i"; type = i32 }
      ∷ record { name = codes "chars"; type = v128 }
      ∷ record { name = codes "digit"; type = v128 }
      ∷ record { name = codes "upper"; type = v128 }
      ∷ record { name = codes "lower"; type = v128 }
      ∷ record { name = codes "offset"; type = v128 }
      ∷ record { name = codes "nibbles"; type = v128 }
      ∷ [];
  code = kernel;
}
