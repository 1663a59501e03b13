-- ===== src/Simd/Hex.antt =====
-- examples/wasm/hex/main.go.
pub mod Digits
pub mod Correct
use asmgen.Base.{[], ◌∷◌}
use asmgen.Base.Int.{pos}
use asmgen.Base.Text.{codes, Bytes}
use asmgen.Wasm.{i32, v128}
use asmgen.Simd.Code.{Program, Code, close, ◌▸◌, block, br, br_if, loop, broadcast}
use asmgen.Simd.Code.Op.{
  i32_add, i32_const, i32_ge_s, i32_mul, i8x16_shr_u, i8x16_shuffle, i8x16_swizzle, local_get,
  local_set, v128_and, v128_const16, v128_load, v128_store,
}

abbrev pub lut : Bytes
lut = codes "0123456789abcdef"

abbrev pub low_mask : Bytes
low_mask = broadcast 15

abbrev pub shuffle_lo : Bytes
shuffle_lo = 0 ∷ 16 ∷ 1 ∷ 17 ∷ 2 ∷ 18 ∷ 3 ∷ 19 ∷ 4 ∷ 20 ∷ 5 ∷ 21 ∷ 6 ∷ 22 ∷ 7 ∷ 23 ∷ []

abbrev pub shuffle_hi : Bytes
shuffle_hi = 8 ∷ 24 ∷ 9 ∷ 25 ∷ 10 ∷ 26 ∷ 11 ∷ 27 ∷ 12 ∷ 28 ∷ 13 ∷ 29 ∷ 14 ∷ 30 ∷ 15 ∷ 31 ∷ []

abbrev pub loop_body : Code
loop_body =
    local_get (codes "i")
    ▸ local_get (codes "nBlocks")
    ▸ i32_ge_s
    ▸ br_if (codes "done") (
        local_get (codes "srcPtr")
        ▸ local_get (codes "i")
        ▸ i32_const (pos 16)
        ▸ i32_mul
        ▸ i32_add
        ▸ v128_load (pos 0)
        ▸ local_set (codes "bytes")
        ▸ local_get (codes "bytes")
        ▸ i32_const (pos 4)
        ▸ i8x16_shr_u
        ▸ v128_const16 low_mask
        ▸ v128_and
        ▸ local_set (codes "hi")
        ▸ local_get (codes "bytes")
        ▸ v128_const16 low_mask
        ▸ v128_and
        ▸ local_set (codes "lo")
        ▸ v128_const16 lut
        ▸ local_get (codes "hi")
        ▸ i8x16_swizzle
        ▸ local_set (codes "hiCh")
        ▸ v128_const16 lut
        ▸ local_get (codes "lo")
        ▸ i8x16_swizzle
        ▸ local_set (codes "loCh")
        ▸ local_get (codes "dstPtr")
        ▸ local_get (codes "i")
        ▸ i32_const (pos 32)
        ▸ i32_mul
        ▸ i32_add
        ▸ local_get (codes "hiCh")
        ▸ local_get (codes "loCh")
        ▸ i8x16_shuffle shuffle_lo
        ▸ v128_store (pos 0)
        ▸ local_get (codes "dstPtr")
        ▸ local_get (codes "i")
        ▸ i32_const (pos 32)
        ▸ i32_mul
        ▸ i32_add
        ▸ local_get (codes "hiCh")
        ▸ local_get (codes "loCh")
        ▸ i8x16_shuffle shuffle_hi
        ▸ v128_store (pos 16)
        ▸ local_get (codes "i")
        ▸ i32_const (pos 1)
        ▸ i32_add
        ▸ local_set (codes "i")
        ▸ br (codes "loop") close)

-- The calls on the function, from the first one behind its locals on.
abbrev pub kernel : Code
kernel =
    i32_const (pos 0)
    ▸ local_set (codes "i")
    ▸ block (codes "done") (loop (codes "loop") loop_body close) close

-- What `run` builds.
abbrev pub program : Program
program = record {
  name = codes "hex_encode";
  params =
      record { name = codes "dstPtr"; type = i32 }
      ∷ record { name = codes "srcPtr"; type = i32 }
      ∷ record { name = codes "nBlocks"; type = i32 }
      ∷ [];
  results = [];
  locals =
      record { name = codes "i"; type = i32 }
      ∷ record { name = codes "bytes"; type = v128 }
      ∷ record { name = codes "hi"; type = v128 }
      ∷ record { name = codes "lo"; type = v128 }
      ∷ record { name = codes "hiCh"; type = v128 }
      ∷ record { name = codes "loCh"; type = v128 }
      ∷ [];
  code = kernel;
}
