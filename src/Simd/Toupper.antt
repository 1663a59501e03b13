-- ===== src/Simd/Toupper.antt =====
-- examples/wasm/toupper/main.go.
pub mod Correct
use asmgen.Base.{[], ◌∷◌}
use asmgen.Base.Int.{pos}
use asmgen.Base.Text.{codes, Bytes}
use asmgen.Wasm.{i32, v128}
use asmgen.Simd.Code.{Program, Code, close, ◌▸◌, block, br, br_if, loop, broadcast}
use asmgen.Simd.Code.Op.{
  i32_add, i32_const, i32_ge_s, i32_mul, i8x16_ge_s, i8x16_le_s, i8x16_sub, local_get, local_set,
  v128_and, v128_const16, v128_load, v128_store,
}

abbrev pub a_vec : Bytes
a_vec = broadcast b'a'

abbrev pub z_vec : Bytes
z_vec = broadcast b'z'

abbrev pub d_vec : Bytes
d_vec = broadcast 32

abbrev pub loop_body : Code
loop_body =
    local_get (codes "i")
    ▸ local_get (codes "nBlocks")
    ▸ i32_ge_s
    ▸ br_if (codes "done") (
        local_get (codes "srcPtr")
        ▸ local_get (codes "i")
        ▸ i32_const (pos 16)
        ▸ i32_mul
        ▸ i32_add
        ▸ v128_load (pos 0)
        ▸ local_set (codes "bytes")
        ▸ local_get (codes "bytes")
        ▸ v128_const16 a_vec
        ▸ i8x16_ge_s
        ▸ local_get (codes "bytes")
        ▸ v128_const16 z_vec
        ▸ i8x16_le_s
        ▸ v128_and
        ▸ local_set (codes "mask")
        ▸ local_get (codes "dstPtr")
        ▸ local_get (codes "i")
        ▸ i32_const (pos 16)
        ▸ i32_mul
        ▸ i32_add
        ▸ local_get (codes "bytes")
        ▸ local_get (codes "mask")
        ▸ v128_const16 d_vec
        ▸ v128_and
        ▸ i8x16_sub
        ▸ v128_store (pos 0)
        ▸ local_get (codes "i")
        ▸ i32_const (pos 1)
        ▸ i32_add
        ▸ local_set (codes "i")
        ▸ br (codes "loop") close)

-- The calls on the function, from the first one behind its locals on.
abbrev pub kernel : Code
kernel =
    i32_const (pos 0)
    ▸ local_set (codes "i")
    ▸ block (codes "done") (loop (codes "loop") loop_body close) close

-- What `run` builds.
abbrev pub program : Program
program = record {
  name = codes "toupper";
  params =
      record { name = codes "dstPtr"; type = i32 }
      ∷ record { name = codes "srcPtr"; type = i32 }
      ∷ record { name = codes "nBlocks"; type = i32 }
      ∷ [];
  results = [];
  locals =
      record { name = codes "i"; type = i32 }
      ∷ record { name = codes "bytes"; type = v128 }
      ∷ record { name = codes "mask"; type = v128 }
      ∷ [];
  code = kernel;
}
