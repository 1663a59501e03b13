-- ===== src/Simd/Utf8len.antt =====
-- examples/wasm/utf8len/main.go.
pub mod Correct
use asmgen.Base.{[], ◌∷◌}
use asmgen.Base.Int.{pos}
use asmgen.Base.Text.{codes, Bytes}
use asmgen.Wasm.{i32}
use asmgen.Simd.Code.{Program, Code, close, ◌▸◌, block, br, br_if, loop, broadcast}
use asmgen.Simd.Code.Op.{
  i32_add, i32_const, i32_ge_s, i32_mul, i32_popcnt, i32_sub, i8x16_bitmask, i8x16_eq, local_get,
  local_set, v128_and, v128_const16, v128_load,
}

abbrev pub c_vec : Bytes
c_vec = broadcast 192

abbrev pub t_vec : Bytes
t_vec = broadcast 128

abbrev pub loop_body : Code
loop_body =
    local_get (codes "i")
    ▸ local_get (codes "nBlocks")
    ▸ i32_ge_s
    ▸ br_if (codes "done") (
        local_get (codes "srcPtr")
        ▸ local_get (codes "i")
        ▸ i32_const (pos 16)
        ▸ i32_mul
        ▸ i32_add
        ▸ v128_load (pos 0)
        ▸ v128_const16 c_vec
        ▸ v128_and
        ▸ v128_const16 t_vec
        ▸ i8x16_eq
        ▸ i8x16_bitmask
        ▸ i32_popcnt
        ▸ local_set (codes "cont")
        ▸ local_get (codes "count")
        ▸ i32_const (pos 16)
        ▸ i32_add
        ▸ local_get (codes "cont")
        ▸ i32_sub
        ▸ local_set (codes "count")
        ▸ local_get (codes "i")
        ▸ i32_const (pos 1)
        ▸ i32_add
        ▸ local_set (codes "i")
        ▸ br (codes "loop") close)

-- The calls on the function, from the first one behind its locals on.
abbrev pub kernel : Code
kernel =
    i32_const (pos 0)
    ▸ local_set (codes "count")
    ▸ i32_const (pos 0)
    ▸ local_set (codes "i")
    ▸ block (codes "done") (loop (codes "loop") loop_body close) (local_get (codes "count") ▸ close)

-- What `run` builds.
abbrev pub program : Program
program = record {
  name = codes "utf8len";
  params =
      record { name = codes "srcPtr"; type = i32 }
      ∷ record { name = codes "nBlocks"; type = i32 }
      ∷ [];
  results = i32 ∷ [];
  locals =
      record { name = codes "i"; type = i32 }
      ∷ record { name = codes "count"; type = i32 }
      ∷ record { name = codes "cont"; type = i32 }
      ∷ [];
  code = kernel;
}
