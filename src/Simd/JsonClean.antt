-- ===== src/Simd/JsonClean.antt =====
-- examples/wasm/json_clean/main.go.
pub mod Correct
use asmgen.Base.{[], ◌∷◌}
use asmgen.Base.Int.{pos}
use asmgen.Base.Text.{codes, Bytes}
use asmgen.Wasm.{i32, v128}
use asmgen.Simd.Code.{Program, Code, close, ◌▸◌, block, br, br_if, loop, return, broadcast}
use asmgen.Simd.Code.Op.{
  i32_add, i32_const, i32_eqz, i32_ge_s, i32_mul, i8x16_bitmask, i8x16_eq, local_get, local_set,
  v128_and, v128_const16, v128_load, v128_or, v128_zero,
}

abbrev pub quote_vec : Bytes
quote_vec = broadcast 34

abbrev pub slash_vec : Bytes
slash_vec = broadcast 92

abbrev pub hi3_vec : Bytes
hi3_vec = broadcast 224

abbrev pub loop_body : Code
loop_body =
    local_get (codes "i")
    ▸ local_get (codes "nBlocks")
    ▸ i32_ge_s
    ▸ br_if (codes "done") (
        local_get (codes "srcPtr")
        ▸ local_get (codes "i")
        ▸ i32_const (pos 16)
        ▸ i32_mul
        ▸ i32_add
        ▸ v128_load (pos 0)
        ▸ local_set (codes "bytes")
        ▸ block (codes "notClean")
            (local_get (codes "bytes")
              ▸ v128_const16 quote_vec
              ▸ i8x16_eq
              ▸ local_get (codes "bytes")
              ▸ v128_const16 slash_vec
              ▸ i8x16_eq
              ▸ v128_or
              ▸ local_get (codes "bytes")
              ▸ v128_const16 hi3_vec
              ▸ v128_and
              ▸ v128_zero
              ▸ i8x16_eq
              ▸ v128_or
              ▸ i8x16_bitmask
              ▸ i32_eqz
              ▸ br_if (codes "notClean") (i32_const (pos 0) ▸ return close))
            (local_get (codes "i")
              ▸ i32_const (pos 1)
              ▸ i32_add
              ▸ local_set (codes "i")
              ▸ br (codes "loop") close))

-- The calls on the function, from the first one behind its locals on.
abbrev pub kernel : Code
kernel =
    i32_const (pos 0)
    ▸ local_set (codes "i")
    ▸ block (codes "done") (loop (codes "loop") loop_body close) (i32_const (pos 1) ▸ close)

-- What `run` builds.
abbrev pub program : Program
program = record {
  name = codes "json_clean";
  params =
      record { name = codes "srcPtr"; type = i32 }
      ∷ record { name = codes "nBlocks"; type = i32 }
      ∷ [];
  results = i32 ∷ [];
  locals =
      record { name = codes "i"; type = i32 } ∷ record { name = codes "bytes"; type = v128 } ∷ [];
  code = kernel;
}
