-- ===== src/Simd/Memchr.antt =====
-- examples/wasm/memchr/main.go.
pub mod Correct
use asmgen.Base.{[], ◌∷◌}
use asmgen.Base.Int.{pos, negsuc}
use asmgen.Base.Text.{codes}
use asmgen.Wasm.{i32, v128}
use asmgen.Simd.Code.{Program, Code, close, ◌▸◌, block, br, br_if, loop, return}
use asmgen.Simd.Code.Op.{
  i32_add, i32_const, i32_ctz, i32_eqz, i32_ge_s, i32_mul, i8x16_bitmask, i8x16_eq, i8x16_splat,
  local_get, local_set, v128_load,
}

abbrev pub loop_body : Code
loop_body =
    local_get (codes "i")
    ▸ local_get (codes "nBlocks")
    ▸ i32_ge_s
    ▸ br_if (codes "done") (
        local_get (codes "srcPtr")
        ▸ local_get (codes "i")
        ▸ i32_const (pos 16)
        ▸ i32_mul
        ▸ i32_add
        ▸ v128_load (pos 0)
        ▸ local_get (codes "key")
        ▸ i8x16_eq
        ▸ i8x16_bitmask
        ▸ local_set (codes "mask")
        ▸ block (codes "notFound")
            (local_get (codes "mask")
              ▸ i32_eqz
              ▸ br_if (codes "notFound") (
                  local_get (codes "i")
                  ▸ i32_const (pos 16)
                  ▸ i32_mul
                  ▸ local_get (codes "mask")
                  ▸ i32_ctz
                  ▸ i32_add
                  ▸ return close))
            (local_get (codes "i")
              ▸ i32_const (pos 1)
              ▸ i32_add
              ▸ local_set (codes "i")
              ▸ br (codes "loop") close))

-- The calls on the function, from the first one behind its locals on.
abbrev pub kernel : Code
kernel =
    local_get (codes "needle")
    ▸ i8x16_splat
    ▸ local_set (codes "key")
    ▸ i32_const (pos 0)
    ▸ local_set (codes "i")
    ▸ block (codes "done") (loop (codes "loop") loop_body close) (i32_const (negsuc 0) ▸ close)

-- What `run` builds.
abbrev pub program : Program
program = record {
  name = codes "memchr";
  params =
      record { name = codes "srcPtr"; type = i32 }
      ∷ record { name = codes "nBlocks"; type = i32 }
      ∷ record { name = codes "needle"; type = i32 }
      ∷ [];
  results = i32 ∷ [];
  locals =
      record { name = codes "i"; type = i32 }
      ∷ record { name = codes "key"; type = v128 }
      ∷ record { name = codes "mask"; type = i32 }
      ∷ [];
  code = kernel;
}
