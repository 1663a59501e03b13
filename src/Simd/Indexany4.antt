-- ===== src/Simd/Indexany4.antt =====
-- examples/wasm/indexany4/main.go.
pub mod Correct
use asmgen.Base.{[], ◌∷◌}
use asmgen.Base.Int.{pos, negsuc}
use asmgen.Base.Text.{codes}
use asmgen.Wasm.{i32, v128}
use asmgen.Simd.Code.{Program, Code, close, ◌▸◌, block, br, br_if, loop, return}
use asmgen.Simd.Code.Op.{
  i32_add, i32_const, i32_ctz, i32_eqz, i32_ge_s, i32_mul, i8x16_bitmask, i8x16_eq, i8x16_splat,
  local_get, local_set, v128_load, v128_or,
}

abbrev pub loop_body : Code
loop_body =
    local_get (codes "i")
    ▸ local_get (codes "nBlocks")
    ▸ i32_ge_s
    ▸ br_if (codes "done") (
        local_get (codes "srcPtr")
        ▸ local_get (codes "i")
        ▸ i32_const (pos 16)
        ▸ i32_mul
        ▸ i32_add
        ▸ v128_load (pos 0)
        ▸ local_set (codes "bytes")
        ▸ local_get (codes "bytes")
        ▸ local_get (codes "k1")
        ▸ i8x16_eq
        ▸ local_get (codes "bytes")
        ▸ local_get (codes "k2")
        ▸ i8x16_eq
        ▸ v128_or
        ▸ local_get (codes "bytes")
        ▸ local_get (codes "k3")
        ▸ i8x16_eq
        ▸ v128_or
        ▸ local_get (codes "bytes")
        ▸ local_get (codes "k4")
        ▸ i8x16_eq
        ▸ v128_or
        ▸ i8x16_bitmask
        ▸ local_set (codes "mask")
        ▸ block (codes "notFound")
            (local_get (codes "mask")
              ▸ i32_eqz
              ▸ br_if (codes "notFound") (
                  local_get (codes "i")
                  ▸ i32_const (pos 16)
                  ▸ i32_mul
                  ▸ local_get (codes "mask")
                  ▸ i32_ctz
                  ▸ i32_add
                  ▸ return close))
            (local_get (codes "i")
              ▸ i32_const (pos 1)
              ▸ i32_add
              ▸ local_set (codes "i")
              ▸ br (codes "loop") close))

-- The calls on the function, from the first one behind its locals on.
abbrev pub kernel : Code
kernel =
    local_get (codes "n1")
    ▸ i8x16_splat
    ▸ local_set (codes "k1")
    ▸ local_get (codes "n2")
    ▸ i8x16_splat
    ▸ local_set (codes "k2")
    ▸ local_get (codes "n3")
    ▸ i8x16_splat
    ▸ local_set (codes "k3")
    ▸ local_get (codes "n4")
    ▸ i8x16_splat
    ▸ local_set (codes "k4")
    ▸ i32_const (pos 0)
    ▸ local_set (codes "i")
    ▸ block (codes "done") (loop (codes "loop") loop_body close) (i32_const (negsuc 0) ▸ close)

-- What `run` builds.
abbrev pub program : Program
program = record {
  name = codes "indexany4";
  params =
      record { name = codes "srcPtr"; type = i32 }
      ∷ record { name = codes "nBlocks"; type = i32 }
      ∷ record { name = codes "n1"; type = i32 }
      ∷ record { name = codes "n2"; type = i32 }
      ∷ record { name = codes "n3"; type = i32 }
      ∷ record { name = codes "n4"; type = i32 }
      ∷ [];
  results = i32 ∷ [];
  locals =
      record { name = codes "i"; type = i32 }
      ∷ record { name = codes "bytes"; type = v128 }
      ∷ record { name = codes "k1"; type = v128 }
      ∷ record { name = codes "k2"; type = v128 }
      ∷ record { name = codes "k3"; type = v128 }
      ∷ record { name = codes "k4"; type = v128 }
      ∷ record { name = codes "mask"; type = i32 }
      ∷ [];
  code = kernel;
}
