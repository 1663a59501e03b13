-- ===== src/Simd/Matchlen.antt =====
-- examples/wasm/matchlen/main.go.
pub mod Chunks
pub mod Correct
use asmgen.Base.{[], ◌∷◌}
use asmgen.Base.Int.{pos}
use asmgen.Base.Text.{codes}
use asmgen.Wasm.{i32, v128}
use asmgen.Simd.Code.{Program, Code, close, ◌▸◌, block, br, br_if, loop}
use asmgen.Simd.Code.Op.{
  i32_add, i32_const, i32_eqz, i32_ge_s, i32_gt_s, i32_load8_u, i32_ne, i8x16_all_true, i8x16_eq,
  local_get, local_set, v128_load,
}

abbrev pub byte_body : Code
byte_body =
    local_get (codes "matched")
    ▸ local_get (codes "limit")
    ▸ i32_ge_s
    ▸ br_if (codes "byte_done") (
        local_get (codes "ptrA")
        ▸ local_get (codes "matched")
        ▸ i32_add
        ▸ i32_load8_u
        ▸ local_get (codes "ptrB")
        ▸ local_get (codes "matched")
        ▸ i32_add
        ▸ i32_load8_u
        ▸ i32_ne
        ▸ br_if (codes "byte_done") (
            local_get (codes "matched")
            ▸ i32_const (pos 1)
            ▸ i32_add
            ▸ local_set (codes "matched")
            ▸ br (codes "byte_loop") close))

abbrev pub chunk_body : Code
chunk_body =
    local_get (codes "i")
    ▸ i32_const (pos 16)
    ▸ i32_add
    ▸ local_get (codes "limit")
    ▸ i32_gt_s
    ▸ br_if (codes "chunk_done") (
        local_get (codes "ptrA")
        ▸ local_get (codes "i")
        ▸ i32_add
        ▸ v128_load (pos 0)
        ▸ local_get (codes "ptrB")
        ▸ local_get (codes "i")
        ▸ i32_add
        ▸ v128_load (pos 0)
        ▸ i8x16_eq
        ▸ local_set (codes "eq")
        ▸ local_get (codes "eq")
        ▸ i8x16_all_true
        ▸ i32_eqz
        ▸ br_if (codes "chunk_done") (
            local_get (codes "matched")
            ▸ i32_const (pos 16)
            ▸ i32_add
            ▸ local_set (codes "matched")
            ▸ local_get (codes "i")
            ▸ i32_const (pos 16)
            ▸ i32_add
            ▸ local_set (codes "i")
            ▸ br (codes "chunk_loop") close))

-- The calls on the function, from the first one behind its locals on.
abbrev pub kernel : Code
kernel =
    i32_const (pos 0)
    ▸ local_set (codes "matched")
    ▸ i32_const (pos 0)
    ▸ local_set (codes "i")
    ▸ block (codes "chunk_done") (loop (codes "chunk_loop") chunk_body close) (
        block (codes "byte_done") (loop (codes "byte_loop") byte_body close)
          (local_get (codes "matched") ▸ close))

-- What `run` builds.
abbrev pub program : Program
program = record {
  name = codes "matchlen16";
  params =
      record { name = codes "ptrA"; type = i32 }
      ∷ record { name = codes "ptrB"; type = i32 }
      ∷ record { name = codes "limit"; type = i32 }
      ∷ [];
  results = i32 ∷ [];
  locals =
      record { name = codes "i"; type = i32 }
      ∷ record { name = codes "matched"; type = i32 }
      ∷ record { name = codes "eq"; type = v128 }
      ∷ [];
  code = kernel;
}
