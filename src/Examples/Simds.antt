-- ===== src/Examples/Simds.antt =====
-- The kernels of examples/wasm on small memories.
use asmgen.Base.{ℕ, ◌%◌, ◌≡◌, refl, arith, ◌∷◌, [], inl, inr, some}
use asmgen.Base.Text.{Bytes, codes, digit_char}
use asmgen.Simd.Machine.{Memory, bytes_at, word, call, result, left}
use asmgen.Simd.Lanes.{ones}
use asmgen.Simd.Stores.{Stores}
use asmgen.Simd.Typing.Programs.{Behaves, Suits, program-Behaves}
use asmgen.Base.Panics.{ok}
use asmgen.Wasm.{Function, function_string}
use asmgen.Wasm.Nesting.{depth}
use asmgen.Simd.Code.{build}
use asmgen.Simd.Code.Balanced.{program-Balanced}
use asmgen.Simd.Adler32
use asmgen.Simd.Adler32.Correct.{Sums, adler32_lem}
use asmgen.Simd.Isascii
use asmgen.Simd.Isascii.Correct.{isascii_lem}
use asmgen.Simd.JsonClean
use asmgen.Simd.JsonClean.Correct.{json_clean_lem}
use asmgen.Simd.Memchr
use asmgen.Simd.Memchr.Correct.{memchr_lem}
use asmgen.Simd.Indexany4
use asmgen.Simd.Indexany4.Correct.{indexany4_lem}
use asmgen.Simd.Utf8len
use asmgen.Simd.Utf8len.Correct.{utf8len_lem}
use asmgen.Simd.Popcount
use asmgen.Simd.Popcount.Correct.{popcount_lem}
use asmgen.Simd.Matchlen
use asmgen.Simd.Matchlen.Correct.{matchlen16_lem}
use asmgen.Simd.Toupper
use asmgen.Simd.Toupper.Correct.{toupper_lem}
use asmgen.Simd.Hex
use asmgen.Simd.Hex.Correct.{hex_encode_lem}
use asmgen.Simd.HexDecode
use asmgen.Simd.HexDecode.Correct.{hex_decode_lem}
use asmgen.Simd.HexDecode.Roundtrip.{hex_roundtrip}

-- Address k holds k.
abbrev counting : Memory
counting = record { size = 256; byte = λ k. k }

isascii_lem_example :
    result (call 3 Isascii.program counting (word 100 ∷ word 2 ∷ [])) ≡ some (word 0)
unfolding bytes_at
isascii_lem_example =
    isascii_lem counting 100 2 3 (omega arith) (omega arith, omega arith) (omega arith)

json_clean_lem_example :
    result (call 3 JsonClean.program counting (word 35 ∷ word 2 ∷ [])) ≡ some (word 1)
unfolding bytes_at
json_clean_lem_example =
    json_clean_lem counting 35 2 3 (omega arith) (omega arith, omega arith) (omega arith)

memchr_lem_example :
    result (call 3 Memchr.program counting (word 32 ∷ word 2 ∷ word 60 ∷ [])) ≡ some (word 28)
unfolding bytes_at
memchr_lem_example =
    memchr_lem counting 32 2 60 3 (omega arith) (omega arith, omega arith) (omega arith)

indexany4_lem_example :
    result (
      call 3 Indexany4.program counting
        (word 32 ∷ word 2 ∷ word 10 ∷ word 59 ∷ word 60 ∷ word 61 ∷ []))
    ≡ some (word 27)
unfolding bytes_at
indexany4_lem_example =
    indexany4_lem counting 32 2 (record { n1 = 10; n2 = 59; n3 = 60; n4 = 61 }) 3 (omega arith)
      (omega arith, omega arith) (omega arith)

utf8len_lem_example :
    result (call 3 Utf8len.program counting (word 120 ∷ word 2 ∷ [])) ≡ some (word 8)
unfolding bytes_at
utf8len_lem_example =
    utf8len_lem counting 120 2 3 (omega arith) (omega arith, omega arith) (omega arith)

popcount_lem_example :
    result (call 3 Popcount.program counting (word 0 ∷ word 2 ∷ [])) ≡ some (word 80)
unfolding bytes_at ones
popcount_lem_example =
    popcount_lem counting 0 2 3 (omega arith) (omega arith, omega arith) (omega arith)

-- Address k holds k modulo 40.
abbrev forty : Memory
forty = record { size = 256; byte = λ k. k % 40 }

matchlen16_lem_example :
    result (call 61 Matchlen.program forty (word 20 ∷ word 60 ∷ word 60 ∷ [])) ≡ some (word 60)
unfolding bytes_at
matchlen16_lem_example =
    matchlen16_lem (record { memory = forty; a = 20; b = 60; limit = 60 }) 61
      (record {
        first = (omega arith, omega arith);
        second = (omega arith, omega arith);
        below = omega arith;
        word32 = omega arith;
      })
      (omega arith)

toupper_lem_example :
    (m' : Memory) × (left (call 2 Toupper.program counting (word 200 ∷ word 100 ∷ word 1 ∷ []))
      ≡ some m')
    × Stores counting 200 (codes "DEFGHIJKLMNOPQRS") m'
unfolding bytes_at
toupper_lem_example =
    toupper_lem counting 200 100 1 2 (omega arith) (omega arith, omega arith)
      (omega arith, omega arith) (inr (omega arith)) (omega arith)

hex_encode_lem_example :
    (m' : Memory) × (left (call 2 Hex.program counting (word 200 ∷ word 160 ∷ word 1 ∷ []))
      ≡ some m')
    × Stores counting 200 (codes "a0a1a2a3a4a5a6a7a8a9aaabacadaeaf") m'
unfolding bytes_at digit_char
hex_encode_lem_example =
    hex_encode_lem counting 200 160 1 2 (omega arith) (omega arith, omega arith)
      (omega arith, omega arith) (inl (omega arith)) (omega arith)

abbrev text : Bytes
text = codes "00fF10Ea00000001"

abbrev letter : Bytes → ℕ → ℕ
letter [] k = 0
letter (x ∷ v) k = elim k [ ℕ.zero ↦ x | ℕ.suc j ↦ letter v j ]

abbrev written : Memory
written = record { size = 64; byte = letter text }

hex_decode_lem_example :
    (m' : Memory) × (left (call 2 HexDecode.program written (word 32 ∷ word 0 ∷ word 1 ∷ []))
      ≡ some m')
    × Stores written 32 (0 ∷ 255 ∷ 16 ∷ 234 ∷ 0 ∷ 0 ∷ 0 ∷ 1 ∷ []) m'
unfolding bytes_at
hex_decode_lem_example =
    hex_decode_lem written 32 0 1 2 (omega arith) (omega arith, omega arith)
      (omega arith, omega arith) (inl (omega arith)) (omega arith)

hex_roundtrip_example :
    (m' : Memory) × (m'' : Memory) × (left
        (call 3 Hex.program counting (word 100 ∷ word 10 ∷ word 1 ∷ []))
      ≡ some m')
    × (left (call 3 HexDecode.program m' (word 200 ∷ word 100 ∷ word 2 ∷ [])) ≡ some m'')
    × (bytes_at m'' 200 16 ≡ bytes_at counting 10 16)
hex_roundtrip_example =
    hex_roundtrip counting 100 10 200 1 3 (omega arith) (omega arith, omega arith)
      (omega arith, omega arith) (omega arith, omega arith) (inl (omega arith)) (inl (omega arith))
      (omega arith)

program-Behaves_example :
    Behaves [] (call 9 Hex.program counting (word 200 ∷ word 160 ∷ word 1 ∷ []))
unfolding Suits
program-Behaves_example =
    program-Behaves 3 Hex.program 9 counting (word 200 ∷ word 160 ∷ word 1 ∷ []) refl
      (refl, (refl, (refl, tt)))

adler32_lem_example :
    (m' : Memory) × (left (
        call 2 Adler32.program counting
          (word 100 ∷ word 1 ∷ word 1 ∷ word 0 ∷ word 4 ∷ word 8 ∷ []))
      ≡ some m')
    × Sums counting
        (record { src = 100; blocks = 1; a_init = 1; b_init = 0; a_out = 4; b_out = 8 })
        m'
adler32_lem_example =
    adler32_lem counting
      (record { src = 100; blocks = 1; a_init = 1; b_init = 0; a_out = 4; b_out = 8 }) 2
      (omega arith) (omega arith) (omega arith) (omega arith, omega arith)
      (omega arith, omega arith) (omega arith, omega arith) (inl (omega arith)) (omega arith)

program-Balanced_example :
    (f : Function) × (build Isascii.program ≡ ok f) × (depth 0 (function_string f) ≡ some 0)
program-Balanced_example = program-Balanced 6 Isascii.program refl
