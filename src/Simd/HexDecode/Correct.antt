-- ===== src/Simd/HexDecode/Correct.antt =====
-- examples/wasm/hex_decode/main.go: what the kernel stores.
use asmgen.Base.{
  ℕ, suc, ◌+◌, ◌*◌, ◌^◌, ◌<◌, ◌≡◌, refl, [], ◌∷◌, ◌++◌, arith, some, ap, ◌∙◌, sym, length,
}
use asmgen.Base.Text.{codes}
use asmgen.Simd.Rounds.{loop_runs}
use asmgen.Simd.Stores.{Apart, stored, Stores, stored-Stores, write_bytes-append, bytes_at-stored}
use asmgen.Simd.Machine.{Memory, bytes_at, write_bytes, word, vec, State, branch, exec, call, left}
use asmgen.Simd.Blocks.{
  count, Holds, block_at, within, past, length-bytes_at, bytes_at-IsByte, address, loadable,
  advance, goes_on, leaves, first-step, address8, storable8, before,
}
use asmgen.Simd.Lanes.{take, drop}
use asmgen.Simd.HexDecode.{loop_body, program}
use asmgen.Simd.HexDecode.Digits.{
  nibble, unhex, digit, upper, lower, offset, nibbles, packed, paired-append, length-paired,
  unhex-IsByte, decoded,
}

-- The memory before round i.
abbrev after : Memory → ℕ → ℕ → ℕ → Memory
after m dst src i = stored m dst (unhex (bytes_at m src (16 * i)))

abbrev at : Memory → ℕ → ℕ → ℕ → ℕ → State
at m dst src n i = record {
  stack = [];
  locals =
      (codes "dstPtr", word dst)
      ∷ (codes "srcPtr", word src)
      ∷ (codes "nBlocks", word n)
      ∷ (codes "i", word i)
      ∷ (codes "chars", vec (before (λ v. v) m src i))
      ∷ (codes "digit", vec (before digit m src i))
      ∷ (codes "upper", vec (before upper m src i))
      ∷ (codes "lower", vec (before lower m src i))
      ∷ (codes "offset", vec (before offset m src i))
      ∷ (codes "nibbles", vec (before nibbles m src i))
      ∷ [];
  memory = after m dst src i;
}

module _ (m : Memory) (dst src n : ℕ) (k : n < 2 ^ 32) (l : Holds m src (16 * count n))
    (l' : Holds m dst (8 * count n)) (apart : Apart src (16 * count n) dst (8 * count n)) where
  length-written : (i : ℕ) → length (unhex (bytes_at m src (16 * i))) ≡ 8 * i
  length-written i =
      length-paired nibble (8 * i) (bytes_at m src (16 * i))
        (omega (arith, length-bytes_at m src (16 * i)))

  unread : (i : ℕ) → i < count n → block_at (after m dst src i) src i ≡ block_at m src i
  unread i h =
      bytes_at-stored m dst (unhex (bytes_at m src (16 * i))) (src + 16 * i) 16
        (ground (arith, length-written i))

  written :
      (i : ℕ)
      → stored
          (after m dst src i)
          (dst + 8 * i)
          (take 8 (drop (8 * 0) (packed (nibbles (block_at m src i)))))
        ≡ after m dst src (suc i)
  written i =
      let v = block_at m src i in
      let old = unhex (bytes_at m src (16 * i)) in
      let e : dst + 8 * i ≡ dst + length old = omega (arith, length-written i) in
      let all : unhex (bytes_at m src (16 * suc i)) ≡ old ++ unhex v =
        ap unhex (first-step m src i)
        ∙ paired-append nibble (8 * i) (bytes_at m src (16 * i)) v
            (omega (arith, length-bytes_at m src (16 * i))) in
      ap (λ b. record { size = m.size; byte = b })
        (rw (e, decoded m (src + 16 * i)) (sym (write_bytes-append m.byte dst old (unhex v)))
          ∙ ap (write_bytes m.byte dst) (sym all))

  one_block :
      (i : ℕ)
      → i < count n
      → (f : ℕ)
      → exec f loop_body (at m dst src n i) ≡ branch (codes "loop") (at m dst src n (suc i))
  unfolding exec
  one_block i h f =
      goes_on _ (within i n h k)
      ∙ rw
          (
            address src i (count n) m.size h l.0 l.1,
            loadable src i (count n) m.size h l.0,
            unread i h,
            address8 dst i (count n) m.size h l'.0 l'.1,
            storable8 dst i (count n) m.size h l'.0,
            written i,
            advance i n h,
          )
          refl

  last_block :
      (f : ℕ)
      → exec f loop_body (at m dst src n (count n))
        ≡ branch (codes "done") (at m dst src n (count n))
  unfolding exec
  last_block f = leaves _ (past n k)

-- hex_decode(dst, src, n) stores the byte that each two characters of the n blocks of 16 from
-- `src` on stand for, a digit of either case for its value and any other character for itself, at
-- `dst`, and changes no other byte, for an n below 2 ^ 32, of which one that is negative as a
-- signed integer counts as 0, given that the memory holds both, that they do not meet, and that
-- the loop may be started once more than there are blocks.
pub hex_decode_lem :
    (m : Memory) (dst src n f : ℕ)
    → n < 2 ^ 32
    → Holds m src (16 * count n)
    → Holds m dst (8 * count n)
    → Apart src (16 * count n) dst (8 * count n)
    → count n < f
    → (m' : Memory) × (left (call f program m (word dst ∷ word src ∷ word n ∷ [])) ≡ some m')
      × Stores m dst (unhex (bytes_at m src (16 * count n))) m'
unfolding exec bytes_at write_bytes
hex_decode_lem m dst src n f k l l' apart h = (
  after m dst src (count n),
  rw
      (loop_runs (codes "loop") loop_body (at m dst src n) (count n)
        (λ i i_n. record {
          reached = at m dst src n (suc i);
          runs = one_block m dst src n k l l' apart i i_n;
          meets = λ again. refl;
        })
        _ (record { runs = last_block m dst src n k l l' apart; ends = λ again. refl }) f h)
      refl,
  stored-Stores m dst _ (unhex-IsByte _ (bytes_at-IsByte m src (16 * count n))),
)
