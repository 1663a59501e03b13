-- ===== src/Simd/Hex/Correct.antt =====
-- examples/wasm/hex/main.go: what the kernel stores.
use asmgen.Base.{
  ℕ, suc, ◌+◌, ◌*◌, ◌^◌, ◌<◌, ◌≡◌, refl, [], ◌∷◌, ◌++◌, arith, some, ap, ◌∙◌, sym, length,
}
use asmgen.Base.Text.{codes, Bytes}
use asmgen.Simd.Rounds.{loop_runs}
use asmgen.Simd.Stores.{Apart, stored, Stores, stored-Stores, write_bytes-append, bytes_at-stored}
use asmgen.Simd.Machine.{Memory, bytes_at, write_bytes, word, vec, State, branch, exec, call, left}
use asmgen.Simd.Blocks.{
  count, Holds, block_at, within, past, length-bytes_at, bytes_at-IsByte, address, loadable,
  advance, goes_on, leaves, first-step, address32, storable32, before,
}
use asmgen.Simd.Hex.{loop_body, program}
use asmgen.Simd.Hex.Digits.{
  hex_text, hi, lo, hi_ch, lo_ch, first_half, second_half, halves, pairs-append, length-pairs,
  hex_text-IsByte, high_digit, low_digit,
}

-- The memory before round i.
abbrev after : Memory → ℕ → ℕ → ℕ → Memory
after m dst src i = stored m dst (hex_text (bytes_at m src (16 * i)))

abbrev at : Memory → ℕ → ℕ → ℕ → ℕ → State
at m dst src n i = record {
  stack = [];
  locals =
      (codes "dstPtr", word dst)
      ∷ (codes "srcPtr", word src)
      ∷ (codes "nBlocks", word n)
      ∷ (codes "i", word i)
      ∷ (codes "bytes", vec (before (λ v. v) m src i))
      ∷ (codes "hi", vec (before hi m src i))
      ∷ (codes "lo", vec (before lo m src i))
      ∷ (codes "hiCh", vec (before hi_ch m src i))
      ∷ (codes "loCh", vec (before lo_ch m src i))
      ∷ [];
  memory = after m dst src i;
}

module _ (m : Memory) (dst src n : ℕ) (k : n < 2 ^ 32) (l : Holds m src (16 * count n))
    (l' : Holds m dst (32 * count n)) (apart : Apart src (16 * count n) dst (32 * count n)) where
  length-written : (i : ℕ) → length (hex_text (bytes_at m src (16 * i))) ≡ 32 * i
  length-written i = omega (
    arith,
    length-pairs high_digit low_digit (bytes_at m src (16 * i)),
    length-bytes_at m src (16 * i),
  )

  unread : (i : ℕ) → i < count n → block_at (after m dst src i) src i ≡ block_at m src i
  unread i h =
      bytes_at-stored m dst (hex_text (bytes_at m src (16 * i))) (src + 16 * i) 16
        (ground (arith, length-written i))

  written :
      (i : ℕ)
      → stored
          (stored (after m dst src i) (dst + 32 * i + 0) (first_half (block_at m src i)))
          (dst + 32 * i + 16)
          (second_half (block_at m src i))
        ≡ after m dst src (suc i)
  written i =
      let v = block_at m src i in
      let old = hex_text (bytes_at m src (16 * i)) in
      let e : dst + 32 * i + 0 ≡ dst + length old = omega (arith, length-written i) in
      let e' : dst + 32 * i + 16 ≡ dst + length old + 16 = omega (arith, length-written i) in
      let all : hex_text (bytes_at m src (16 * suc i)) ≡ old ++ (first_half v ++ second_half v) =
        ap hex_text (first-step m src i)
        ∙ (pairs-append high_digit low_digit (bytes_at m src (16 * i)) v
            ∙ ap (λ w. old ++ w) (sym (halves m (src + 16 * i)))) in
      ap (λ b. record { size = m.size; byte = b })
        (rw (e, e')
            (sym (
              write_bytes-append (write_bytes m.byte dst old) (dst + length old) (first_half v)
                (second_half v)))
          ∙ (sym (write_bytes-append m.byte dst old (first_half v ++ second_half v))
              ∙ ap (write_bytes m.byte dst) (sym all)))

  one_block :
      (i : ℕ)
      → i < count n
      → (f : ℕ)
      → exec f loop_body (at m dst src n i) ≡ branch (codes "loop") (at m dst src n (suc i))
  unfolding exec
  one_block i h f =
      goes_on _ (within i n h k)
      ∙ rw
          (
            address src i (count n) m.size h l.0 l.1,
            loadable src i (count n) m.size h l.0,
            unread i h,
            address32 dst i (count n) 0 m.size h l'.0 l'.1,
            storable32 dst i (count n) 0 m.size h l'.0 (omega arith),
            address32 dst i (count n) 16 m.size h l'.0 l'.1,
            storable32 dst i (count n) 16 m.size h l'.0 (omega arith),
            written i,
            advance i n h,
          )
          refl

  last_block :
      (f : ℕ)
      → exec f loop_body (at m dst src n (count n))
        ≡ branch (codes "done") (at m dst src n (count n))
  unfolding exec
  last_block f = leaves _ (past n k)

-- hex_encode(dst, src, n) stores the two hexadecimal digits of each byte of the n blocks of 16
-- from `src` on, one after the other, at `dst`, and changes no other byte, for an n below 2 ^ 32,
-- of which one that is negative as a signed integer counts as 0, given that the memory holds both,
-- that they do not meet, and that the loop may be started once more than there are blocks.
pub hex_encode_lem :
    (m : Memory) (dst src n f : ℕ)
    → n < 2 ^ 32
    → Holds m src (16 * count n)
    → Holds m dst (32 * count n)
    → Apart src (16 * count n) dst (32 * count n)
    → count n < f
    → (m' : Memory) × (left (call f program m (word dst ∷ word src ∷ word n ∷ [])) ≡ some m')
      × Stores m dst (hex_text (bytes_at m src (16 * count n))) m'
unfolding exec bytes_at write_bytes
hex_encode_lem m dst src n f k l l' apart h = (
  after m dst src (count n),
  rw
      (loop_runs (codes "loop") loop_body (at m dst src n) (count n)
        (λ i i_n. record {
          reached = at m dst src n (suc i);
          runs = one_block m dst src n k l l' apart i i_n;
          meets = λ again. refl;
        })
        _ (record { runs = last_block m dst src n k l l' apart; ends = λ again. refl }) f h)
      refl,
  stored-Stores m dst _ (hex_text-IsByte _ (bytes_at-IsByte m src (16 * count n))),
)

pub length-hex_text : (v : Bytes) → length (hex_text v) ≡ 2 * length v
length-hex_text v = length-pairs high_digit low_digit v
