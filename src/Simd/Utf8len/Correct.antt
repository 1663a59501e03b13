-- ===== src/Simd/Utf8len/Correct.antt =====
-- examples/wasm/utf8len/main.go: what the kernel returns.
use asmgen.Base.{
  ℕ, zero, suc, ◌+◌, ◌-◌, ◌*◌, ◌%◌, ◌^◌, ◌<◌, ◌≡◌, refl, Bool, [], ◌∷◌, arith, some, ap, ◌∙◌,
  length, All, bit_and, not, leb, ltb, ◌&&◌,
}
use asmgen.Base.Text.{codes, Bytes}
use asmgen.Simd.Pointwise.{zip-broadcast, map-map, map-congr, length-map}
use asmgen.Simd.Marks.{marked, tally, tally-not, tally-append, ones-marked}
use asmgen.Simd.Rounds.{loop_runs}
use asmgen.Simd.Machine.{Memory, bytes_at, word, State, branch, exec, call, result}
use asmgen.Simd.Blocks.{
  count, Holds, block_at, within, past, length-bytes_at, bytes_at-IsByte, address, loadable,
  advance, goes_on, leaves, first-step,
}
use asmgen.Simd.Lanes.{bitmask, zip, eq_lane, mask, ones}
use asmgen.Simd.Utf8len.{loop_body, program, c_vec, t_vec}

-- A byte that is not the first of an encoded character: 10xxxxxx.
abbrev pub is_continuation : ℕ → Bool
is_continuation x = leb 128 x && ltb x 192

abbrev pub starts : ℕ → Bool
starts x = not (is_continuation x)

abbrev continuations : Bytes → ℕ
continuations v = ones 32 (bitmask (zip eq_lane (zip (λ x y. bit_and x y) v c_vec) t_vec))

continuations_lem :
    (v : Bytes) → length v ≡ 16 → All (λ x. x < 256) v → continuations v ≡ tally is_continuation v
continuations_lem v h b =
    let lanes : zip eq_lane (zip (λ x y. bit_and x y) v c_vec) t_vec ≡ marked is_continuation v =
      rw (zip-broadcast (λ x y. bit_and x y) v 192 h) (
        zip-broadcast eq_lane _ 128 (length-map _ v ∙ h)
        ∙ (map-map (λ x. eq_lane x 128) (λ x. bit_and x 192) v
            ∙ map-congr (λ x. eq_lane (bit_and x 192) 128) (λ x. mask (is_continuation x)) v refl
                b)) in
    ap (λ w. ones 32 (bitmask w)) lanes ∙ ones-marked is_continuation v 32 (omega arith)

-- What the local `count` holds before round i.
abbrev counted : Memory → ℕ → ℕ → ℕ
counted m src i = tally starts (bytes_at m src (16 * i)) % 2 ^ 32

abbrev last_cont : Memory → ℕ → ℕ → ℕ
last_cont m src zero = 0
last_cont m src (suc i) = continuations (block_at m src i)

abbrev at : Memory → ℕ → ℕ → ℕ → State
at m src n i = record {
  stack = [];
  locals =
      (codes "srcPtr", word src)
      ∷ (codes "nBlocks", word n)
      ∷ (codes "i", word i)
      ∷ (codes "count", word (counted m src i))
      ∷ (codes "cont", word (last_cont m src i))
      ∷ [];
  memory = m;
}

more :
    (m : Memory) (src i : ℕ)
    → ((counted m src i + 16) % 2 ^ 32 + 2 ^ 32 - continuations (block_at m src i)) % 2 ^ 32
      ≡ counted m src (suc i)
more m src i =
    let v = block_at m src i in
    let len : length v ≡ 16 = length-bytes_at m (src + 16 * i) 16 in
    let split : tally starts (bytes_at m src (16 * suc i))
        ≡ tally starts (bytes_at m src (16 * i)) + tally starts v =
      ap (tally starts) (first-step m src i) ∙ tally-append starts (bytes_at m src (16 * i)) v in
    omega (
      arith,
      split,
      len,
      tally-not is_continuation v,
      continuations_lem v len (bytes_at-IsByte m (src + 16 * i) 16),
    )

module _ (m : Memory) (src n : ℕ) (k : n < 2 ^ 32) (l : Holds m src (16 * count n)) where
  counted_block :
      (i : ℕ)
      → i < count n
      → (f : ℕ) → exec f loop_body (at m src n i) ≡ branch (codes "loop") (at m src n (suc i))
  unfolding exec
  counted_block i h f =
      goes_on _ (within i n h k)
      ∙ rw
          (
            address src i (count n) m.size h l.0 l.1,
            loadable src i (count n) m.size h l.0,
            more m src i,
            advance i n h,
          )
          refl

  last_block :
      (f : ℕ)
      → exec f loop_body (at m src n (count n)) ≡ branch (codes "done") (at m src n (count n))
  unfolding exec
  last_block f = leaves _ (past n k)

-- utf8len(src, n) gives back how many bytes of the n blocks of 16 from `src` on are not of the
-- form 10xxxxxx, modulo 2 ^ 32, for an n below 2 ^ 32, of which one that is negative as a signed
-- integer counts as 0, given that the memory holds the blocks and that the loop may be started
-- once more than there are blocks.
pub utf8len_lem :
    (m : Memory) (src n f : ℕ)
    → n < 2 ^ 32
    → Holds m src (16 * count n)
    → count n < f
    → result (call f program m (word src ∷ word n ∷ []))
      ≡ some (word (tally starts (bytes_at m src (16 * count n)) % 2 ^ 32))
unfolding exec bytes_at
utf8len_lem m src n f k l h =
    rw
      (loop_runs (codes "loop") loop_body (at m src n) (count n)
        (λ i i_n. record {
          reached = at m src n (suc i);
          runs = counted_block m src n k l i i_n;
          meets = λ again. refl;
        })
        _ (record { runs = last_block m src n k l; ends = λ again. refl }) f h)
      refl
