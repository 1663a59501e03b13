-- ===== src/Simd/Popcount/Correct.antt =====
-- examples/wasm/popcount/main.go: what the kernel returns.
use asmgen.Base.{
  ℕ, zero, suc, ◌+◌, ◌*◌, ◌/◌, ◌%◌, ◌^◌, ◌<◌, ◌≤◌, ◌≡◌, refl, [], ◌∷◌, ◌++◌, arith, some, ap, ◌∙◌,
  sym, length, All, map,
}
use asmgen.Base.Text.{codes, Bytes}
use asmgen.Simd.Rounds.{loop_runs}
use asmgen.Simd.Machine.{Memory, bytes_at, word, vec, State, branch, exec, call, result}
use asmgen.Simd.Blocks.{
  count, Holds, block_at, within, past, address, loadable, advance, goes_on, leaves, first-step,
  before, length-bytes_at,
}
use asmgen.Simd.Lanes.{zip, ones, lanes32, bytes32, repeat}
use asmgen.Simd.Pointwise.{length-map}
use asmgen.Simd.Totals.{
  quarters, total, total-zip, length-zip, total-quarters, length-quarters, lanes32-bytes32,
  total-map_mod, four_lem,
}
use asmgen.Simd.Popcount.{loop_body, program}

-- The number of ones in all bytes.
abbrev pub ones_in : Bytes → ℕ
ones_in [] = 0
ones_in (x ∷ v) = ones 8 x + ones_in v

-- The four sums of a block.
abbrev sums : Bytes → Bytes
sums v = quarters (map (ones 8) v)

abbrev added : Bytes → Bytes → Bytes
added a b = bytes32 (zip (λ x y. x + y) (lanes32 a) (lanes32 b))

-- What the local `acc` holds before round i.
abbrev acc : Memory → ℕ → ℕ → Bytes
acc m src zero = repeat 16 0
acc m src (suc i) = added (acc m src i) (sums (block_at m src i))

abbrev at : Memory → ℕ → ℕ → ℕ → State
at m src n i = record {
  stack = [];
  locals =
      (codes "srcPtr", word src)
      ∷ (codes "nBlocks", word n)
      ∷ (codes "i", word i)
      ∷ (codes "acc", vec (acc m src i))
      ∷ (codes "bytes", vec (before (λ v. v) m src i))
      ∷ [];
  memory = m;
}

module _ (m : Memory) (src n : ℕ) (k : n < 2 ^ 32) (l : Holds m src (16 * count n)) where
  one_block :
      (i : ℕ)
      → i < count n
      → (f : ℕ) → exec f loop_body (at m src n i) ≡ branch (codes "loop") (at m src n (suc i))
  unfolding exec
  one_block i h f =
      goes_on _ (within i n h k)
      ∙ rw
          (
            address src i (count n) m.size h l.0 l.1,
            loadable src i (count n) m.size h l.0,
            advance i n h,
          )
          refl

  last_block :
      (f : ℕ)
      → exec f loop_body (at m src n (count n)) ≡ branch (codes "done") (at m src n (count n))
  unfolding exec
  last_block f = leaves _ (past n k)

ones-le : (n x : ℕ) → ones n x ≤ n
unfolding ones
ones-le zero x = omega arith
ones-le (suc n) x = omega (arith, ones-le n (x / 2))

small_ones : (v : Bytes) → All (λ x. x ≤ 255) (map (ones 8) v)
small_ones [] = tt
small_ones (x ∷ v) = (omega (arith, ones-le 8 x), small_ones v)

ones_in-append : (xs ys : Bytes) → ones_in (xs ++ ys) ≡ ones_in xs + ones_in ys
ones_in-append [] ys = omega arith
ones_in-append (x ∷ xs) ys = omega (arith, ones_in-append xs ys)

total-ones : (v : Bytes) → total (map (ones 8) v) ≡ ones_in v
total-ones [] = refl
total-ones (x ∷ v) = omega (arith, total-ones v)

module _ (m : Memory) (src : ℕ) where
  length-ones : (i : ℕ) → length (map (ones 8) (block_at m src i)) ≡ 16
  length-ones i = length-map (ones 8) (block_at m src i) ∙ length-bytes_at m (src + 16 * i) 16

  length-sums : (i : ℕ) → length (lanes32 (sums (block_at m src i))) ≡ 4
  length-sums i = length-quarters _ (length-ones i) (small_ones (block_at m src i))

  length-acc : (i : ℕ) → length (lanes32 (acc m src i)) ≡ 4
  unfolding lanes32 repeat
  length-acc zero = refl
  length-acc (suc i) =
      ap length (lanes32-bytes32 _)
      ∙ (length-map _ _
          ∙ (length-zip (λ x y. x + y) (lanes32 (acc m src i)) (lanes32 (sums (block_at m src i)))
                (length-acc i ∙ sym (length-sums i))
              ∙ length-acc i))

  total-acc :
      (i : ℕ) → total (lanes32 (acc m src i)) % 2 ^ 32 ≡ ones_in (bytes_at m src (16 * i)) % 2 ^ 32
  unfolding lanes32 repeat bytes_at
  total-acc zero = refl
  total-acc (suc i) =
      let v = block_at m src i in
      let sum = zip (λ x y. x + y) (lanes32 (acc m src i)) (lanes32 (sums v)) in
      let wrapped : total (lanes32 (acc m src (suc i))) % 2 ^ 32 ≡ total sum % 2 ^ 32 =
        ap (λ l. total l % 2 ^ 32) (lanes32-bytes32 sum) ∙ total-map_mod sum in
      omega (
        arith,
        wrapped,
        total-zip (lanes32 (acc m src i)) (lanes32 (sums v)) (length-acc i ∙ sym (length-sums i)),
        total-quarters (map (ones 8) v) (length-ones i) (small_ones v),
        total-ones v,
        ap ones_in (first-step m src i),
        ones_in-append (bytes_at m src (16 * i)) v,
        total-acc i,
      )

-- popcount(src, n) gives back the number of ones in the bits of the n blocks of 16 bytes from
-- `src` on, modulo 2 ^ 32, for an n below 2 ^ 32, of which one that is negative as a signed
-- integer counts as 0, given that the memory holds the blocks and that the loop may be started
-- once more than there are blocks.
pub popcount_lem :
    (m : Memory) (src n f : ℕ)
    → n < 2 ^ 32
    → Holds m src (16 * count n)
    → count n < f
    → result (call f program m (word src ∷ word n ∷ []))
      ≡ some (word (ones_in (bytes_at m src (16 * count n)) % 2 ^ 32))
unfolding exec
popcount_lem m src n f k l h =
    rw
      (loop_runs (codes "loop") loop_body (at m src n) (count n)
        (λ i i_n. record {
          reached = at m src n (suc i);
          runs = one_block m src n k l i i_n;
          meets = λ again. refl;
        })
        _ (record { runs = last_block m src n k l; ends = λ again. refl }) f h)
      (ap (λ t. some (word t))
        (four_lem (lanes32 (acc m src (count n))) (length-acc m src (count n))
          ∙ total-acc m src (count n)))
