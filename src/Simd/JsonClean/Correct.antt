-- ===== src/Simd/JsonClean/Correct.antt =====
-- examples/wasm/json_clean/main.go: what the kernel returns.
use asmgen.Base.{
  ℕ, zero, suc, ◌+◌, ◌*◌, ◌^◌, ◌<◌, ◌≡◌, refl, Bool, true, false, [], ◌∷◌, leb, not, ◌&&◌, map,
  length, All, ltb, ◌==◌, Option, some, bit_and, bit_or, ap₂, ◌∙◌,
}
use asmgen.Base.Text.{codes, Bytes}
use asmgen.Simd.Code.{close, ◌▸◌}
use asmgen.Simd.Code.Op.{i32_const}
use asmgen.Simd.Pointwise.{
  every, bitmask_zero, zip-repeat, zip-map, zip-broadcast, length-map, every-map, every-congr,
  map-map,
}
use asmgen.Simd.Scan.{Checks, check_loop}
use asmgen.Base.Int.{pos}
use asmgen.Simd.Machine.{
  truth, Memory, bytes_at, Value, word, vec, State, branch, returned, Outcome, leave, and_then,
  exec, call, result,
}
use asmgen.Simd.Blocks.{
  count, Holds, block_at, within, past, length-bytes_at, bytes_at-IsByte, address, loadable,
  advance, goes_on, leaves,
}
use asmgen.Simd.Lanes.{bitmask, zip, eq_lane, repeat}
use asmgen.Simd.JsonClean.{loop_body, program, quote_vec, slash_vec, hi3_vec}

-- A byte that may stand in a JSON string as it is.
abbrev pub is_plain : ℕ → Bool
is_plain x = not (x == b'"') && (not (x == 92) && leb 32 x)

-- The lanes that the kernel marks.
abbrev dirty : Bytes → Bytes
dirty v =
    zip (λ x y. bit_or x y)
      (zip (λ x y. bit_or x y) (zip eq_lane v quote_vec) (zip eq_lane v slash_vec))
      (zip eq_lane (zip (λ x y. bit_and x y) v hi3_vec) (repeat 16 0))

abbrev dirty_lane : ℕ → ℕ
dirty_lane x = bit_or (bit_or (eq_lane x b'"') (eq_lane x 92)) (eq_lane (bit_and x 224) 0)

zero_lanes :
    (v : Bytes)
    → length v ≡ 16
    → zip eq_lane (zip (λ x y. bit_and x y) v hi3_vec) (repeat 16 0)
      ≡ map (λ x. eq_lane (bit_and x 224) 0) v
zero_lanes v h = rw (zip-broadcast (λ x y. bit_and x y) v 224 h) (
    zip-repeat eq_lane (map (λ x. bit_and x 224) v) 16 0 (length-map _ v ∙ h)
    ∙ map-map (λ x. eq_lane x 0) (λ x. bit_and x 224) v)

dirty_lem : (v : Bytes) → length v ≡ 16 → dirty v ≡ map dirty_lane v
dirty_lem v h =
    ap₂ (zip (λ x y. bit_or x y))
      (ap₂ (zip (λ x y. bit_or x y)) (zip-broadcast eq_lane v b'"' h) (zip-broadcast eq_lane v 92 h)
        ∙ zip-map (λ x y. bit_or x y) (λ x. eq_lane x b'"') (λ x. eq_lane x 92) v)
      (zero_lanes v h)
    ∙ zip-map (λ x y. bit_or x y) (λ x. bit_or (eq_lane x b'"') (eq_lane x 92))
        (λ x. eq_lane (bit_and x 224) 0) v

bitmask-dirty :
    (v : Bytes) → length v ≡ 16 → All (λ x. x < 256) v → (bitmask (dirty v) == 0) ≡ every is_plain v
unfolding repeat
bitmask-dirty v h b =
    rw (dirty_lem v h, bitmask_zero (map dirty_lane v), every-map (λ x. ltb x 128) dirty_lane v)
      (every-congr (λ x. ltb (dirty_lane x) 128) is_plain v refl b)

-- What the local `bytes` holds before round i.
abbrev seen : Memory → ℕ → ℕ → Bytes
seen m src zero = repeat 16 0
seen m src (suc i) = block_at m src i

abbrev at : Memory → ℕ → ℕ → ℕ → State
at m src n i = record {
  stack = [];
  locals =
      (codes "srcPtr", word src)
      ∷ (codes "nBlocks", word n)
      ∷ (codes "i", word i)
      ∷ (codes "bytes", vec (seen m src i))
      ∷ [];
  memory = m;
}

-- Block i has been loaded.
abbrev loaded : Memory → ℕ → ℕ → ℕ → State
loaded m src n i = record (at m src n (suc i)) {
  locals =
      (codes "srcPtr", word src)
      ∷ (codes "nBlocks", word n)
      ∷ (codes "i", word i)
      ∷ (codes "bytes", vec (block_at m src i))
      ∷ [];
}

-- What the function gives back when its loop ends with `o`.
abbrev answer : ℕ → State → Outcome → Option Value
answer f s o =
    result (and_then (leave (codes "done") s o) (λ t. exec f (i32_const (pos 1) ▸ close) t))

module _ (m : Memory) (src n : ℕ) (k : n < 2 ^ 32) (l : Holds m src (16 * count n)) where
  clean_block :
      (i : ℕ)
      → i < count n
      → (bitmask (dirty (block_at m src i)) == 0) ≡ true
      → (f : ℕ) → exec f loop_body (at m src n i) ≡ branch (codes "loop") (at m src n (suc i))
  unfolding exec
  clean_block i h e f =
      goes_on _ (within i n h k)
      ∙ rw
          (
            address src i (count n) m.size h l.0 l.1,
            loadable src i (count n) m.size h l.0,
            e,
            advance i n h,
          )
          refl

  dirty_block :
      (i : ℕ)
      → i < count n
      → (bitmask (dirty (block_at m src i)) == 0) ≡ false
      → (f : ℕ)
      → exec f loop_body (at m src n i)
        ≡ returned (record (loaded m src n i) { stack = word 0 ∷ [] })
  unfolding exec
  dirty_block i h e f =
      goes_on _ (within i n h k)
      ∙ rw (address src i (count n) m.size h l.0 l.1, loadable src i (count n) m.size h l.0, e) refl

  last_block :
      (f : ℕ)
      → exec f loop_body (at m src n (count n)) ≡ branch (codes "done") (at m src n (count n))
  unfolding exec
  last_block f = leaves _ (past n k)

  plain : (i : ℕ) → (bitmask (dirty (block_at m src i)) == 0) ≡ every is_plain (block_at m src i)
  plain i =
      bitmask-dirty (block_at m src i) (length-bytes_at m (src + 16 * i) 16)
        (bytes_at-IsByte m (src + 16 * i) 16)

  checks :
      (f i : ℕ)
      → i < count n
      → Checks (codes "loop") loop_body (at m src n) (answer f (at m src n 0)) m src n is_plain i
  unfolding exec
  checks f i h = record {
    passes = λ e. record {
      reached = at m src n (suc i);
      runs = clean_block i h (plain i ∙ e);
      meets = λ again. refl;
    };
    outcome = returned (record (loaded m src n i) { stack = word 0 ∷ [] });
    fails = λ e. record { runs = dirty_block i h (plain i ∙ e); ends = λ again. refl };
    refuses = refl;
  }

-- json_clean(src, n) gives 1 back when every byte of the n blocks of 16 from `src` on may stand in
-- a JSON string as it is (no quote, no backslash and not below 0x20), and 0 otherwise, for an n
-- below 2 ^ 32, of which one that is negative as a signed integer counts as 0, given that the
-- memory holds the blocks and that the loop may be started once more than there are blocks.
pub json_clean_lem :
    (m : Memory) (src n f : ℕ)
    → n < 2 ^ 32
    → Holds m src (16 * count n)
    → count n < f
    → result (call f program m (word src ∷ word n ∷ []))
      ≡ some (word (truth (every is_plain (bytes_at m src (16 * count n)))))
unfolding exec
json_clean_lem m src n f k l h =
    check_loop (codes "loop") loop_body (at m src n) (answer f (at m src n 0)) m src n is_plain _
      (record { runs = last_block m src n k l; ends = λ again. refl }) refl
      (λ i i_n. checks m src n k l f i i_n) f h
