-- ===== src/Simd/Indexany4/Correct.antt =====
-- examples/wasm/indexany4/main.go: what the kernel returns.
use asmgen.Base.{
  ℕ, zero, suc, ◌+◌, ◌*◌, ◌%◌, ◌^◌, ◌<◌, ◌≡◌, refl, Bool, true, false, [], ◌∷◌, arith, ◌==◌, Option,
  some, ap, ◌∙◌, length, bit_or, ◌||◌,
}
use asmgen.Base.Text.{codes, Bytes}
use asmgen.Base.Int.{negsuc}
use asmgen.Simd.Code.{close, ◌▸◌}
use asmgen.Simd.Code.Op.{i32_const}
use asmgen.Simd.Pointwise.{position, zip-repeat, zip-map, map_ext}
use asmgen.Simd.Marks.{mask-or, marked, missing, hitting}
use asmgen.Simd.Scan.{Searches, search_loop, index}
use asmgen.Simd.Machine.{
  Memory, bytes_at, Value, word, vec, State, branch, returned, Outcome, leave, and_then, exec, call,
  result,
}
use asmgen.Simd.Blocks.{
  count, Holds, block_at, within, past, length-bytes_at, address, loadable, advance, goes_on,
  leaves, place,
}
use asmgen.Simd.Lanes.{bitmask, zip, eq_lane, repeat, mask, trailing}
use asmgen.Simd.Indexany4.{loop_body, program}

-- The four ss.
pub record Needles : Type 0 where
  pub n1 : ℕ
  pub n2 : ℕ
  pub n3 : ℕ
  pub n4 : ℕ

abbrev pub is_needle : Needles → ℕ → Bool
is_needle s x = (((x == s.n1 % 256) || (x == s.n2 % 256)) || (x == s.n3 % 256)) || (x == s.n4 % 256)

abbrev key : ℕ → Bytes
key needle = repeat 16 (needle % 256)

abbrev either : Bytes → Bytes → Bytes
either a b = zip (λ x y. bit_or x y) a b

abbrev hits_of : Needles → Bytes → Bytes
hits_of s v =
    either
      (either (either (zip eq_lane v (key s.n1)) (zip eq_lane v (key s.n2)))
        (zip eq_lane v (key s.n3)))
      (zip eq_lane v (key s.n4))

abbrev mask_of : Needles → Bytes → ℕ
mask_of s v = bitmask (hits_of s v)

either-marked :
    (p q : ℕ → Bool) (v : Bytes) → either (marked p v) (marked q v) ≡ marked (λ x. p x || q x) v
either-marked p q v =
    zip-map (λ x y. bit_or x y) (λ x. mask (p x)) (λ x. mask (q x)) v
    ∙ map_ext (λ x. mask-or (p x) (q x)) v

hits_of-marked : (s : Needles) (v : Bytes) → length v ≡ 16 → hits_of s v ≡ marked (is_needle s) v
hits_of-marked s v h =
    rw
      (
        zip-repeat eq_lane v 16 (s.n1 % 256) h,
        zip-repeat eq_lane v 16 (s.n2 % 256) h,
        zip-repeat eq_lane v 16 (s.n3 % 256) h,
        zip-repeat eq_lane v 16 (s.n4 % 256) h,
        either-marked (λ x. x == s.n1 % 256) (λ x. x == s.n2 % 256) v,
        either-marked (λ x. (x == s.n1 % 256) || (x == s.n2 % 256)) (λ x. x == s.n3 % 256) v,
      )
      (either-marked (λ x. ((x == s.n1 % 256) || (x == s.n2 % 256)) || (x == s.n3 % 256))
        (λ x. x == s.n4 % 256) v)

-- What the locals `bytes` and `mask` hold before round i.
abbrev last_bytes : Memory → ℕ → ℕ → Bytes
last_bytes m src zero = repeat 16 0
last_bytes m src (suc i) = block_at m src i

abbrev last_mask : Memory → ℕ → Needles → ℕ → ℕ
last_mask m src s zero = 0
last_mask m src s (suc i) = mask_of s (block_at m src i)

abbrev holding : Memory → ℕ → ℕ → Needles → ℕ → Bytes → ℕ → State
holding m src n s i v mask = record {
  stack = [];
  locals =
      (codes "srcPtr", word src)
      ∷ (codes "nBlocks", word n)
      ∷ (codes "n1", word s.n1)
      ∷ (codes "n2", word s.n2)
      ∷ (codes "n3", word s.n3)
      ∷ (codes "n4", word s.n4)
      ∷ (codes "i", word i)
      ∷ (codes "bytes", vec v)
      ∷ (codes "k1", vec (key s.n1))
      ∷ (codes "k2", vec (key s.n2))
      ∷ (codes "k3", vec (key s.n3))
      ∷ (codes "k4", vec (key s.n4))
      ∷ (codes "mask", word mask)
      ∷ [];
  memory = m;
}

abbrev at : Memory → ℕ → ℕ → Needles → ℕ → State
at m src n s i = holding m src n s i (last_bytes m src i) (last_mask m src s i)

-- The state in which round i returns, with the bits of its mask.
abbrev found : Memory → ℕ → ℕ → Needles → ℕ → State
found m src n s i = record (holding m src n s i (block_at m src i) (mask_of s (block_at m src i))) {
  stack = word ((i * 16 % 2 ^ 32 + trailing 32 (mask_of s (block_at m src i))) % 2 ^ 32) ∷ [];
}

-- What the function gives back when its loop ends with `o`.
abbrev answer : ℕ → State → Outcome → Option Value
answer f s o =
    result (and_then (leave (codes "done") s o) (λ t. exec f (i32_const (negsuc 0) ▸ close) t))

module _ (m : Memory) (src n : ℕ) (s : Needles) (k : n < 2 ^ 32)
    (l : Holds m src (16 * count n)) where
  missed :
      (i : ℕ)
      → i < count n
      → (mask_of s (block_at m src i) == 0) ≡ true
      → (f : ℕ) → exec f loop_body (at m src n s i) ≡ branch (codes "loop") (at m src n s (suc i))
  unfolding exec
  missed i h e f =
      goes_on _ (within i n h k)
      ∙ rw
          (
            address src i (count n) m.size h l.0 l.1,
            loadable src i (count n) m.size h l.0,
            e,
            advance i n h,
          )
          refl

  hit :
      (i : ℕ)
      → i < count n
      → (mask_of s (block_at m src i) == 0) ≡ false
      → (f : ℕ) → exec f loop_body (at m src n s i) ≡ returned (found m src n s i)
  unfolding exec
  hit i h e f =
      goes_on _ (within i n h k)
      ∙ rw (address src i (count n) m.size h l.0 l.1, loadable src i (count n) m.size h l.0, e) refl

  last_block :
      (f : ℕ)
      → exec f loop_body (at m src n s (count n)) ≡ branch (codes "done") (at m src n s (count n))
  unfolding exec
  last_block f = leaves _ (past n k)

  marks : (i : ℕ) → mask_of s (block_at m src i) ≡ bitmask (marked (is_needle s) (block_at m src i))
  marks i = ap bitmask (hits_of-marked s (block_at m src i) (length-bytes_at m (src + 16 * i) 16))

  searches :
      (f i : ℕ)
      → i < count n
      → Searches
          (codes "loop")
          loop_body
          (at m src n s)
          (answer f (at m src n s 0))
          m
          src
          n
          (is_needle s)
          i
  unfolding exec
  searches f i h = record {
    misses = λ e. record {
      reached = at m src n s (suc i);
      runs = missed i h (missing (is_needle s) (block_at m src i) _ (marks i) e);
      meets = λ again. refl;
    };
    outcome = returned (found m src n s i);
    hits = λ j e.
        let facts =
          hitting (is_needle s) (block_at m src i) _ (marks i) j
            (omega (arith, length-bytes_at m (src + 16 * i) 16)) e in
        (
          record { runs = hit i h (ground (arith, facts.1)); ends = λ again. refl },
          ap (λ t. some (word t))
              (place src i (count n) j _ m.size h l.0 l.1 facts.0
                (omega (arith, facts.2, length-bytes_at m (src + 16 * i) 16))),
        );
  }

-- indexany4(src, n, n1, n2, n3, n4) gives back the place of the first byte that equals the low
-- byte of one of the four, counted from `src`, and -1 when none of the n blocks of 16 has one, for
-- an n below 2 ^ 32, of which one that is negative as a signed integer counts as 0, given that the
-- memory holds the blocks and that the loop may be started once more than there are blocks.
pub indexany4_lem :
    (m : Memory) (src n : ℕ) (s : Needles) (f : ℕ)
    → n < 2 ^ 32
    → Holds m src (16 * count n)
    → count n < f
    → result
        (call f program m (word src ∷ word n ∷ word s.n1 ∷ word s.n2 ∷ word s.n3 ∷ word s.n4 ∷ []))
      ≡ some (word (index 0 (position (is_needle s) (bytes_at m src (16 * count n)))))
unfolding exec
indexany4_lem m src n s f k l h =
    search_loop (codes "loop") loop_body (at m src n s) (answer f (at m src n s 0)) m src n
      (is_needle s) _ (record { runs = last_block m src n s k l; ends = λ again. refl }) refl
      (λ i i_n. searches m src n s k l f i i_n) f h
