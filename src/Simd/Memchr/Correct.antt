-- ===== src/Simd/Memchr/Correct.antt =====
-- examples/wasm/memchr/main.go: what the kernel returns.
use asmgen.Base.{
  ℕ, zero, suc, ◌+◌, ◌*◌, ◌%◌, ◌^◌, ◌<◌, ◌≡◌, refl, Bool, true, false, [], ◌∷◌, arith, ◌==◌, Option,
  some, ap, ◌∙◌,
}
use asmgen.Base.Text.{codes, Bytes}
use asmgen.Base.Int.{negsuc}
use asmgen.Simd.Code.{close, ◌▸◌}
use asmgen.Simd.Code.Op.{i32_const}
use asmgen.Simd.Pointwise.{position, zip-repeat}
use asmgen.Simd.Marks.{marked, missing, hitting}
use asmgen.Simd.Scan.{Searches, search_loop, index}
use asmgen.Simd.Machine.{
  Memory, bytes_at, Value, word, vec, State, branch, returned, Outcome, leave, and_then, exec, call,
  result,
}
use asmgen.Simd.Blocks.{
  count, Holds, block_at, within, past, length-bytes_at, address, loadable, advance, goes_on,
  leaves, place,
}
use asmgen.Simd.Lanes.{bitmask, zip, eq_lane, repeat, trailing}
use asmgen.Simd.Memchr.{loop_body, program}

abbrev pub is_needle : ℕ → ℕ → Bool
is_needle needle x = x == needle % 256

abbrev mask_of : ℕ → Bytes → ℕ
mask_of needle v = bitmask (zip eq_lane v (repeat 16 (needle % 256)))

-- What the local `mask` holds before round i.
abbrev last_mask : Memory → ℕ → ℕ → ℕ → ℕ
last_mask m src needle zero = 0
last_mask m src needle (suc i) = mask_of needle (block_at m src i)

abbrev holding : Memory → ℕ → ℕ → ℕ → ℕ → ℕ → State
holding m src n needle i mask = record {
  stack = [];
  locals =
      (codes "srcPtr", word src)
      ∷ (codes "nBlocks", word n)
      ∷ (codes "needle", word needle)
      ∷ (codes "i", word i)
      ∷ (codes "key", vec (repeat 16 (needle % 256)))
      ∷ (codes "mask", word mask)
      ∷ [];
  memory = m;
}

abbrev at : Memory → ℕ → ℕ → ℕ → ℕ → State
at m src n needle i = holding m src n needle i (last_mask m src needle i)

-- The state in which round i returns, with the bits of its mask.
abbrev found : Memory → ℕ → ℕ → ℕ → ℕ → State
found m src n needle i = record (holding m src n needle i (mask_of needle (block_at m src i))) {
  stack = word ((i * 16 % 2 ^ 32 + trailing 32 (mask_of needle (block_at m src i))) % 2 ^ 32) ∷ [];
}

-- What the function gives back when its loop ends with `o`.
abbrev answer : ℕ → State → Outcome → Option Value
answer f s o =
    result (and_then (leave (codes "done") s o) (λ t. exec f (i32_const (negsuc 0) ▸ close) t))

module _ (m : Memory) (src n needle : ℕ) (k : n < 2 ^ 32) (l : Holds m src (16 * count n)) where
  missed :
      (i : ℕ)
      → i < count n
      → (mask_of needle (block_at m src i) == 0) ≡ true
      → (f : ℕ)
      → exec f loop_body (at m src n needle i) ≡ branch (codes "loop") (at m src n needle (suc i))
  unfolding exec
  missed i h e f =
      goes_on _ (within i n h k)
      ∙ rw
          (
            address src i (count n) m.size h l.0 l.1,
            loadable src i (count n) m.size h l.0,
            e,
            advance i n h,
          )
          refl

  hit :
      (i : ℕ)
      → i < count n
      → (mask_of needle (block_at m src i) == 0) ≡ false
      → (f : ℕ) → exec f loop_body (at m src n needle i) ≡ returned (found m src n needle i)
  unfolding exec
  hit i h e f =
      goes_on _ (within i n h k)
      ∙ rw (address src i (count n) m.size h l.0 l.1, loadable src i (count n) m.size h l.0, e) refl

  last_block :
      (f : ℕ)
      → exec f loop_body (at m src n needle (count n))
        ≡ branch (codes "done") (at m src n needle (count n))
  unfolding exec
  last_block f = leaves _ (past n k)

  marks :
      (i : ℕ)
      → mask_of needle (block_at m src i) ≡ bitmask (marked (is_needle needle) (block_at m src i))
  marks i = ap bitmask (
      zip-repeat eq_lane (block_at m src i) 16 (needle % 256) (length-bytes_at m (src + 16 * i) 16))

  searches :
      (f i : ℕ)
      → i < count n
      → Searches
          (codes "loop")
          loop_body
          (at m src n needle)
          (answer f (at m src n needle 0))
          m
          src
          n
          (is_needle needle)
          i
  unfolding exec
  searches f i h = record {
    misses = λ e. record {
      reached = at m src n needle (suc i);
      runs = missed i h (missing (is_needle needle) (block_at m src i) _ (marks i) e);
      meets = λ again. refl;
    };
    outcome = returned (found m src n needle i);
    hits = λ j e.
        let facts =
          hitting (is_needle needle) (block_at m src i) _ (marks i) j
            (omega (arith, length-bytes_at m (src + 16 * i) 16)) e in
        (
          record { runs = hit i h (ground (arith, facts.1)); ends = λ again. refl },
          ap (λ t. some (word t))
              (place src i (count n) j _ m.size h l.0 l.1 facts.0
                (omega (arith, facts.2, length-bytes_at m (src + 16 * i) 16))),
        );
  }

-- memchr(src, n, needle) gives back the place of the first byte that equals the low byte of
-- `needle`, counted from `src`, and -1 when none of the n blocks of 16 has it, for an n below 2 ^
-- 32, of which one that is negative as a signed integer counts as 0, given that the memory holds
-- the blocks and that the loop may be started once more than there are blocks.
pub memchr_lem :
    (m : Memory) (src n needle f : ℕ)
    → n < 2 ^ 32
    → Holds m src (16 * count n)
    → count n < f
    → result (call f program m (word src ∷ word n ∷ word needle ∷ []))
      ≡ some (word (index 0 (position (is_needle needle) (bytes_at m src (16 * count n)))))
unfolding exec
memchr_lem m src n needle f k l h =
    search_loop (codes "loop") loop_body (at m src n needle) (answer f (at m src n needle 0)) m src
      n (is_needle needle) _ (record { runs = last_block m src n needle k l; ends = λ again. refl })
      refl (λ i i_n. searches m src n needle k l f i i_n) f h
