-- ===== src/Simd/Isascii/Correct.antt =====
-- examples/wasm/isascii/main.go: what the kernel returns.
use asmgen.Base.{
  ℕ, suc, ◌*◌, ◌^◌, ◌<◌, ◌≡◌, refl, Bool, true, false, [], ◌∷◌, ltb, ◌==◌, Option, some, ◌∙◌,
}
use asmgen.Base.Text.{codes}
use asmgen.Simd.Code.{close, ◌▸◌}
use asmgen.Simd.Code.Op.{i32_const}
use asmgen.Simd.Pointwise.{every, bitmask_zero}
use asmgen.Simd.Scan.{Checks, check_loop}
use asmgen.Base.Int.{pos}
use asmgen.Simd.Machine.{
  truth, Memory, bytes_at, Value, word, State, branch, returned, Outcome, leave, and_then, exec,
  call, result,
}
use asmgen.Simd.Blocks.{
  count, Holds, block_at, within, past, address, loadable, advance, goes_on, leaves,
}
use asmgen.Simd.Lanes.{bitmask}
use asmgen.Simd.Isascii.{loop_body, program}

abbrev at : Memory → ℕ → ℕ → ℕ → State
at m src n i = record {
  stack = [];
  locals = (codes "srcPtr", word src) ∷ (codes "nBlocks", word n) ∷ (codes "i", word i) ∷ [];
  memory = m;
}

abbrev mask_at : Memory → ℕ → ℕ → ℕ
mask_at m src i = bitmask (block_at m src i)

clean_block :
    (m : Memory) (src n i : ℕ)
    → i < count n
    → n < 2 ^ 32
    → Holds m src (16 * count n)
    → (mask_at m src i == 0) ≡ true
    → (f : ℕ) → exec f loop_body (at m src n i) ≡ branch (codes "loop") (at m src n (suc i))
unfolding exec
clean_block m src n i h k (l, l') e f =
    goes_on _ (within i n h k)
    ∙ rw
        (
          address src i (count n) m.size h l l',
          loadable src i (count n) m.size h l,
          e,
          advance i n h,
        )
        refl

abbrev refused : Memory → ℕ → ℕ → ℕ → State
refused m src n i = record (at m src n i) { stack = word 0 ∷ [] }

dirty_block :
    (m : Memory) (src n i : ℕ)
    → i < count n
    → n < 2 ^ 32
    → Holds m src (16 * count n)
    → (mask_at m src i == 0) ≡ false
    → (f : ℕ) → exec f loop_body (at m src n i) ≡ returned (refused m src n i)
unfolding exec
dirty_block m src n i h k (l, l') e f =
    goes_on _ (within i n h k)
    ∙ rw (address src i (count n) m.size h l l', loadable src i (count n) m.size h l, e) refl

last_block :
    (m : Memory) (src n : ℕ)
    → n < 2 ^ 32
    → (f : ℕ)
    → exec f loop_body (at m src n (count n)) ≡ branch (codes "done") (at m src n (count n))
unfolding exec
last_block m src n k f = leaves _ (past n k)

abbrev pub is_ascii : ℕ → Bool
is_ascii x = ltb x 128

-- What the function gives back when its loop ends with `o`.
abbrev answer : ℕ → State → Outcome → Option Value
answer f s o =
    result (and_then (leave (codes "done") s o) (λ t. exec f (i32_const (pos 1) ▸ close) t))

checks :
    (f : ℕ) (m : Memory) (src n i : ℕ)
    → i < count n
    → n < 2 ^ 32
    → Holds m src (16 * count n)
    → Checks (codes "loop") loop_body (at m src n) (answer f (at m src n 0)) m src n is_ascii i
unfolding exec
checks f m src n i h k l = record {
  passes = λ e. record {
    reached = at m src n (suc i);
    runs = clean_block m src n i h k l (bitmask_zero (block_at m src i) ∙ e);
    meets = λ again. refl;
  };
  outcome = returned (refused m src n i);
  fails = λ e. record {
    runs = dirty_block m src n i h k l (bitmask_zero (block_at m src i) ∙ e);
    ends = λ again. refl;
  };
  refuses = refl;
}

-- isascii(src, n) gives 1 back when every byte of the n blocks of 16 from `src` on is below 128,
-- and 0 otherwise, for an n below 2 ^ 32, of which one that is negative as a signed integer counts
-- as 0, given that the memory holds the blocks and that the loop may be started once more than
-- there are blocks.
pub isascii_lem :
    (m : Memory) (src n f : ℕ)
    → n < 2 ^ 32
    → Holds m src (16 * count n)
    → count n < f
    → result (call f program m (word src ∷ word n ∷ []))
      ≡ some (word (truth (every is_ascii (bytes_at m src (16 * count n)))))
unfolding exec
isascii_lem m src n f k l h =
    check_loop (codes "loop") loop_body (at m src n) (answer f (at m src n 0)) m src n is_ascii _
      (record { runs = last_block m src n k; ends = λ again. refl }) refl
      (λ i i_n. checks f m src n i i_n k l) f h
