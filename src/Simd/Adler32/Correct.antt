-- ===== src/Simd/Adler32/Correct.antt =====
-- examples/wasm/adler32/main.go: what the kernel stores.
use asmgen.Base.{
  ℕ, zero, suc, ◌+◌, ◌*◌, ◌%◌, ◌^◌, ◌<◌, ◌≡◌, refl, [], ◌∷◌, arith, ap, ◌∙◌, All, some, ltb, false,
}
use asmgen.Base.Text.{Bytes, codes}
use asmgen.Simd.Machine.{Memory, bytes_at, word, vec, State, branch, exec, call, left}
use asmgen.Simd.Rounds.{loop_runs}
use asmgen.Simd.Stores.{
  Apart, Outside, stored, stored-bytes_at, bytes_at-stored, write_bytes-Outside,
}
use asmgen.Simd.Blocks.{
  count, Holds, block_at, before, within, past, address, loadable, advance, goes_on, leaves,
  first-step,
}
use asmgen.Simd.Lanes.{lanes32, bytes32}
use asmgen.Simd.Totals.{quarters, four, lanes32-bytes32}
use asmgen.Simd.Adler32.{loop_body, program}
use asmgen.Simd.Adler32.Sums.{
  sum_a, sum_b, sum_a-append, sum_b-append, weighted, four-weighted, four-quarters, sum_a-block,
  sum_b-block,
}

-- The arguments of a call.
pub record Args : Type 0 where
  pub src : ℕ
  pub blocks : ℕ
  pub a_init : ℕ
  pub b_init : ℕ
  pub a_out : ℕ
  pub b_out : ℕ

module _ (m : Memory) (s : Args) where
  -- What the locals hold before round i.
  abbrev a_of : ℕ → ℕ
  a_of zero = s.a_init
  a_of (suc i) = (a_of i + four (lanes32 (quarters (block_at m s.src i)))) % 2 ^ 32

  abbrev b_of : ℕ → ℕ
  b_of zero = s.b_init
  b_of (suc i) =
      ((b_of i + a_of i * 16 % 2 ^ 32) % 2 ^ 32 + four (lanes32 (weighted (block_at m s.src i))))
      % 2 ^ 32

  abbrev number : (Bytes → ℕ) → ℕ → ℕ
  number f zero = 0
  number f (suc i) = f (block_at m s.src i)

  abbrev at : ℕ → State
  at i = record {
    stack = [];
    locals =
        (codes "srcPtr", word s.src)
        ∷ (codes "nBlocks", word s.blocks)
        ∷ (codes "aInit", word s.a_init)
        ∷ (codes "bInit", word s.b_init)
        ∷ (codes "aOut", word s.a_out)
        ∷ (codes "bOut", word s.b_out)
        ∷ (codes "i", word i)
        ∷ (codes "a", word (a_of i))
        ∷ (codes "b", word (b_of i))
        ∷ (codes "bytes", vec (before (λ v. v) m s.src i))
        ∷ (codes "wpair", vec (before weighted m s.src i))
        ∷ (codes "deltaA", word (number (λ v. four (lanes32 (quarters v))) i))
        ∷ (codes "weighted", word (number (λ v. four (lanes32 (weighted v))) i))
        ∷ [];
    memory = m;
  }

  pub a_of_lem :
      (i : ℕ) → s.a_init < 2 ^ 32 → a_of i ≡ sum_a s.a_init (bytes_at m s.src (16 * i)) % 2 ^ 32
  unfolding bytes_at
  a_of_lem zero h = omega arith
  a_of_lem (suc i) h = omega (
    arith,
    a_of_lem i h,
    four-quarters m (s.src + 16 * i),
    sum_a-block m (s.src + 16 * i) (sum_a s.a_init (bytes_at m s.src (16 * i))),
    ap (sum_a s.a_init) (first-step m s.src i),
    sum_a-append s.a_init (bytes_at m s.src (16 * i)) (block_at m s.src i),
  )

  pub b_of_lem :
      (i : ℕ)
      → s.a_init < 2 ^ 32
      → s.b_init < 2 ^ 32
      → b_of i ≡ sum_b s.a_init s.b_init (bytes_at m s.src (16 * i)) % 2 ^ 32
  unfolding bytes_at
  b_of_lem zero h k = omega arith
  b_of_lem (suc i) h k = omega (
    arith,
    a_of_lem i h,
    b_of_lem i h k,
    four-weighted m (s.src + 16 * i),
    sum_b-block m (s.src + 16 * i) (sum_a s.a_init (bytes_at m s.src (16 * i)))
        (sum_b s.a_init s.b_init (bytes_at m s.src (16 * i))),
    ap (sum_b s.a_init s.b_init) (first-step m s.src i),
    sum_b-append s.a_init s.b_init (bytes_at m s.src (16 * i)) (block_at m s.src i),
  )

  module _ (k : s.blocks < 2 ^ 32) (l : Holds m s.src (16 * count s.blocks)) where
    one_block :
        (i : ℕ)
        → i < count s.blocks
        → (f : ℕ) → exec f loop_body (at i) ≡ branch (codes "loop") (at (suc i))
    unfolding exec
    one_block i h f =
        goes_on _ (within i s.blocks h k)
        ∙ rw
            (
              address s.src i (count s.blocks) m.size h l.0 l.1,
              loadable s.src i (count s.blocks) m.size h l.0,
              advance i s.blocks h,
            )
            refl

    last_block :
        (f : ℕ)
        → exec f loop_body (at (count s.blocks)) ≡ branch (codes "done") (at (count s.blocks))
    unfolding exec
    last_block f = leaves _ (past s.blocks k)

-- The memory with a word stored.
abbrev with_word : Memory → ℕ → ℕ → Memory
with_word m p x = stored m p (bytes32 (x ∷ []))

bytes32-IsByte : (x : ℕ) → All (λ y. y < 256) (bytes32 (x ∷ []))
unfolding bytes32
bytes32-IsByte x = omega arith

word-bytes_at : (m : Memory) (p x : ℕ) → lanes32 (bytes_at (with_word m p x) p 4) ≡ x % 2 ^ 32 ∷ []
unfolding bytes32
word-bytes_at m p x =
    ap lanes32 (stored-bytes_at m p (bytes32 (x ∷ [])) (bytes32-IsByte x))
    ∙ lanes32-bytes32 (x ∷ [])

-- What the kernel leaves in the memory.
pub record Sums (m : Memory) (s : Args) (m' : Memory) : Type 0 where
  pub first :
      lanes32 (bytes_at m' s.a_out 4)
      ≡ sum_a s.a_init (bytes_at m s.src (16 * count s.blocks)) % 2 ^ 32 ∷ []
  pub second :
      lanes32 (bytes_at m' s.b_out 4)
      ≡ sum_b s.a_init s.b_init (bytes_at m s.src (16 * count s.blocks)) % 2 ^ 32 ∷ []
  pub keeps : (k : ℕ) → Outside s.a_out 4 k → Outside s.b_out 4 k → m'.byte k ≡ m.byte k

stored-Sums :
    (m : Memory) (s : Args)
    → s.a_init < 2 ^ 32
    → s.b_init < 2 ^ 32
    → Apart s.a_out 4 s.b_out 4
    → Sums m s (
        with_word
          (with_word m s.a_out (a_of m s (count s.blocks)))
          s.b_out
          (b_of m s (count s.blocks)))
unfolding bytes32
stored-Sums m s h k apart = record {
  first =
      ap lanes32 (
        bytes_at-stored (with_word m s.a_out (a_of m s (count s.blocks))) s.b_out
          (bytes32 (b_of m s (count s.blocks) ∷ [])) s.a_out 4 apart)
      ∙ (word-bytes_at m s.a_out (a_of m s (count s.blocks))
          ∙ ap (λ x. x ∷ []) (omega (arith, a_of_lem m s (count s.blocks) h)));
  second =
      word-bytes_at (with_word m s.a_out (a_of m s (count s.blocks))) s.b_out
        (b_of m s (count s.blocks))
      ∙ ap (λ x. x ∷ []) (omega (arith, b_of_lem m s (count s.blocks) h k));
  keeps = λ j o o'.
      write_bytes-Outside _ s.b_out (bytes32 (b_of m s (count s.blocks) ∷ [])) j o'
      ∙ write_bytes-Outside m.byte s.a_out (bytes32 (a_of m s (count s.blocks) ∷ [])) j o;
}

-- adler32 stores at a_out and b_out, as words of 32 bits and modulo 2 ^ 32, the two sums of
-- Adler-32, not reduced, that the n blocks of 16 bytes from `src` on make of a_init and b_init,
-- both below 2 ^ 32, byte by byte, and changes no other byte, for an n below 2 ^ 32, of which one
-- that is negative as a signed integer counts as 0, given that the memory holds the blocks and the
-- two words, that the words do not meet, and that the loop may be started once more than there are
-- blocks.
pub adler32_lem :
    (m : Memory) (s : Args) (f : ℕ)
    → s.blocks < 2 ^ 32
    → s.a_init < 2 ^ 32
    → s.b_init < 2 ^ 32
    → Holds m s.src (16 * count s.blocks)
    → Holds m s.a_out 4
    → Holds m s.b_out 4
    → Apart s.a_out 4 s.b_out 4
    → count s.blocks < f
    → (m' : Memory) × (left (
          call f program m (
            word s.src
            ∷ word s.blocks
            ∷ word s.a_init
            ∷ word s.b_init
            ∷ word s.a_out
            ∷ word s.b_out
            ∷ []))
        ≡ some m')
      × Sums m s m'
unfolding exec
adler32_lem m s f k ha hb l la lb apart h =
    let first : s.a_out + 0 ≡ s.a_out = omega arith in
    let second : s.b_out + 0 ≡ s.b_out = omega arith in
    let fits : ltb m.size (s.a_out + 4) ≡ false = ground arith in
    let fits' : ltb m.size (s.b_out + 4) ≡ false = ground arith in
    (
      with_word (with_word m s.a_out (a_of m s (count s.blocks))) s.b_out
          (b_of m s (count s.blocks)),
      rw
          (
            loop_runs (codes "loop") loop_body (at m s) (count s.blocks)
                (λ i i_n. record {
                  reached = at m s (suc i);
                  runs = one_block m s k l i i_n;
                  meets = λ again. refl;
                })
                _ (record { runs = last_block m s k l; ends = λ again. refl }) f h,
            first,
            fits,
            second,
            fits',
          )
          refl,
      stored-Sums m s ha hb apart,
    )
