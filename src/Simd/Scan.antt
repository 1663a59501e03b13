-- ===== src/Simd/Scan.antt =====
-- The kernels that look at a buffer block by block and stop at the first that fails a test.
use asmgen.Base.{
  ℕ, suc, ◌+◌, ◌-◌, ◌*◌, ◌^◌, ◌<◌, ◌≡◌, refl, arith, Bool, true, false, ap, ◌∙◌, ◌&&◌, Option, some,
  none, Bool-cases, inl, inr, Option-cases,
}
use asmgen.Base.Text.{Bytes}
use asmgen.Simd.Code.{Code, loop, close}
use asmgen.Simd.Machine.{Memory, bytes_at, Value, word, truth, State, Outcome, exec}
use asmgen.Simd.Rounds.{Round, exits, repeats, Repeats, Exits, loop_ends}
use asmgen.Simd.Pointwise.{every, every-append, position, position-append, first_of}
use asmgen.Simd.Blocks.{count, block_at, rest_at, rest-step, rest-end, rest-start, length-bytes_at}

-- `give` is what the function gives back once its loop has ended.
module _ (l : Bytes) (body : Code) (state : ℕ → State) (give : Outcome → Option Value) (m : Memory)
    (src n : ℕ) (p : ℕ → Bool) where
  abbrev Verdict : ℕ → Outcome → Type 0
  Verdict i o = give o ≡ some (word (truth (every p (rest_at m src n i))))

  -- Round i goes on when the block passes, and leaves with 0 when it does not.
  pub record Checks (i : ℕ) : Type 0 where
    pub passes : every p (block_at m src i) ≡ true → Repeats l body state i
    pub outcome : Outcome
    pub fails : every p (block_at m src i) ≡ false → Exits l body state i outcome
    pub refuses : give outcome ≡ some (word 0)

  check-Round : (i : ℕ) → i < count n → Checks i → Round l body state Verdict i
  check-Round i h c =
      let both : every p (rest_at m src n i)
          ≡ (every p (block_at m src i) && every p (rest_at m src n (suc i))) =
        rw (rest-step m src n i h) (every-append p (block_at m src i) (rest_at m src n (suc i))) in
      elim (Bool-cases (every p (block_at m src i))) [
        | inl e ↦ repeats (c.passes e) (λ o q. rw (both, e) q)
        | inr e ↦ exits (c.fails e) (rw (both, e) c.refuses)
      ]

  pub check_loop :
      (o : Outcome)
      → Exits l body state (count n) o
      → give o ≡ some (word 1)
      → ((i : ℕ) → i < count n → Checks i)
      → (f : ℕ) → count n < f
      → give (exec f (loop l body close) (state 0))
        ≡ some (word (truth (every p (bytes_at m src (16 * count n)))))
  check_loop o stop g checks f h =
      loop_ends l body state Verdict (count n) (λ i i_n. check-Round i i_n (checks i i_n)) o stop
        (rw (rest-end m src n) g) (count n) f 0 (omega arith) h
      ∙ rw (rest-start m src n) refl

-- The same with a place to find: its distance from the buffer's start, or -1.
abbrev pub index : ℕ → Option ℕ → ℕ
index base (some k) = base + k
index base none = 2 ^ 32 - 1

module _ (l : Bytes) (body : Code) (state : ℕ → State) (give : Outcome → Option Value) (m : Memory)
    (src n : ℕ) (p : ℕ → Bool) where
  abbrev Found : ℕ → Outcome → Type 0
  Found i o = give o ≡ some (word (index (16 * i) (position p (rest_at m src n i))))

  pub record Searches (i : ℕ) : Type 0 where
    pub misses : position p (block_at m src i) ≡ none → Repeats l body state i
    pub outcome : Outcome
    pub hits :
        (k : ℕ)
        → position p (block_at m src i) ≡ some k
        → Exits l body state i outcome × (give outcome ≡ some (word (16 * i + k)))

  further : (i : ℕ) (o : Option ℕ) → index (16 * suc i) o ≡ index (16 * i) (first_of 16 none o)
  further i none = refl
  further i (some k) = omega arith

  search-Round : (i : ℕ) → i < count n → Searches i → Round l body state Found i
  search-Round i h c =
      let split : position p (rest_at m src n i)
          ≡ first_of 16 (position p (block_at m src i)) (position p (rest_at m src n (suc i))) =
        rw (rest-step m src n i h) (position-append p (block_at m src i) (rest_at m src n (suc i)))
        ∙ ap
            (λ k. first_of k (position p (block_at m src i)) (position p (rest_at m src n (suc i))))
            (length-bytes_at m (src + 16 * i) 16) in
      elim (Option-cases (position p (block_at m src i))) [
        | inl e ↦
            repeats (c.misses e) (λ o q. rw (split, e) (q ∙ ap (λ t. some (word t)) (further i _)))
        | inr (k, e) ↦ exits (c.hits k e).0 (rw (split, e) (c.hits k e).1)
      ]

  pub search_loop :
      (o : Outcome)
      → Exits l body state (count n) o
      → give o ≡ some (word (2 ^ 32 - 1))
      → ((i : ℕ) → i < count n → Searches i)
      → (f : ℕ) → count n < f
      → give (exec f (loop l body close) (state 0))
        ≡ some (word (index 0 (position p (bytes_at m src (16 * count n)))))
  search_loop o stop g searches f h =
      loop_ends l body state Found (count n) (λ i i_n. search-Round i i_n (searches i i_n)) o stop
        (rw (rest-end m src n) g) (count n) f 0 (omega arith) h
      ∙ rw (rest-start m src n) refl
