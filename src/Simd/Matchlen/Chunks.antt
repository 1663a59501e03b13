-- ===== src/Simd/Matchlen/Chunks.antt =====
-- examples/wasm/matchlen/main.go: the loop over 16 bytes at a time.
use asmgen.Base.{
  ℕ, zero, suc, ◌+◌, ◌-◌, ◌*◌, ◌/◌, ◌%◌, ◌^◌, ◌<◌, ◌≤◌, ◌≡◌, refl, true, false, [], ◌∷◌, ◌++◌,
  arith, ◌==◌, ap, ◌∙◌, sym, length, ltb, if◌then◌else◌, Bool-cases, inl, inr,
}
use asmgen.Base.Text.{codes, Bytes}
use asmgen.Simd.Code.{loop, close}
use asmgen.Simd.Rounds.{Round, repeats, exits, loop_ends}
use asmgen.Simd.Machine.{Memory, bytes_at, word, vec, State, branch, Outcome, exec, truth, signed32}
use asmgen.Simd.Blocks.{count, Holds, length-bytes_at, bytes_at-add, goes_on, leaves}
use asmgen.Simd.Lanes.{zip, eq_lane, all_true, repeat}
use asmgen.Simd.Matchlen.{chunk_body}

-- The length of the common prefix.
abbrev pub common : Bytes → Bytes → ℕ
common [] ys = 0
common (x ∷ xs) [] = 0
common (x ∷ xs) (y ∷ ys) = if x == y then suc (common xs ys) else 0

pub common-same : (v xs ys : Bytes) → common (v ++ xs) (v ++ ys) ≡ length v + common xs ys
common-same [] xs ys = omega arith
common-same (x ∷ v) xs ys = ground (arith, common-same v xs ys)

common-prefix :
    (v xs ys : Bytes) (n : ℕ) → length v ≡ n → common (v ++ xs) (v ++ ys) ≡ n + common xs ys
common-prefix v xs ys n e = common-same v xs ys ∙ ap (λ k. k + common xs ys) e

all_true-eq :
    (xs ys : Bytes) → length xs ≡ length ys → all_true (zip eq_lane xs ys) ≡ true → xs ≡ ys
unfolding all_true zip
all_true-eq [] [] h e = refl
all_true-eq [] (y ∷ ys) h e = absurd (omega arith)
all_true-eq (x ∷ xs) [] h e = absurd (omega arith)
all_true-eq (x ∷ xs) (y ∷ ys) h e = ground (arith, all_true-eq xs ys)

all_same : (v : Bytes) → all_true v ≡ true → (truth (truth (all_true v) == 0) == 0) ≡ true
all_same v e = rw e refl

some_differs : (v : Bytes) → all_true v ≡ false → (truth (truth (all_true v) == 0) == 0) ≡ false
some_differs v e = rw e refl

-- The two buffers, from the t-th of their first n bytes on.
pub record Pair : Type 0 where
  pub memory : Memory
  pub a : ℕ
  pub b : ℕ
  pub limit : ℕ

-- Both hold as many bytes as the limit says, and the loop's sums are below 2 ^ 31.
pub record Fits (p : Pair) : Type 0 where
  pub first : Holds p.memory p.a (count p.limit)
  pub second : Holds p.memory p.b (count p.limit)
  pub below : count p.limit + 16 < 2 ^ 31
  pub word32 : p.limit < 2 ^ 32

abbrev pub rest : Pair → ℕ → ℕ
rest p t =
    common (bytes_at p.memory (p.a + t) (count p.limit - t))
      (bytes_at p.memory (p.b + t) (count p.limit - t))

-- `matched`, with what the other two locals hold.
abbrev pub at : Pair → ℕ → ℕ → Bytes → State
at p i matched eq = record {
  stack = [];
  locals =
      (codes "ptrA", word p.a)
      ∷ (codes "ptrB", word p.b)
      ∷ (codes "limit", word p.limit)
      ∷ (codes "i", word i)
      ∷ (codes "matched", word matched)
      ∷ (codes "eq", vec eq)
      ∷ [];
  memory = p.memory;
}

abbrev compared : Pair → ℕ → Bytes
compared p j =
    zip eq_lane (bytes_at p.memory (p.a + 16 * j) 16) (bytes_at p.memory (p.b + 16 * j) 16)

abbrev last_eq : Pair → ℕ → Bytes
last_eq p zero = repeat 16 0
last_eq p (suc j) = compared p j

abbrev pub chunk : Pair → ℕ → State
chunk p j = at p (16 * j) (16 * j) (last_eq p j)

module _ (p : Pair) (fits : Fits p) where
  room :
      (j : ℕ)
      → 16 * j + 16 ≤ count p.limit
      → (truth (ltb (signed32 p.limit) (signed32 ((16 * j + 16) % 2 ^ 32))) == 0) ≡ true
  room j h = ground (arith, fits.below, fits.word32)

  full :
      (j : ℕ)
      → 16 * j ≤ count p.limit
      → count p.limit < 16 * j + 16
      → (truth (ltb (signed32 p.limit) (signed32 ((16 * j + 16) % 2 ^ 32))) == 0) ≡ false
  full j h k = ground (arith, fits.below, fits.word32)

  address :
      (base j : ℕ)
      → Holds p.memory base (count p.limit)
      → 16 * j + 16 ≤ count p.limit
      → (base + 16 * j) % 2 ^ 32 + 0 ≡ base + 16 * j
  address base j h k = omega (arith, h.0, h.1)

  readable :
      (base j : ℕ)
      → Holds p.memory base (count p.limit)
      → 16 * j + 16 ≤ count p.limit
      → ltb p.memory.size (base + 16 * j + 16) ≡ false
  readable base j h k = ground (arith, h.0, h.1)

  advance : (j : ℕ) → 16 * j + 16 ≤ count p.limit → (16 * j + 16) % 2 ^ 32 ≡ 16 * suc j
  advance j h = omega (arith, fits.below)

  same_chunk :
      (j : ℕ)
      → 16 * j + 16 ≤ count p.limit
      → all_true (compared p j) ≡ true
      → (f : ℕ) → exec f chunk_body (chunk p j) ≡ branch (codes "chunk_loop") (chunk p (suc j))
  unfolding exec
  same_chunk j h e f =
      goes_on _ (room j h)
      ∙ rw
          (
            address p.a j fits.first h,
            readable p.a j fits.first h,
            address p.b j fits.second h,
            readable p.b j fits.second h,
          )
          (goes_on _ (all_same (compared p j) e) ∙ rw (advance j h) refl)

  other_chunk :
      (j : ℕ)
      → 16 * j + 16 ≤ count p.limit
      → all_true (compared p j) ≡ false
      → (f : ℕ)
      → exec f chunk_body (chunk p j)
        ≡ branch (codes "chunk_done") (at p (16 * j) (16 * j) (compared p j))
  unfolding exec
  other_chunk j h e f =
      goes_on _ (room j h)
      ∙ rw
          (
            address p.a j fits.first h,
            readable p.a j fits.first h,
            address p.b j fits.second h,
            readable p.b j fits.second h,
          )
          (leaves _ (some_differs (compared p j) e))

  last_chunk :
      (j : ℕ)
      → 16 * j ≤ count p.limit
      → count p.limit < 16 * j + 16
      → (f : ℕ) → exec f chunk_body (chunk p j) ≡ branch (codes "chunk_done") (chunk p j)
  unfolding exec
  last_chunk j h k f = leaves _ (full j h k)

  rest-chunk :
      (j : ℕ)
      → 16 * j + 16 ≤ count p.limit
      → all_true (compared p j) ≡ true
      → rest p (16 * j) ≡ 16 + rest p (16 * suc j)
  rest-chunk j h e =
      let v = bytes_at p.memory (p.a + 16 * j) 16 in
      let len : count p.limit - 16 * j ≡ 16 + (count p.limit - 16 * suc j) = omega arith in
      let a : p.a + 16 * suc j ≡ p.a + 16 * j + 16 = omega arith in
      let b : p.b + 16 * suc j ≡ p.b + 16 * j + 16 = omega arith in
      let same : v ≡ bytes_at p.memory (p.b + 16 * j) 16 =
        all_true-eq v (bytes_at p.memory (p.b + 16 * j) 16)
          (length-bytes_at p.memory (p.a + 16 * j) 16
            ∙ sym (length-bytes_at p.memory (p.b + 16 * j) 16))
          e in
      rw
        (
          len,
          a,
          b,
          bytes_at-add p.memory 16 (count p.limit - 16 * suc j) (p.a + 16 * j),
          bytes_at-add p.memory 16 (count p.limit - 16 * suc j) (p.b + 16 * j),
          sym same,
        )
        (common-prefix v _ _ 16 (length-bytes_at p.memory (p.a + 16 * j) 16))

  -- How the loop over chunks ends: at some chunk, with as much ahead as there was.
  pub record Stops (i : ℕ) (o : Outcome) : Type 0 where
    pub chunks : ℕ
    pub eq : Bytes
    pub outcome : o ≡ branch (codes "chunk_done") (at p (16 * chunks) (16 * chunks) eq)
    pub within : 16 * chunks ≤ count p.limit
    pub ahead : 16 * i + rest p (16 * i) ≡ 16 * chunks + rest p (16 * chunks)

  chunk-Round :
      (i : ℕ)
      → 16 * i + 16 ≤ count p.limit
      → Round (codes "chunk_loop") chunk_body (chunk p) Stops i
  chunk-Round i h = elim (Bool-cases (all_true (compared p i))) [
    | inl e ↦
        repeats
          (record { reached = chunk p (suc i); runs = same_chunk i h e; meets = λ again. refl })
          (λ o s. record {
            chunks = s.chunks;
            eq = s.eq;
            outcome = s.outcome;
            within = s.within;
            ahead = omega (arith, rest-chunk i h e, s.ahead);
          })
    | inr e ↦
        exits (record { runs = other_chunk i h e; ends = λ again. refl })
          (record {
            chunks = i;
            eq = compared p i;
            outcome = refl;
            within = omega arith;
            ahead = refl;
          })
  ]

  pub chunk-loop_ends :
      (f : ℕ)
      → count p.limit < f
      → Stops 0 (exec f (loop (codes "chunk_loop") chunk_body close) (chunk p 0))
  chunk-loop_ends f h =
      loop_ends (codes "chunk_loop") chunk_body (chunk p) Stops (count p.limit / 16)
        (λ i i_n. chunk-Round i (omega arith)) _
        (record {
          runs = last_chunk (count p.limit / 16) (omega arith) (omega arith);
          ends = λ again. refl;
        })
        (record {
          chunks = count p.limit / 16;
          eq = last_eq p (count p.limit / 16);
          outcome = refl;
          within = omega arith;
          ahead = refl;
        })
        (count p.limit / 16) f 0 (omega arith) (omega arith)
