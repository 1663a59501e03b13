-- ===== src/Simd/Matchlen/Correct.antt =====
-- examples/wasm/matchlen/main.go: the loop over single bytes, and what the kernel returns.
use asmgen.Base.{
  ℕ, suc, ◌+◌, ◌-◌, ◌*◌, ◌%◌, ◌^◌, ◌<◌, ◌≤◌, ◌≡◌, refl, true, false, [], ◌∷◌, arith, some, ◌==◌, ap,
  ◌∙◌, not, leb, ltb, if◌then◌else◌, Bool-cases, inl, inr,
}
use asmgen.Base.Text.{codes, Bytes}
use asmgen.Simd.Code.{Code, loop, close, block, local_get, ◌▸◌}
use asmgen.Simd.Rounds.{Round, repeats, exits, loop_ends}
use asmgen.Simd.Machine.{
  bytes_at, word, State, branch, Outcome, exec, truth, signed32, call, result,
}
use asmgen.Simd.Blocks.{count, Holds, goes_on, leaves}
use asmgen.Simd.Matchlen.{byte_body, program}
use asmgen.Simd.Matchlen.Chunks.{Pair, Fits, common, rest, at, chunk-loop_ends}

-- Byte k from an address on.
abbrev read : Pair → ℕ → ℕ → ℕ
read p base t = p.memory.byte (base + t) % 256

module _ (p : Pair) (fits : Fits p) (i : ℕ) (eq : Bytes) where
  abbrev tail : ℕ → State
  tail t = at p i t eq

  ahead : (t : ℕ) → t < count p.limit → (truth (leb (signed32 p.limit) (signed32 t)) == 0) ≡ true
  ahead t h = ground (arith, fits.word32)

  behind : (truth (leb (signed32 p.limit) (signed32 (count p.limit))) == 0) ≡ false
  behind = ground (arith, fits.word32)

  address :
      (base t : ℕ)
      → Holds p.memory base (count p.limit)
      → t < count p.limit
      → (base + t) % 2 ^ 32 + 0 ≡ base + t
  address base t h k = omega (arith, h.0, h.1)

  readable :
      (base t : ℕ)
      → Holds p.memory base (count p.limit)
      → t < count p.limit
      → ltb p.memory.size (base + t + 1) ≡ false
  readable base t h k = ground (arith, h.0, h.1)

  advance : (t : ℕ) → t < count p.limit → (t + 1) % 2 ^ 32 ≡ suc t
  advance t h = omega (arith, fits.below)

  agree : (x y : ℕ) → (x == y) ≡ true → (truth (not (x == y)) == 0) ≡ true
  agree x y e = rw e refl

  differ : (x y : ℕ) → (x == y) ≡ false → (truth (not (x == y)) == 0) ≡ false
  differ x y e = rw e refl

  same_byte :
      (t : ℕ)
      → t < count p.limit
      → (read p p.a t == read p p.b t) ≡ true
      → (f : ℕ) → exec f byte_body (tail t) ≡ branch (codes "byte_loop") (tail (suc t))
  unfolding exec bytes_at
  same_byte t h e f =
      goes_on _ (ahead t h)
      ∙ rw
          (
            address p.a t fits.first h,
            readable p.a t fits.first h,
            address p.b t fits.second h,
            readable p.b t fits.second h,
          )
          (goes_on _ (agree (read p p.a t) (read p p.b t) e) ∙ rw (advance t h) refl)

  other_byte :
      (t : ℕ)
      → t < count p.limit
      → (read p p.a t == read p p.b t) ≡ false
      → (f : ℕ) → exec f byte_body (tail t) ≡ branch (codes "byte_done") (tail t)
  unfolding exec bytes_at
  other_byte t h e f =
      goes_on _ (ahead t h)
      ∙ rw
          (
            address p.a t fits.first h,
            readable p.a t fits.first h,
            address p.b t fits.second h,
            readable p.b t fits.second h,
          )
          (leaves _ (differ (read p p.a t) (read p p.b t) e))

  last_byte :
      (f : ℕ)
      → exec f byte_body (tail (count p.limit)) ≡ branch (codes "byte_done") (tail (count p.limit))
  unfolding exec
  last_byte f = leaves _ behind

  rest-byte :
      (t : ℕ)
      → t < count p.limit
      → rest p t ≡ (if read p p.a t == read p p.b t then suc (rest p (suc t)) else 0)
  unfolding bytes_at
  rest-byte t h =
      let e : count p.limit - t ≡ suc (count p.limit - suc t) = omega arith in
      let a : p.a + suc t ≡ p.a + t + 1 = omega arith in
      let b : p.b + suc t ≡ p.b + t + 1 = omega arith in rw (e, a, b) refl

  rest-same :
      (t : ℕ)
      → t < count p.limit
      → (read p p.a t == read p p.b t) ≡ true
      → suc t + rest p (suc t) ≡ t + rest p t
  rest-same t h e =
      let one : rest p t ≡ suc (rest p (suc t)) = rest-byte t h ∙ rw e refl in omega (arith, one)

  rest-other :
      (t : ℕ) → t < count p.limit → (read p p.a t == read p p.b t) ≡ false → t ≡ t + rest p t
  rest-other t h e = let none : rest p t ≡ 0 = rest-byte t h ∙ rw e refl in omega (arith, none)

  rest-end : rest p (count p.limit) ≡ 0
  unfolding bytes_at
  rest-end = let e : count p.limit - count p.limit ≡ 0 = omega arith in rw e refl

  abbrev Leaves : ℕ → Outcome → Type 0
  Leaves t o = o ≡ branch (codes "byte_done") (tail (t + rest p t))

  byte-Round : (t : ℕ) → t < count p.limit → Round (codes "byte_loop") byte_body tail Leaves t
  byte-Round t h = elim (Bool-cases (read p p.a t == read p p.b t)) [
    | inl e ↦
        repeats (record { reached = tail (suc t); runs = same_byte t h e; meets = λ again. refl })
          (λ o s. s ∙ ap (λ k. branch (codes "byte_done") (tail k)) (rest-same t h e))
    | inr e ↦
        exits (record { runs = other_byte t h e; ends = λ again. refl })
          (ap (λ k. branch (codes "byte_done") (tail k)) (rest-other t h e))
  ]

  byte_loop_ends :
      (f t : ℕ)
      → t ≤ count p.limit
      → count p.limit < f
      → exec f (loop (codes "byte_loop") byte_body close) (tail t)
        ≡ branch (codes "byte_done") (tail (t + rest p t))
  byte_loop_ends f t h k =
      loop_ends (codes "byte_loop") byte_body tail Leaves (count p.limit) byte-Round _
        (record { runs = last_byte; ends = λ again. refl })
        (ap (λ k. branch (codes "byte_done") (tail k)) (omega (arith, rest-end)))
        (count p.limit - t) f t (omega arith) (omega arith)

  -- What is behind the loop over chunks.
  abbrev last_part : Code
  last_part =
      block (codes "byte_done") (loop (codes "byte_loop") byte_body close)
        (local_get (codes "matched") ▸ close)

  last_part_lem :
      (f t : ℕ)
      → t ≤ count p.limit
      → count p.limit < f
      → result (exec f last_part (tail t)) ≡ some (word (t + rest p t))
  unfolding exec
  last_part_lem f t h k = rw (byte_loop_ends f t h k) refl

rest-start :
    (p : Pair)
    → rest p 0
      ≡ common (bytes_at p.memory p.a (count p.limit)) (bytes_at p.memory p.b (count p.limit))
rest-start p =
    let a : p.a + 0 ≡ p.a = omega arith in
    let b : p.b + 0 ≡ p.b = omega arith in
    let n : count p.limit - 0 ≡ count p.limit = omega arith in rw (a, b, n) refl

-- matchlen16(a, b, limit) gives back the length of the longest common prefix of the `limit` bytes
-- from `a` and from `b` on, for a limit below 2 ^ 32, of which one that is negative as a signed
-- integer counts as 0, given that the memory holds both, that limit + 16 is below 2 ^ 31, and that
-- each loop may be started once more than there are bytes.
pub matchlen16_lem :
    (p : Pair) (f : ℕ)
    → Fits p
    → count p.limit < f
    → result (call f program p.memory (word p.a ∷ word p.b ∷ word p.limit ∷ []))
      ≡ some (
          word (
            common (bytes_at p.memory p.a (count p.limit)) (bytes_at p.memory p.b (count p.limit))))
unfolding exec
matchlen16_lem p f fits h =
    let s = chunk-loop_ends p fits f h in
    rw s.outcome (
      last_part_lem p fits (16 * s.chunks) s.eq f (16 * s.chunks) s.within h
      ∙ ap (λ k. some (word k)) (omega (arith, s.ahead, rest-start p)))
