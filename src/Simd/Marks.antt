-- ===== src/Simd/Marks.antt =====
-- The place of a mask's lowest one, and the first byte that it marks.
use asmgen.Base.{
  ℕ, zero, suc, ◌+◌, ◌*◌, ◌/◌, ◌%◌, ◌≤◌, ◌<◌, ◌≡◌, refl, arith, Bool, true, false, [], ◌∷◌, map, ap,
  not, if◌then◌else◌, ◌++◌, ◌==◌, Bool-cases, inl, inr, length, Option, none, some, bit_or, ◌||◌,
  sym, ◌∙◌,
}
use mathlib.Core.Option
use mathlib.Core.Option.{some_inj}
use asmgen.Base.Text.{Bytes}
use asmgen.Simd.Lanes.{bitmask, trailing, mask, ones}
use asmgen.Simd.Pointwise.{position}

-- The lanes that `p` marks.
abbrev pub marked : (ℕ → Bool) → Bytes → Bytes
marked p v = map (λ x. mask (p x)) v

pub mask-or : (a b : Bool) → bit_or (mask a) (mask b) ≡ mask (a || b)
mask-or true true = refl
mask-or true false = refl
mask-or false true = refl
mask-or false false = refl

suc-none : (o : Option ℕ) → Option.map (λ k. suc k) o ≡ none → o ≡ none
suc-none none h = refl
suc-none (some k) h = cc

suc-some :
    (o : Option ℕ) (k : ℕ)
    → Option.map (λ k. suc k) o ≡ some k
    → (j : ℕ) × (o ≡ some j) × (k ≡ suc j)
suc-some none k h = cc
suc-some (some j) k h = (j, refl, sym (some_inj.0 h))

pub marked-none : (p : ℕ → Bool) (v : Bytes) → position p v ≡ none → bitmask (marked p v) ≡ 0
unfolding bitmask
marked-none p [] h = refl
marked-none p (x ∷ v) h = elim (Bool-cases (p x)) [
  | inl e ↦ let t : Path (Option ℕ) (some 0) none = rw e at h in cc
  | inr e ↦
      let t : Option.map (λ k. suc k) (position p v) ≡ none = rw e at h in
      rw e (omega (arith, marked-none p v (suc-none _ t)))
]

trailing_odd : (n b : ℕ) → trailing (suc n) (255 / 128 + 2 * b) ≡ 0
unfolding trailing
trailing_odd n b = ground arith

trailing_even : (n b : ℕ) → trailing (suc n) (0 / 128 + 2 * b) ≡ suc (trailing n b)
unfolding trailing
trailing_even n b =
    let half : (0 / 128 + 2 * b) / 2 ≡ b = omega arith in
    let even : ((0 / 128 + 2 * b) % 2 == 1) ≡ false = ground arith in rw (half, even) refl

abbrev pub Marks : ℕ → ℕ → ℕ → ℕ → Type 0
Marks n b k len = (trailing n b ≡ k) × (0 < b) × (k < len)

pub marked-some :
    (p : ℕ → Bool) (v : Bytes) (n k : ℕ)
    → length v ≤ n
    → position p v ≡ some k
    → Marks n (bitmask (marked p v)) k (length v)
unfolding bitmask
marked-some p [] n k h e = cc
marked-some p (x ∷ v) zero k h e = absurd (omega arith)
marked-some p (x ∷ v) (suc n) k h e = elim (Bool-cases (p x)) [
  | inl t ↦
      let t' : some 0 ≡ some k = rw t at e in
      let k_zero : 0 ≡ k = some_inj.0 t' in
      rw t (trailing_odd n (bitmask (marked p v)) ∙ k_zero, omega arith, omega arith)
  | inr t ↦
      let t' : Option.map (λ k. suc k) (position p v) ≡ some k = rw t at e in
      let (j, found, k_j) = suc-some (position p v) k t' in
      let ih = marked-some p v n j (omega arith) found in
      rw t (
        trailing_even n (bitmask (marked p v)) ∙ (ap (λ i. suc i) ih.0 ∙ sym k_j),
        omega (arith, ih.1),
        omega (arith, ih.2),
      )
]

-- The same of a mask b, as the kernels test it.
module _ (p : ℕ → Bool) (v : Bytes) (b : ℕ) (marks : b ≡ bitmask (marked p v)) where
  pub missing : position p v ≡ none → (b == 0) ≡ true
  missing h = rw (marks, marked-none p v h) refl

  pub hitting : (k : ℕ) → length v ≤ 32 → position p v ≡ some k → Marks 32 b k (length v)
  hitting k h e = rw marks (marked-some p v 32 k h e)

-- How many bytes `p` holds of.
abbrev pub tally : (ℕ → Bool) → Bytes → ℕ
tally p [] = 0
tally p (x ∷ v) = if p x then suc (tally p v) else tally p v

pub tally-append : (p : ℕ → Bool) (xs ys : Bytes) → tally p (xs ++ ys) ≡ tally p xs + tally p ys
tally-append p [] ys = omega arith
tally-append p (x ∷ xs) ys = ground (arith, tally-append p xs ys)

pub tally-not : (p : ℕ → Bool) (v : Bytes) → tally p v + tally (λ x. not (p x)) v ≡ length v
tally-not p [] = omega arith
tally-not p (x ∷ v) = ground (arith, tally-not p v)

ones_odd : (n b : ℕ) → ones (suc n) (255 / 128 + 2 * b) ≡ suc (ones n b)
unfolding ones
ones_odd n b = let half : (255 / 128 + 2 * b) / 2 ≡ b = omega arith in rw half (omega arith)

ones_even : (n b : ℕ) → ones (suc n) (0 / 128 + 2 * b) ≡ ones n b
unfolding ones
ones_even n b = let half : (0 / 128 + 2 * b) / 2 ≡ b = omega arith in rw half (omega arith)

ones_zero : (n : ℕ) → ones n 0 ≡ 0
unfolding ones
ones_zero zero = refl
ones_zero (suc n) = ground (arith, ones_zero n)

pub ones-marked :
    (p : ℕ → Bool) (v : Bytes) (n : ℕ) → length v ≤ n → ones n (bitmask (marked p v)) ≡ tally p v
unfolding bitmask
ones-marked p [] n h = ones_zero n
ones-marked p (x ∷ v) zero h = absurd (omega arith)
ones-marked p (x ∷ v) (suc n) h = elim (Bool-cases (p x)) [
  | inl e ↦
      rw e (ones_odd n (bitmask (marked p v)) ∙ ap (λ k. suc k) (ones-marked p v n (omega arith)))
  | inr e ↦ rw e (ones_even n (bitmask (marked p v)) ∙ ones-marked p v n (omega arith))
]
