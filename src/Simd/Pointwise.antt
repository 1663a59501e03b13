-- ===== src/Simd/Pointwise.antt =====
-- Vector operations as functions of one lane, and masks as predicates on bytes.
use asmgen.Base.{
  ℕ, zero, suc, ◌+◌, ◌<◌, ◌≡◌, refl, arith, Bool, true, false, [], ◌∷◌, ◌++◌, not, ltb→lt, map, ap,
  ap₂, ltb, ◌==◌, if◌then◌else◌, ◌&&◌, Bool-cases, inl, inr, length, All, Option, none, some,
  ==_iff,
}
use mathlib.Core.Option
use asmgen.Base.Text.{Bytes}
use asmgen.Simd.Code.{broadcast}
use asmgen.Simd.Lanes.{zip, repeat, bitmask}

pub zip-repeat :
    (f : ℕ → ℕ → ℕ) (v : Bytes) (n k : ℕ) → length v ≡ n → zip f v (repeat n k) ≡ map (λ x. f x k) v
unfolding zip repeat
zip-repeat f [] n k e = refl
zip-repeat f (x ∷ v) zero k e = absurd (omega arith)
zip-repeat f (x ∷ v) (suc n) k e = ap (λ l. f x k ∷ l) (zip-repeat f v n k (omega arith))

pub zip-broadcast :
    (f : ℕ → ℕ → ℕ) (v : Bytes) (k : ℕ) → length v ≡ 16 → zip f v (broadcast k) ≡ map (λ x. f x k) v
unfolding repeat
zip-broadcast f v k e = zip-repeat f v 16 k e

pub zip-map :
    (f : ℕ → ℕ → ℕ) (g h : ℕ → ℕ) (v : Bytes)
    → zip f (map g v) (map h v) ≡ map (λ x. f (g x) (h x)) v
unfolding zip
zip-map f g h [] = refl
zip-map f g h (x ∷ v) = ap (λ l. f (g x) (h x) ∷ l) (zip-map f g h v)

pub zip_self : (f : ℕ → ℕ → ℕ) (g : ℕ → ℕ) (v : Bytes) → zip f v (map g v) ≡ map (λ x. f x (g x)) v
unfolding zip
zip_self f g [] = refl
zip_self f g (x ∷ v) = ap (λ l. f x (g x) ∷ l) (zip_self f g v)

pub map-map : (f g : ℕ → ℕ) (v : Bytes) → map f (map g v) ≡ map (λ x. f (g x)) v
map-map f g [] = refl
map-map f g (x ∷ v) = ap (λ l. f (g x) ∷ l) (map-map f g v)

pub map_ext : {f g : ℕ → ℕ} → ((x : ℕ) → f x ≡ g x) → (v : Bytes) → map f v ≡ map g v
map_ext h [] = refl
map_ext h (x ∷ v) = ap₂ (λ y l. y ∷ l) (h x) (map_ext h v)

pub map-append : (f : ℕ → ℕ) (xs ys : Bytes) → map f (xs ++ ys) ≡ map f xs ++ map f ys
map-append f [] ys = refl
map-append f (x ∷ xs) ys = ap (λ l. f x ∷ l) (map-append f xs ys)

pub length-map : (f : ℕ → ℕ) (v : Bytes) → length (map f v) ≡ length v
length-map f [] = refl
length-map f (x ∷ v) = ground (arith, length-map f v)

both : (a b : Bool) → (a && b) ≡ true → (a ≡ true) × (b ≡ true)
both true b h = (refl, h)
both false b h = cc

-- A property of all numbers below n by trying them.
abbrev pub below : ℕ → (ℕ → Bool) → Bool
below zero p = true
below (suc n) p = p n && below n p

pub below_lem : (n : ℕ) (p : ℕ → Bool) (x : ℕ) → below n p ≡ true → x < n → p x ≡ true
below_lem zero p x h l = absurd (omega arith)
below_lem (suc n) p x h l =
    let ends : (p n ≡ true) × (below n p ≡ true) = both (p n) (below n p) h in
    elim (Bool-cases (x == n)) [
      | inl e ↦ rw ((==_iff x n).0 e) ends.0
      | inr e ↦ below_lem n p x ends.1 (ground arith)
    ]

-- Two functions that agree on bytes agree on a vector.
pub map-congr :
    (f g : ℕ → ℕ) (v : Bytes)
    → below 256 (λ x. f x == g x) ≡ true
    → All (λ x. x < 256) v
    → map f v ≡ map g v
map-congr f g [] h b = refl
map-congr f g (x ∷ v) h b =
    ap₂ (λ y l. y ∷ l) ((==_iff (f x) (g x)).0 (below_lem 256 (λ x. f x == g x) x h b.0))
      (map-congr f g v h b.1)

abbrev pub every : (ℕ → Bool) → Bytes → Bool
every p [] = true
every p (x ∷ xs) = p x && every p xs

and_assoc : (a b c : Bool) → (a && (b && c)) ≡ ((a && b) && c)
and_assoc true b c = refl
and_assoc false b c = refl

pub every-append : (p : ℕ → Bool) (xs ys : Bytes) → every p (xs ++ ys) ≡ (every p xs && every p ys)
every-append p [] ys = refl
every-append p (x ∷ xs) ys = rw (every-append p xs ys) (and_assoc (p x) (every p xs) (every p ys))

pub every-map : (p : ℕ → Bool) (f : ℕ → ℕ) (v : Bytes) → every p (map f v) ≡ every (λ x. p (f x)) v
every-map p f [] = refl
every-map p f (x ∷ v) = ap (λ b. p (f x) && b) (every-map p f v)

pub bitmask_zero : (v : Bytes) → (bitmask v == 0) ≡ every (λ x. ltb x 128) v
unfolding bitmask
bitmask_zero [] = refl
bitmask_zero (x ∷ v) = ground (arith, bitmask_zero v)

-- The place of the first byte that `p` holds of.
abbrev pub position : (ℕ → Bool) → Bytes → Option ℕ
position p [] = none
position p (x ∷ v) = if p x then some 0 else Option.map (λ k. suc k) (position p v)

-- The place in what stands n bytes further on counts when there is none before.
abbrev pub first_of : ℕ → Option ℕ → Option ℕ → Option ℕ
first_of n (some k) b = some k
first_of n none (some k) = some (n + k)
first_of n none none = none

suc-first_of :
    (n : ℕ) (a b : Option ℕ)
    → Option.map (λ k. suc k) (first_of n a b) ≡ first_of (suc n) (Option.map (λ k. suc k) a) b
suc-first_of n (some k) b = refl
suc-first_of n none (some k) = ap (λ t. some t) (omega arith)
suc-first_of n none none = refl

zero-first_of : (b : Option ℕ) → b ≡ first_of 0 none b
zero-first_of (some k) = ap (λ t. some t) (omega arith)
zero-first_of none = refl

pub position-append :
    (p : ℕ → Bool) (xs ys : Bytes)
    → position p (xs ++ ys) ≡ first_of (length xs) (position p xs) (position p ys)
position-append p [] ys = zero-first_of (position p ys)
position-append p (x ∷ xs) ys = elim (Bool-cases (p x)) [
  | inl e ↦ rw e refl
  | inr e ↦
      rw (e, position-append p xs ys) (suc-first_of (length xs) (position p xs) (position p ys))
]

abbrev pub same : Bool → Bool → Bool
same true b = b
same false b = not b

same→eq : (a b : Bool) → same a b ≡ true → a ≡ b
same→eq true true h = refl
same→eq true false h = cc
same→eq false true h = cc
same→eq false false h = refl

pub every-congr :
    (p q : ℕ → Bool) (v : Bytes)
    → below 256 (λ x. same (p x) (q x)) ≡ true
    → All (λ x. x < 256) v
    → every p v ≡ every q v
every-congr p q [] h b = refl
every-congr p q (x ∷ v) h b =
    ap₂ (λ y l. y && l) (same→eq (p x) (q x) (below_lem 256 (λ x. same (p x) (q x)) x h b.0))
      (every-congr p q v h b.1)

pub map-IsByte :
    (f : ℕ → ℕ) (v : Bytes)
    → below 256 (λ x. ltb (f x) 256) ≡ true
    → All (λ x. x < 256) v
    → All (λ x. x < 256) (map f v)
map-IsByte f [] h b = tt
map-IsByte f (x ∷ v) h b =
    (ltb→lt (f x) 256 (below_lem 256 (λ x. ltb (f x) 256) x h b.0), map-IsByte f v h b.1)
