-- ===== src/Simd/Totals.antt =====
-- Sums over lanes of 16 and of 32 bits.
use asmgen.Base.{
  ℕ, zero, suc, ◌+◌, ◌*◌, ◌%◌, ◌^◌, ◌≤◌, ◌<◌, ◌≡◌, refl, arith, List, [], ◌∷◌, ◌++◌, map, ap, ap₂,
  ◌∙◌, length, All,
}
use asmgen.Base.Text.{Bytes}
use asmgen.Simd.Pointwise.{length-map}
use asmgen.Simd.Lanes.{zip, pairwise, lanes16, bytes16, lanes32, bytes32, byte_at}

abbrev pub total : List ℕ → ℕ
total [] = 0
total (x ∷ xs) = x + total xs

pub total-append : (xs ys : List ℕ) → total (xs ++ ys) ≡ total xs + total ys
total-append [] ys = omega arith
total-append (x ∷ xs) ys = omega (arith, total-append xs ys)

pub lanes32-bytes32 : (xs : List ℕ) → lanes32 (bytes32 xs) ≡ map (λ x. x % 2 ^ 32) xs
unfolding lanes32 bytes32
lanes32-bytes32 [] = refl
lanes32-bytes32 (x ∷ xs) = ap₂ (λ y l. y ∷ l) (omega arith) (lanes32-bytes32 xs)

pub lanes16-bytes16 : (xs : List ℕ) → lanes16 (bytes16 xs) ≡ map (λ x. x % 65536) xs
unfolding lanes16 bytes16
lanes16-bytes16 [] = refl
lanes16-bytes16 (x ∷ xs) = ap₂ (λ y l. y ∷ l) (omega arith) (lanes16-bytes16 xs)

pub total-map_mod : (xs : List ℕ) → total (map (λ x. x % 2 ^ 32) xs) % 2 ^ 32 ≡ total xs % 2 ^ 32
total-map_mod [] = refl
total-map_mod (x ∷ xs) = omega (arith, total-map_mod xs)

pub map_mod-small : (xs : List ℕ) → All (λ x. x < 65536) xs → map (λ x. x % 65536) xs ≡ xs
map_mod-small [] h = refl
map_mod-small (x ∷ xs) h = ap₂ (λ y l. y ∷ l) (omega (arith, h.0)) (map_mod-small xs h.1)

pub total-pairwise : (n : ℕ) (xs : List ℕ) → length xs ≡ 2 * n → total (pairwise xs) ≡ total xs
unfolding pairwise
total-pairwise n [] h = refl
total-pairwise n (x ∷ []) h = absurd (omega arith)
total-pairwise zero (x ∷ y ∷ xs) h = absurd (omega arith)
total-pairwise (suc n) (x ∷ y ∷ xs) h = omega (arith, total-pairwise n xs (omega arith))

pub length-pairwise : (n : ℕ) (xs : List ℕ) → length xs ≡ 2 * n → length (pairwise xs) ≡ n
unfolding pairwise
length-pairwise zero [] h = refl
length-pairwise (suc n) [] h = absurd (omega arith)
length-pairwise n (x ∷ []) h = absurd (omega arith)
length-pairwise zero (x ∷ y ∷ xs) h = absurd (omega arith)
length-pairwise (suc n) (x ∷ y ∷ xs) h = omega (arith, length-pairwise n xs (omega arith))

pub pairwise-bound :
    (b : ℕ) (xs : List ℕ) → All (λ x. x ≤ b) xs → All (λ x. x ≤ 2 * b) (pairwise xs)
unfolding pairwise
pairwise-bound b [] h = tt
pairwise-bound b (x ∷ []) h = tt
pairwise-bound b (x ∷ y ∷ xs) h = (omega (arith, h.0, h.1.0), pairwise-bound b xs h.1.1)

pub All-weaken : (b c : ℕ) (xs : List ℕ) → b < c → All (λ x. x ≤ b) xs → All (λ x. x < c) xs
All-weaken b c [] h a = tt
All-weaken b c (x ∷ xs) h a = (omega (arith, a.0), All-weaken b c xs h a.1)

pub total-zip :
    (xs ys : List ℕ)
    → length xs ≡ length ys
    → total (zip (λ x y. x + y) xs ys) ≡ total xs + total ys
unfolding zip
total-zip [] [] h = refl
total-zip [] (y ∷ ys) h = absurd (omega arith)
total-zip (x ∷ xs) [] h = absurd (omega arith)
total-zip (x ∷ xs) (y ∷ ys) h = omega (arith, total-zip xs ys (omega arith))

pub length-zip :
    (f : ℕ → ℕ → ℕ) (xs ys : List ℕ) → length xs ≡ length ys → length (zip f xs ys) ≡ length xs
unfolding zip
length-zip f [] ys h = refl
length-zip f (x ∷ xs) [] h = absurd (omega arith)
length-zip f (x ∷ xs) (y ∷ ys) h = omega (arith, length-zip f xs ys (omega arith))

-- The sum of four lanes as the kernels make it.
abbrev pub four : List ℕ → ℕ
four xs = (((byte_at xs 0 + byte_at xs 1) % 2 ^ 32 + byte_at xs 2) % 2 ^ 32 + byte_at xs 3) % 2 ^ 32

pub four_lem : (xs : List ℕ) → length xs ≡ 4 → four xs ≡ total xs % 2 ^ 32
four_lem [] h = absurd (omega arith)
four_lem (a ∷ []) h = absurd (omega arith)
four_lem (a ∷ b ∷ []) h = absurd (omega arith)
four_lem (a ∷ b ∷ c ∷ []) h = absurd (omega arith)
four_lem (a ∷ b ∷ c ∷ d ∷ []) h = omega arith
four_lem (a ∷ b ∷ c ∷ d ∷ e ∷ xs) h = absurd (omega arith)

-- The two widening sums of neighbours on 16 bytes.
abbrev pub quarters : List ℕ → Bytes
quarters w = bytes32 (pairwise (lanes16 (bytes16 (pairwise w))))

pub lanes32-quarters :
    (w : List ℕ)
    → All (λ x. x ≤ 255) w
    → lanes32 (quarters w) ≡ map (λ x. x % 2 ^ 32) (pairwise (pairwise w))
lanes32-quarters w h =
    let small : lanes16 (bytes16 (pairwise w)) ≡ pairwise w =
      lanes16-bytes16 (pairwise w)
      ∙ map_mod-small (pairwise w)
          (All-weaken 510 65536 (pairwise w) (omega arith) (pairwise-bound 255 w h)) in
    lanes32-bytes32 (pairwise (lanes16 (bytes16 (pairwise w))))
    ∙ ap (λ l. map (λ x. x % 2 ^ 32) (pairwise l)) small

pub total-quarters :
    (w : List ℕ)
    → length w ≡ 16
    → All (λ x. x ≤ 255) w
    → total (lanes32 (quarters w)) % 2 ^ 32 ≡ total w % 2 ^ 32
total-quarters w e h =
    ap (λ l. total l % 2 ^ 32) (lanes32-quarters w h)
    ∙ (total-map_mod (pairwise (pairwise w))
        ∙ ap (λ t. t % 2 ^ 32)
            (total-pairwise 4 (pairwise w) (length-pairwise 8 w e) ∙ total-pairwise 8 w e))

pub length-quarters :
    (w : List ℕ) → length w ≡ 16 → All (λ x. x ≤ 255) w → length (lanes32 (quarters w)) ≡ 4
length-quarters w e h =
    ap length (lanes32-quarters w h)
    ∙ (length-map _ (pairwise (pairwise w))
        ∙ length-pairwise 4 (pairwise w) (length-pairwise 8 w e))
