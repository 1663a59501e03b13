-- ===== src/Simd/Adler32/Sums.antt =====
-- examples/wasm/adler32/main.go: the sums of a block, and the checksum's running sums.
use asmgen.Base.{
  ℕ, ◌+◌, ◌*◌, ◌%◌, ◌^◌, ◌≤◌, ◌≡◌, refl, List, [], ◌∷◌, ◌++◌, arith, ap, ◌∙◌, sym, length, All, map,
}
use asmgen.Base.Text.{Bytes}
use asmgen.Simd.Machine.{Memory, bytes_at}
use asmgen.Simd.Blocks.{length-bytes_at}
use asmgen.Simd.Lanes.{zip, pairwise, lanes16, bytes16, lanes32, bytes32, take, drop}
use asmgen.Simd.Pointwise.{length-map}
use asmgen.Simd.Totals.{
  total, quarters, four, total-quarters, length-quarters, four_lem, lanes16-bytes16,
  lanes32-bytes32, map_mod-small, total-map_mod, total-pairwise, length-pairwise, total-zip,
  length-zip, All-weaken,
}
use asmgen.Simd.Adler32.{coef}

-- The two sums of Adler-32 over some bytes, before they are reduced.
abbrev pub sum_a : ℕ → Bytes → ℕ
sum_a a [] = a
sum_a a (x ∷ v) = sum_a (a + x) v

abbrev pub sum_b : ℕ → ℕ → Bytes → ℕ
sum_b a b [] = b
sum_b a b (x ∷ v) = sum_b (a + x) (b + (a + x)) v

pub sum_a-append : (a : ℕ) (xs ys : Bytes) → sum_a a (xs ++ ys) ≡ sum_a (sum_a a xs) ys
sum_a-append a [] ys = refl
sum_a-append a (x ∷ xs) ys = sum_a-append (a + x) xs ys

pub sum_b-append :
    (a b : ℕ) (xs ys : Bytes) → sum_b a b (xs ++ ys) ≡ sum_b (sum_a a xs) (sum_b a b xs) ys
sum_b-append a b [] ys = refl
sum_b-append a b (x ∷ xs) ys = sum_b-append (a + x) (b + (a + x)) xs ys

-- The products of 8 bytes with 8 weights, and their sums of neighbours.
abbrev pub low : Bytes → List ℕ
low v = zip (λ x y. x * y) (take 8 v) (take 8 coef)

abbrev pub high : Bytes → List ℕ
high v = zip (λ x y. x * y) (drop 8 v) (drop 8 coef)

abbrev pub halves : List ℕ → Bytes
halves w = bytes32 (pairwise (lanes16 (bytes16 w)))

abbrev pub weighted : Bytes → Bytes
weighted v = bytes32 (zip (λ x y. x + y) (lanes32 (halves (low v))) (lanes32 (halves (high v))))

module _ (w : List ℕ) (e : length w ≡ 8) (h : All (λ x. x ≤ 4080) w) where
  lanes32-halves : lanes32 (halves w) ≡ map (λ x. x % 2 ^ 32) (pairwise w)
  lanes32-halves =
      lanes32-bytes32 (pairwise (lanes16 (bytes16 w)))
      ∙ ap (λ l. map (λ x. x % 2 ^ 32) (pairwise l))
          (lanes16-bytes16 w ∙ map_mod-small w (All-weaken 4080 65536 w (omega arith) h))

  total-halves : total (lanes32 (halves w)) % 2 ^ 32 ≡ total w % 2 ^ 32
  total-halves =
      ap (λ l. total l % 2 ^ 32) lanes32-halves
      ∙ (total-map_mod (pairwise w) ∙ ap (λ t. t % 2 ^ 32) (total-pairwise 4 w e))

  length-halves : length (lanes32 (halves w)) ≡ 4
  length-halves = ap length lanes32-halves ∙ (length-map _ (pairwise w) ∙ length-pairwise 4 w e)

module _ (m : Memory) (at : ℕ) where
  length-low : length (low (bytes_at m at 16)) ≡ 8
  unfolding bytes_at take zip
  length-low = refl

  length-high : length (high (bytes_at m at 16)) ≡ 8
  unfolding bytes_at drop zip
  length-high = refl

  low-bound : All (λ x. x ≤ 4080) (low (bytes_at m at 16))
  unfolding bytes_at take zip
  low-bound = omega arith

  high-bound : All (λ x. x ≤ 4080) (high (bytes_at m at 16))
  unfolding bytes_at drop zip
  high-bound = omega arith

  byte_bound : All (λ x. x ≤ 255) (bytes_at m at 16)
  unfolding bytes_at
  byte_bound = omega arith

  -- What the block adds to the second sum.
  pub four-weighted :
      four (lanes32 (weighted (bytes_at m at 16)))
      ≡ (total (low (bytes_at m at 16)) + total (high (bytes_at m at 16))) % 2 ^ 32
  four-weighted =
      let v = bytes_at m at 16 in
      let a = lanes32 (halves (low v)) in
      let b = lanes32 (halves (high v)) in
      let la : length a ≡ 4 = length-halves (low v) length-low low-bound in
      let lb : length b ≡ 4 = length-halves (high v) length-high high-bound in
      let sum = zip (λ x y. x + y) a b in
      let lanes : lanes32 (weighted v) ≡ map (λ x. x % 2 ^ 32) sum = lanes32-bytes32 sum in
      let len : length (lanes32 (weighted v)) ≡ 4 =
        ap length lanes ∙ (length-map _ sum ∙ (length-zip (λ x y. x + y) a b (la ∙ sym lb) ∙ la)) in
      omega (
        arith,
        four_lem (lanes32 (weighted v)) len,
        ap total lanes,
        total-map_mod sum,
        total-zip a b (la ∙ sym lb),
        total-halves (low v) length-low low-bound,
        total-halves (high v) length-high high-bound,
      )

  pub four-quarters :
      four (lanes32 (quarters (bytes_at m at 16))) ≡ total (bytes_at m at 16) % 2 ^ 32
  four-quarters =
      let v = bytes_at m at 16 in
      four_lem (lanes32 (quarters v)) (length-quarters v (length-bytes_at m at 16) byte_bound)
      ∙ total-quarters v (length-bytes_at m at 16) byte_bound

  -- The sums over a block at once.
  pub sum_a-block : (a : ℕ) → sum_a a (bytes_at m at 16) ≡ a + total (bytes_at m at 16)
  unfolding bytes_at
  sum_a-block a = omega arith

  pub sum_b-block :
      (a b : ℕ)
      → sum_b a b (bytes_at m at 16)
        ≡ b + a * 16 + (total (low (bytes_at m at 16)) + total (high (bytes_at m at 16)))
  unfolding bytes_at take drop zip
  sum_b-block a b = omega arith
