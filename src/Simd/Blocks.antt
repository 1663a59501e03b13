-- ===== src/Simd/Blocks.antt =====
-- Runs of 16 bytes, as the kernels of examples/wasm scan a buffer.
use asmgen.Base.{
  ℕ, zero, suc, ◌+◌, ◌*◌, ◌%◌, ◌^◌, ◌≤◌, ◌<◌, ◌≡◌, refl, arith, Bool, true, false, [], ◌∷◌, ◌++◌,
  ap, ltb, leb, ◌==◌, if◌then◌else◌, ◌-◌, length, All,
}
use asmgen.Base.Text.{Bytes}
use asmgen.Simd.Lanes.{repeat}
use asmgen.Simd.Machine.{Memory, bytes_at, signed32, truth, Outcome}

-- A block count that a caller passes: a negative one is none.
abbrev pub count : ℕ → ℕ
count n = if ltb n (2 ^ 31) then n else 0

-- The memory from `a` on holds n bytes, and no address exceeds 32 bits.
abbrev pub Holds : Memory → ℕ → ℕ → Type 0
Holds m a n = (a + n ≤ m.size) × (m.size ≤ 2 ^ 32)

pub bytes_at-add :
    (m : Memory) (j k a : ℕ) → bytes_at m a (j + k) ≡ bytes_at m a j ++ bytes_at m (a + j) k
unfolding bytes_at
bytes_at-add m zero k a =
    let e : 0 + k ≡ k = omega arith in let e' : a + 0 ≡ a = omega arith in rw (e, e') refl
bytes_at-add m (suc j) k a =
    let e : suc j + k ≡ suc (j + k) = omega arith in
    let e' : a + suc j ≡ a + 1 + j = omega arith in
    rw (e, e') (ap (λ l. (m.byte a % 256) ∷ l) (bytes_at-add m j k (a + 1)))

-- The loops' test, in a round and behind the last one.
pub within :
    (i n : ℕ) → i < count n → n < 2 ^ 32 → (truth (leb (signed32 n) (signed32 i)) == 0) ≡ true
within i n h k = ground arith

pub past : (n : ℕ) → n < 2 ^ 32 → (truth (leb (signed32 n) (signed32 (count n))) == 0) ≡ false
past n k = ground arith

-- The address of block i, and that it may be loaded.
pub address :
    (base i n size : ℕ)
    → i < n
    → base + 16 * n ≤ size
    → size ≤ 2 ^ 32
    → (base + i * 16 % 2 ^ 32) % 2 ^ 32 + 0 ≡ base + 16 * i
address base i n size h k l = omega arith

pub loadable :
    (base i n size : ℕ) → i < n → base + 16 * n ≤ size → ltb size (base + 16 * i + 16) ≡ false
loadable base i n size h k = ground arith

-- The place of byte k of block i.
pub place :
    (base i n k t size : ℕ)
    → i < n
    → base + 16 * n ≤ size
    → size ≤ 2 ^ 32
    → t ≡ k
    → k < 16
    → (i * 16 % 2 ^ 32 + t) % 2 ^ 32 ≡ 16 * i + k
place base i n k t size h l l' e k_16 = omega arith

pub advance : (i n : ℕ) → i < count n → (i + 1) % 2 ^ 32 ≡ suc i
advance i n h = ground arith

-- Block i, and the bytes of the n blocks from the i-th on.
abbrev pub block_at : Memory → ℕ → ℕ → Bytes
block_at m base i = bytes_at m (base + 16 * i) 16

abbrev pub rest_at : Memory → ℕ → ℕ → ℕ → Bytes
rest_at m base n i = bytes_at m (base + 16 * i) (16 * (count n - i))

pub rest-step :
    (m : Memory) (base n i : ℕ)
    → i < count n
    → rest_at m base n i ≡ block_at m base i ++ rest_at m base n (suc i)
rest-step m base n i h =
    let e : 16 * (count n - i) ≡ 16 + 16 * (count n - suc i) = omega arith in
    let e' : base + 16 * suc i ≡ base + 16 * i + 16 = omega arith in
    rw (e, e') (bytes_at-add m 16 (16 * (count n - suc i)) (base + 16 * i))

pub rest-end : (m : Memory) (base n : ℕ) → rest_at m base n (count n) ≡ []
unfolding bytes_at
rest-end m base n = let e : 16 * (count n - count n) ≡ 0 = omega arith in rw e refl

pub rest-start : (m : Memory) (base n : ℕ) → rest_at m base n 0 ≡ bytes_at m base (16 * count n)
rest-start m base n =
    let e : base + 16 * 0 ≡ base = omega arith in
    let e' : 16 * (count n - 0) ≡ 16 * count n = omega arith in rw (e, e') refl

pub length-bytes_at : (m : Memory) (a n : ℕ) → length (bytes_at m a n) ≡ n
unfolding bytes_at
length-bytes_at m a zero = refl
length-bytes_at m a (suc n) = ground (arith, length-bytes_at m (a + 1) n)

pub bytes_at-IsByte : (m : Memory) (a n : ℕ) → All (λ x. x < 256) (bytes_at m a n)
unfolding bytes_at
bytes_at-IsByte m a zero = tt
bytes_at-IsByte m a (suc n) = (omega arith, bytes_at-IsByte m (a + 1) n)

-- Which way a test goes.
pub goes_on :
    {b : Bool} {x : Outcome} (y : Outcome) → b ≡ true → elim b [ true ↦ x | false ↦ y ] ≡ x
goes_on y h = rw h refl

pub leaves :
    {b : Bool} {y : Outcome} (x : Outcome) → b ≡ false → elim b [ true ↦ x | false ↦ y ] ≡ y
leaves x h = rw h refl

-- The first blocks, one more.
pub first-step :
    (m : Memory) (base i : ℕ)
    → bytes_at m base (16 * suc i) ≡ bytes_at m base (16 * i) ++ block_at m base i
first-step m base i =
    let e : 16 * suc i ≡ 16 * i + 16 = omega arith in rw e (bytes_at-add m (16 * i) 16 base)

-- Block i where a block is 32 bytes, and its second half.
pub address32 :
    (base i n o size : ℕ)
    → i < n
    → base + 32 * n ≤ size
    → size ≤ 2 ^ 32
    → (base + i * 32 % 2 ^ 32) % 2 ^ 32 + o ≡ base + 32 * i + o
address32 base i n o size h k l = omega arith

pub storable32 :
    (base i n o size : ℕ)
    → i < n
    → base + 32 * n ≤ size
    → o ≤ 16
    → ltb size (base + 32 * i + o + 16) ≡ false
storable32 base i n o size h k l = ground arith

-- What a vector local holds before round i, when a round sets it to a function of its block.
abbrev pub before : (Bytes → Bytes) → Memory → ℕ → ℕ → Bytes
before f m src zero = repeat 16 0
before f m src (suc i) = f (block_at m src i)

-- Block i where a block is 8 bytes.
pub address8 :
    (base i n size : ℕ)
    → i < n
    → base + 8 * n ≤ size
    → size ≤ 2 ^ 32
    → (base + i * 8 % 2 ^ 32) % 2 ^ 32 + 0 ≡ base + 8 * i
address8 base i n size h k l = omega arith

pub storable8 :
    (base i n size : ℕ) → i < n → base + 8 * n ≤ size → ltb size (base + 8 * i + 8) ≡ false
storable8 base i n size h k = ground arith
