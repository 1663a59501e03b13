-- ===== src/Simd/Stores.antt =====
-- A memory after stores.
use asmgen.Base.{
  ℕ, zero, suc, ◌+◌, ◌%◌, ◌≤◌, ◌<◌, ◌≡◌, refl, arith, [], ◌∷◌, ◌++◌, ap₂, ◌∙◌, length, All, ◌⊎◌,
  inl,
}
use asmgen.Base.Text.{Bytes}
use asmgen.Simd.Machine.{Memory, bytes_at, write_byte, write_bytes}

-- The memory with these bytes from address a on.
abbrev pub stored : Memory → ℕ → Bytes → Memory
stored m a v = record { size = m.size; byte = write_bytes m.byte a v }

pub write_bytes-append :
    (f : ℕ → ℕ) (a : ℕ) (xs ys : Bytes)
    → write_bytes f a (xs ++ ys) ≡ write_bytes (write_bytes f a xs) (a + length xs) ys
unfolding write_bytes
write_bytes-append f a [] ys = let e : a + 0 ≡ a = omega arith in rw e refl
write_bytes-append f a (x ∷ xs) ys =
    let e : a + suc (length xs) ≡ a + 1 + length xs = omega arith in
    rw e (write_bytes-append (write_byte f a x) (a + 1) xs ys)

-- Addresses outside the n from a on.
abbrev pub Outside : ℕ → ℕ → ℕ → Type 0
Outside a n k = (k < a) ⊎ (a + n ≤ k)

write_byte-other : (f : ℕ → ℕ) (a x k : ℕ) → (k < a) ⊎ (a < k) → write_byte f a x k ≡ f k
write_byte-other f a x k h = ground arith

pub write_bytes-Outside :
    (f : ℕ → ℕ) (a : ℕ) (v : Bytes) (k : ℕ) → Outside a (length v) k → write_bytes f a v k ≡ f k
unfolding write_bytes
write_bytes-Outside f a [] k h = refl
write_bytes-Outside f a (x ∷ v) k h =
    write_bytes-Outside (write_byte f a x) (a + 1) v k (ground arith)
    ∙ write_byte-other f a x k (ground arith)

-- Bytes read elsewhere are as they were.
pub bytes_at-stored :
    (m : Memory) (a : ℕ) (v : Bytes) (b n : ℕ)
    → (b + n ≤ a) ⊎ (a + length v ≤ b)
    → bytes_at (stored m a v) b n ≡ bytes_at m b n
unfolding bytes_at
bytes_at-stored m a v b zero h = refl
bytes_at-stored m a v b (suc n) h =
    ap₂ (λ x l. x % 256 ∷ l) (write_bytes-Outside m.byte a v b (ground arith))
      (bytes_at-stored m a v (b + 1) n (ground arith))

-- What was stored is read again.
pub stored-bytes_at :
    (m : Memory) (a : ℕ) (v : Bytes)
    → All (λ x. x < 256) v
    → bytes_at (stored m a v) a (length v) ≡ v
unfolding bytes_at write_bytes
stored-bytes_at m a [] h = refl
stored-bytes_at m a (x ∷ v) h =
    let first : write_bytes (write_byte m.byte a x) (a + 1) v a ≡ write_byte m.byte a x a =
      write_bytes-Outside (write_byte m.byte a x) (a + 1) v a (inl (omega arith)) in
    let own : write_byte m.byte a x a ≡ x = ground arith in
    ap₂ (λ y l. y ∷ l) (omega (arith, first, own, h.0))
      (stored-bytes_at (record { size = m.size; byte = write_byte m.byte a x }) (a + 1) v h.1)

-- n bytes from `src` on and n' from `dst` on do not meet.
abbrev pub Apart : ℕ → ℕ → ℕ → ℕ → Type 0
Apart src n dst n' = (src + n ≤ dst) ⊎ (dst + n' ≤ src)

-- The memory m' is m but for the bytes v from a on.
pub record Stores (m : Memory) (a : ℕ) (v : Bytes) (m' : Memory) : Type 0 where
  pub holds : bytes_at m' a (length v) ≡ v
  pub keeps : (k : ℕ) → Outside a (length v) k → m'.byte k ≡ m.byte k
  pub size : m'.size ≡ m.size

pub stored-Stores :
    (m : Memory) (a : ℕ) (v : Bytes) → All (λ x. x < 256) v → Stores m a v (stored m a v)
stored-Stores m a v h = record {
  holds = stored-bytes_at m a v h;
  keeps = λ k o. write_bytes-Outside m.byte a v k o;
  size = refl;
}
