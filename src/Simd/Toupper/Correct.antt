-- ===== src/Simd/Toupper/Correct.antt =====
-- examples/wasm/toupper/main.go: what the kernel stores.
use asmgen.Base.{
  ℕ, zero, suc, ◌+◌, ◌-◌, ◌*◌, ◌^◌, ◌<◌, ◌≤◌, ◌≡◌, refl, [], ◌∷◌, ◌++◌, arith, some, ap, ap₂, ◌∙◌,
  sym, length, All, bit_and, leb, ◌&&◌, ◌⊎◌, map, if◌then◌else◌,
}
use asmgen.Base.Text.{codes, Bytes}
use asmgen.Simd.Pointwise.{
  zip-broadcast, zip-map, zip_self, map-map, map-congr, map-append, length-map, map-IsByte,
}
use asmgen.Simd.Rounds.{loop_runs}
use asmgen.Simd.Stores.{stored, Stores, stored-Stores, write_bytes-append, bytes_at-stored}
use asmgen.Simd.Machine.{Memory, bytes_at, write_bytes, word, vec, State, branch, exec, call, left}
use asmgen.Simd.Blocks.{
  count, Holds, block_at, within, past, length-bytes_at, bytes_at-IsByte, address, loadable,
  advance, goes_on, leaves, first-step,
}
use asmgen.Simd.Lanes.{zip, ge_s_lane, le_s_lane, sub_lane, repeat}
use asmgen.Simd.Toupper.{loop_body, program, a_vec, z_vec, d_vec}

-- The letter's upper case; any other byte is as it was.
abbrev pub upper : ℕ → ℕ
upper x = if leb b'a' x && leb x b'z' then x - 32 else x

-- The lanes that the kernel finds to be letters, and what it stores.
abbrev letters : Bytes → Bytes
letters v = zip (λ x y. bit_and x y) (zip ge_s_lane v a_vec) (zip le_s_lane v z_vec)

abbrev shouted : Bytes → Bytes
shouted v = zip sub_lane v (zip (λ x y. bit_and x y) (letters v) d_vec)

abbrev letter_lane : ℕ → ℕ
letter_lane x = bit_and (ge_s_lane x b'a') (le_s_lane x b'z')

shouted_lem : (v : Bytes) → length v ≡ 16 → All (λ x. x < 256) v → shouted v ≡ map upper v
shouted_lem v h b =
    let found : letters v ≡ map letter_lane v =
      ap₂ (zip (λ x y. bit_and x y)) (zip-broadcast ge_s_lane v b'a' h)
        (zip-broadcast le_s_lane v b'z' h)
      ∙ zip-map (λ x y. bit_and x y) (λ x. ge_s_lane x b'a') (λ x. le_s_lane x b'z') v in
    let offsets : zip (λ x y. bit_and x y) (letters v) d_vec
        ≡ map (λ x. bit_and (letter_lane x) 32) v =
      ap (λ w. zip (λ x y. bit_and x y) w d_vec) found
      ∙ (zip-broadcast (λ x y. bit_and x y) (map letter_lane v) 32 (length-map letter_lane v ∙ h)
          ∙ map-map (λ x. bit_and x 32) letter_lane v) in
    ap (λ w. zip sub_lane v w) offsets
    ∙ (zip_self sub_lane (λ x. bit_and (letter_lane x) 32) v
        ∙ map-congr (λ x. sub_lane x (bit_and (letter_lane x) 32)) upper v refl b)

-- The memory before round i.
abbrev after : Memory → ℕ → ℕ → ℕ → Memory
after m dst src i = stored m dst (map upper (bytes_at m src (16 * i)))

abbrev seen : Memory → ℕ → ℕ → Bytes
seen m src zero = repeat 16 0
seen m src (suc i) = block_at m src i

abbrev mask_seen : Memory → ℕ → ℕ → Bytes
mask_seen m src zero = repeat 16 0
mask_seen m src (suc i) = letters (block_at m src i)

abbrev at : Memory → ℕ → ℕ → ℕ → ℕ → State
at m dst src n i = record {
  stack = [];
  locals =
      (codes "dstPtr", word dst)
      ∷ (codes "srcPtr", word src)
      ∷ (codes "nBlocks", word n)
      ∷ (codes "i", word i)
      ∷ (codes "bytes", vec (seen m src i))
      ∷ (codes "mask", vec (mask_seen m src i))
      ∷ [];
  memory = after m dst src i;
}

-- The destination is not ahead of the source within it.
abbrev pub Forward : ℕ → ℕ → ℕ → Type 0
Forward dst src n = (dst ≤ src) ⊎ (src + n ≤ dst)

module _ (m : Memory) (dst src n : ℕ) (k : n < 2 ^ 32) (l : Holds m src (16 * count n))
    (l' : Holds m dst (16 * count n)) (apart : Forward dst src (16 * count n)) where
  length-written : (i : ℕ) → length (map upper (bytes_at m src (16 * i))) ≡ 16 * i
  length-written i = length-map upper (bytes_at m src (16 * i)) ∙ length-bytes_at m src (16 * i)

  unread : (i : ℕ) → i < count n → block_at (after m dst src i) src i ≡ block_at m src i
  unread i h =
      bytes_at-stored m dst (map upper (bytes_at m src (16 * i))) (src + 16 * i) 16
        (ground (arith, length-written i))

  written :
      (i : ℕ)
      → stored (after m dst src i) (dst + 16 * i) (shouted (block_at m src i))
        ≡ after m dst src (suc i)
  written i =
      let v = block_at m src i in
      let old = map upper (bytes_at m src (16 * i)) in
      let new : shouted v ≡ map upper v =
        shouted_lem v (length-bytes_at m (src + 16 * i) 16) (bytes_at-IsByte m (src + 16 * i) 16) in
      let all : map upper (bytes_at m src (16 * suc i)) ≡ old ++ map upper v =
        ap (map upper) (first-step m src i) ∙ map-append upper (bytes_at m src (16 * i)) v in
      ap (λ b. record { size = m.size; byte = b })
        (ap (λ w. write_bytes (write_bytes m.byte dst old) (dst + 16 * i) w) new
          ∙ (ap (λ a. write_bytes (write_bytes m.byte dst old) (dst + a) (map upper v))
                (sym (length-written i))
              ∙ (sym (write_bytes-append m.byte dst old (map upper v))
                  ∙ ap (write_bytes m.byte dst) (sym all))))

  one_block :
      (i : ℕ)
      → i < count n
      → (f : ℕ)
      → exec f loop_body (at m dst src n i) ≡ branch (codes "loop") (at m dst src n (suc i))
  unfolding exec
  one_block i h f =
      goes_on _ (within i n h k)
      ∙ rw
          (
            address src i (count n) m.size h l.0 l.1,
            loadable src i (count n) m.size h l.0,
            unread i h,
            address dst i (count n) m.size h l'.0 l'.1,
            loadable dst i (count n) m.size h l'.0,
            written i,
            advance i n h,
          )
          refl

  last_block :
      (f : ℕ)
      → exec f loop_body (at m dst src n (count n))
        ≡ branch (codes "done") (at m dst src n (count n))
  unfolding exec
  last_block f = leaves _ (past n k)

-- toupper(dst, src, n) stores the n blocks of 16 bytes from `src` on at `dst`, with the letters a
-- to z in upper case, and changes no other byte, for an n below 2 ^ 32, of which one that is
-- negative as a signed integer counts as 0, given that the memory holds both, that the destination
-- does not begin within the source behind its start, and that the loop may be started once more
-- than there are blocks.
pub toupper_lem :
    (m : Memory) (dst src n f : ℕ)
    → n < 2 ^ 32
    → Holds m src (16 * count n)
    → Holds m dst (16 * count n)
    → Forward dst src (16 * count n)
    → count n < f
    → (m' : Memory) × (left (call f program m (word dst ∷ word src ∷ word n ∷ [])) ≡ some m')
      × Stores m dst (map upper (bytes_at m src (16 * count n))) m'
unfolding exec bytes_at write_bytes
toupper_lem m dst src n f k l l' apart h = (
  after m dst src (count n),
  rw
      (loop_runs (codes "loop") loop_body (at m dst src n) (count n)
        (λ i i_n. record {
          reached = at m dst src n (suc i);
          runs = one_block m dst src n k l l' apart i i_n;
          meets = λ again. refl;
        })
        _ (record { runs = last_block m dst src n k l l' apart; ends = λ again. refl }) f h)
      refl,
  stored-Stores m dst _ (
      map-IsByte upper (bytes_at m src (16 * count n)) refl (bytes_at-IsByte m src (16 * count n))),
)
