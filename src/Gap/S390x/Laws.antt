-- ===== src/Gap/S390x/Laws.antt =====
-- The s390x encoders: the registers they accept, and that the operands are read back from a word.
use asmgen.Base.{ℕ, ◌+◌, ◌*◌, ◌/◌, ◌%◌, ◌^◌, ◌<◌, ◌≤◌, ◌≡◌, refl, arith, bit_and, ◌<<<◌, ◌|||◌}
use asmgen.Base.Bits.{or_shifted, bit_or_low}
use asmgen.Base.Int.{ℤ, pos}
use asmgen.Base.Text.{codes}
use asmgen.Base.Panics.{ok, ◌>>=◌, >>=-eq-ok}
use asmgen.Gap.Registers.{IsRegister, reg-ok, reg_of}
use asmgen.Gap.S390x.Format.{vreg, vrrc, vrre, vrra, vrrc_word, vrre_word, vrra_word}
use asmgen.Gap.S390x.Fields.{rxb_sum, vrrc_sum, vrre_sum, vrra_sum, vrrc_mask, vrre_mask, vrra_mask}

vreg-ok : (r : ℤ) (n : ℕ) → vreg r ≡ ok n → IsRegister 31 r n
vreg-ok r n e = reg-ok (codes "s390x") (codes "vector") r 31 n (unfold vreg in e)

-- A vector register: four bits at one place and the top bit in RXB.
abbrev pub vector_at : ℕ → ℕ → ℕ → ℕ
vector_at low high w = w / 2 ^ low % 16 + w / 2 ^ high % 2 * 16

-- The opcodes that the entries state, as sums.
vrrc_bits :
    (op m5 : ℕ)
    → op < 256
    → m5 < 16
    → (0xe7 <<< 40 ||| m5 <<< 16 ||| 2 <<< 12 ||| op)
      ≡ 0xe7 * 2 ^ 40 + m5 * 2 ^ 16 + 2 * 2 ^ 12 + op
vrrc_bits op m5 ho h5 =
    let s0 = 0xe7 * 2 ^ 40 in
    let s1 = s0 + m5 * 2 ^ 16 in
    let s2 = s1 + 2 * 2 ^ 12 in
    rw
      (
        or_shifted 16 4 s0 m5 (omega arith) (omega arith) (omega arith),
        or_shifted 12 4 s1 2 (omega arith) (omega arith) (omega arith),
      )
      (bit_or_low 8 s2 op (omega arith) ho)

vrre_bits :
    (op m5 : ℕ)
    → op < 256
    → m5 < 16
    → (0xe7 <<< 40 ||| 2 <<< 24 ||| m5 <<< 16 ||| op)
      ≡ 0xe7 * 2 ^ 40 + 2 * 2 ^ 24 + m5 * 2 ^ 16 + op
vrre_bits op m5 ho h5 =
    let s0 = 0xe7 * 2 ^ 40 in
    let s1 = s0 + 2 * 2 ^ 24 in
    let s2 = s1 + m5 * 2 ^ 16 in
    rw
      (
        or_shifted 24 4 s0 2 (omega arith) (omega arith) (omega arith),
        or_shifted 16 4 s1 m5 (omega arith) (omega arith) (omega arith),
      )
      (bit_or_low 8 s2 op (omega arith) ho)

-- A word that vrrc returns, for an opcode below 256, the float32 format 2 and a mode below 16, fits
-- 48 bits, its split fields read back as the three registers, and its masked bits are the opcode,
-- the format and the mode.
pub vrrc_decodes :
    (op m : ℕ) (v1 v2 v3 : ℤ) (w : ℕ)
    → op < 256
    → m < 16
    → vrrc op 2 m v1 v2 v3 ≡ ok w
    → (w < 2 ^ 48)
      × (v1 ≡ pos (vector_at 36 11 w))
      × (v2 ≡ pos (vector_at 32 10 w))
      × (v3 ≡ pos (vector_at 28 9 w))
      × (bit_and w 0xff000ffff0ff ≡ (0xe7 <<< 40 ||| m <<< 16 ||| 2 <<< 12 ||| op))
vrrc_decodes op m v1 v2 v3 w ho hm e =
    let by : (vreg v1 >>= λ v1'.
    vreg v2 >>= λ v2'. vreg v3 >>= λ v3'. ok (vrrc_word op 2 m v1' v2' v3'))
        ≡ ok w =
      unfold vrrc in e in
    let (v1', q1, e1) = >>=-eq-ok (vreg v1) _ by in
    let (v2', q2, e2) = >>=-eq-ok (vreg v2) _ e1 in
    let (v3', q3, e3) = >>=-eq-ok (vreg v3) _ e2 in
    let (p1, h1) = vreg-ok v1 v1' q1 in
    let (p2, h2) = vreg-ok v2 v2' q2 in
    let (p3, h3) = vreg-ok v3 v3' q3 in
    let same : vrrc_word op 2 m v1' v2' v3' ≡ w = cc in
    let sum =
      vrrc_sum op 2 m v1' v2' v3' ho (omega arith) hm (omega arith) (omega arith) (omega arith) in
    let top = rxb_sum v1' v2' v3' 0 (omega arith) (omega arith) (omega arith) (omega arith) in
    let fits : w < 2 ^ 48 = omega (arith, sum, top, same) in
    let r1 : vector_at 36 11 w ≡ v1' = omega (arith, sum, top, same) in
    let r2 : vector_at 32 10 w ≡ v2' = omega (arith, sum, top, same) in
    let r3 : vector_at 28 9 w ≡ v3' = omega (arith, sum, top, same) in
    (fits, cc, cc, cc, omega (arith, sum, top, same, vrrc_bits op m ho hm, vrrc_mask w fits))

-- A word that vrre returns, for an opcode below 256, the float32 format 2 and a mode below 16, fits
-- 48 bits, its split fields read back as the four registers, and its masked bits are the opcode,
-- the format and the mode.
pub vrre_decodes :
    (op m : ℕ) (v1 v2 v3 v4 : ℤ) (w : ℕ)
    → op < 256
    → m < 16
    → vrre op 2 m v1 v2 v3 v4 ≡ ok w
    → (w < 2 ^ 48)
      × (v1 ≡ pos (vector_at 36 11 w))
      × (v2 ≡ pos (vector_at 32 10 w))
      × (v3 ≡ pos (vector_at 28 9 w))
      × (v4 ≡ pos (vector_at 12 8 w))
      × (bit_and w 0xff000fff00ff ≡ (0xe7 <<< 40 ||| 2 <<< 24 ||| m <<< 16 ||| op))
vrre_decodes op m v1 v2 v3 v4 w ho hm e =
    let by : (vreg v1 >>= λ v1'.
    vreg v2 >>= λ v2'. vreg v3 >>= λ v3'. vreg v4 >>= λ v4'. ok (vrre_word op 2 m v1' v2' v3' v4'))
        ≡ ok w =
      unfold vrre in e in
    let (v1', q1, e1) = >>=-eq-ok (vreg v1) _ by in
    let (v2', q2, e2) = >>=-eq-ok (vreg v2) _ e1 in
    let (v3', q3, e3) = >>=-eq-ok (vreg v3) _ e2 in
    let (v4', q4, e4) = >>=-eq-ok (vreg v4) _ e3 in
    let (p1, h1) = vreg-ok v1 v1' q1 in
    let (p2, h2) = vreg-ok v2 v2' q2 in
    let (p3, h3) = vreg-ok v3 v3' q3 in
    let (p4, h4) = vreg-ok v4 v4' q4 in
    let same : vrre_word op 2 m v1' v2' v3' v4' ≡ w = cc in
    let sum =
      vrre_sum op 2 m v1' v2' v3' v4' ho (omega arith) hm (omega arith) (omega arith) (omega arith)
        (omega arith) in
    let top = rxb_sum v1' v2' v3' v4' (omega arith) (omega arith) (omega arith) (omega arith) in
    let fits : w < 2 ^ 48 = omega (arith, sum, top, same) in
    let r1 : vector_at 36 11 w ≡ v1' = omega (arith, sum, top, same) in
    let r2 : vector_at 32 10 w ≡ v2' = omega (arith, sum, top, same) in
    let r3 : vector_at 28 9 w ≡ v3' = omega (arith, sum, top, same) in
    let r4 : vector_at 12 8 w ≡ v4' = omega (arith, sum, top, same) in
    (fits, cc, cc, cc, cc, omega (arith, sum, top, same, vrre_bits op m ho hm, vrre_mask w fits))

-- A word that vrra returns, for an opcode below 256, the float32 format 2 and a mode below 16, fits
-- 48 bits, its split fields read back as the two registers, and its masked bits are the opcode,
-- the format and the mode.
pub vrra_decodes :
    (op m : ℕ) (v1 v2 : ℤ) (w : ℕ)
    → op < 256
    → m < 16
    → vrra op 2 m v1 v2 ≡ ok w
    → (w < 2 ^ 48)
      × (v1 ≡ pos (vector_at 36 11 w))
      × (v2 ≡ pos (vector_at 32 10 w))
      × (bit_and w 0xff00fffff0ff ≡ (0xe7 <<< 40 ||| m <<< 16 ||| 2 <<< 12 ||| op))
vrra_decodes op m v1 v2 w ho hm e =
    let by : (vreg v1 >>= λ v1'. vreg v2 >>= λ v2'. ok (vrra_word op 2 m v1' v2')) ≡ ok w =
      unfold vrra in e in
    let (v1', q1, e1) = >>=-eq-ok (vreg v1) _ by in
    let (v2', q2, e2) = >>=-eq-ok (vreg v2) _ e1 in
    let (p1, h1) = vreg-ok v1 v1' q1 in
    let (p2, h2) = vreg-ok v2 v2' q2 in
    let same : vrra_word op 2 m v1' v2' ≡ w = cc in
    let sum = vrra_sum op 2 m v1' v2' ho (omega arith) hm (omega arith) (omega arith) in
    let top = rxb_sum v1' v2' 0 0 (omega arith) (omega arith) (omega arith) (omega arith) in
    let fits : w < 2 ^ 48 = omega (arith, sum, top, same) in
    let r1 : vector_at 36 11 w ≡ v1' = omega (arith, sum, top, same) in
    let r2 : vector_at 32 10 w ≡ v2' = omega (arith, sum, top, same) in
    (fits, cc, cc, omega (arith, sum, top, same, vrrc_bits op m ho hm, vrra_mask w fits))

-- For three vector registers 0 to 31, vrrc does return a word.
pub vrrc_accepts :
    (op f m v1 v2 v3 : ℕ)
    → v1 ≤ 31
    → v2 ≤ 31
    → v3 ≤ 31
    → vrrc op f m (pos v1) (pos v2) (pos v3) ≡ ok (vrrc_word op f m v1 v2 v3)
unfolding vrrc vreg
vrrc_accepts op f m v1 v2 v3 hv1 hv2 hv3 =
    rw
      (
        reg_of (codes "s390x") (codes "vector") 31 v1 hv1,
        reg_of (codes "s390x") (codes "vector") 31 v2 hv2,
        reg_of (codes "s390x") (codes "vector") 31 v3 hv3,
      )
      refl

-- For four vector registers 0 to 31, vrre does return a word.
pub vrre_accepts :
    (op f m v1 v2 v3 v4 : ℕ)
    → v1 ≤ 31
    → v2 ≤ 31
    → v3 ≤ 31
    → v4 ≤ 31
    → vrre op f m (pos v1) (pos v2) (pos v3) (pos v4) ≡ ok (vrre_word op f m v1 v2 v3 v4)
unfolding vrre vreg
vrre_accepts op f m v1 v2 v3 v4 hv1 hv2 hv3 hv4 =
    rw
      (
        reg_of (codes "s390x") (codes "vector") 31 v1 hv1,
        reg_of (codes "s390x") (codes "vector") 31 v2 hv2,
        reg_of (codes "s390x") (codes "vector") 31 v3 hv3,
        reg_of (codes "s390x") (codes "vector") 31 v4 hv4,
      )
      refl

-- For two vector registers 0 to 31, vrra does return a word.
pub vrra_accepts :
    (op f m v1 v2 : ℕ)
    → v1 ≤ 31
    → v2 ≤ 31
    → vrra op f m (pos v1) (pos v2) ≡ ok (vrra_word op f m v1 v2)
unfolding vrra vreg
vrra_accepts op f m v1 v2 hv1 hv2 =
    rw
      (
        reg_of (codes "s390x") (codes "vector") 31 v1 hv1,
        reg_of (codes "s390x") (codes "vector") 31 v2 hv2,
      )
      refl
