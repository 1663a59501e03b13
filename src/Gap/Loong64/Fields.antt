-- ===== src/Gap/Loong64/Fields.antt =====
-- The loong64 words as sums of their fields, and what each entry's mask keeps of a word.
use asmgen.Base.{ℕ, ◌+◌, ◌*◌, ◌/◌, ◌%◌, ◌^◌, ◌<◌, ◌≡◌, ◌∙◌, arith, bit_and}
use asmgen.Base.Bits.{bit_and_ones, bit_and_cut, bit_and-zero, bit_or-zero, or_shifted, bit_or_low}
use asmgen.Gap.Loong64.Format.{r4_word, ldrepl_word, csr_word}

pub r4_sum :
    (base d j k a : ℕ)
    → base % 2 ^ 20 ≡ 0
    → base < 2 ^ 32
    → d < 32
    → j < 32
    → k < 32
    → a < 32
    → r4_word base d j k a ≡ base + a * 2 ^ 15 + k * 2 ^ 10 + j * 2 ^ 5 + d
unfolding r4_word
r4_sum base d j k a clear hb hd hj hk ha =
    let s1 = base + a * 2 ^ 15 in
    let s2 = s1 + k * 2 ^ 10 in
    let s3 = s2 + j * 2 ^ 5 in
    rw
      (
        or_shifted 15 5 base a (omega arith) (omega arith) (omega arith),
        or_shifted 10 5 s1 k (omega arith) (omega arith) (omega arith),
        or_shifted 5 5 s2 j (omega arith) (omega arith) (omega arith),
      )
      (bit_or_low 5 s3 d (omega arith) (omega arith))

pub ldrepl_sum :
    (base d rj units : ℕ)
    → base % 2 ^ 19 ≡ 0
    → base < 2 ^ 32
    → d < 32
    → rj < 32
    → ldrepl_word base d rj units ≡ base + units % 2 ^ 9 * 2 ^ 10 + rj * 2 ^ 5 + d
unfolding ldrepl_word
ldrepl_sum base d rj units clear hb hd hj =
    let s1 = base + units % 2 ^ 9 * 2 ^ 10 in
    let s2 = s1 + rj * 2 ^ 5 in
    rw
      (
        bit_and_ones 9 units,
        or_shifted 10 9 base (units % 2 ^ 9) (omega arith) (omega arith) (omega arith),
        or_shifted 5 5 s1 rj (omega arith) (omega arith) (omega arith),
      )
      (bit_or_low 5 s2 d (omega arith) (omega arith))

-- csrrd and csrwr have the register field of the mask in their opcode, and leave it at 0.
pub csr_sum :
    (base rd num : ℕ)
    → base / 2 ^ 10 % 2 ^ 14 ≡ 0
    → base % 2 ^ 5 ≡ 0
    → base < 2 ^ 32
    → rd < 32
    → num < 2 ^ 14
    → csr_word base rd 0 num ≡ base + num * 2 ^ 10 + rd
unfolding csr_word
csr_sum base rd num clear low hb hd hn =
    let s1 = base + num * 2 ^ 10 in
    rw (or_shifted 10 14 base num (omega arith) (omega arith) (omega arith), bit_or-zero s1)
      (bit_or_low 5 s1 rd (omega arith) (omega arith))

pub csrxchg_sum :
    (rd rj num : ℕ)
    → rd < 32
    → rj < 32
    → num < 2 ^ 14
    → csr_word 0x04000000 rd rj num ≡ 0x04000000 + num * 2 ^ 10 + rj * 2 ^ 5 + rd
unfolding csr_word
csrxchg_sum rd rj num hd hj hn =
    let s1 = 0x04000000 + num * 2 ^ 10 in
    let s2 = s1 + rj * 2 ^ 5 in
    rw
      (
        or_shifted 10 14 0x04000000 num (omega arith) (omega arith) (omega arith),
        or_shifted 5 5 s1 rj (omega arith) (omega arith) (omega arith),
      )
      (bit_or_low 5 s2 rd (omega arith) (omega arith))

module _ (w : ℕ) (h : w < 2 ^ 32) where
  pub r4_mask : bit_and w 0xfff00000 ≡ w / 2 ^ 20 * 2 ^ 20
  r4_mask =
      bit_and_cut 20 w 0xfff 0 (omega arith)
      ∙ omega (arith, bit_and_ones 12 (w / 2 ^ 20), bit_and-zero (w % 2 ^ 20))

  pub ldrepl_mask : bit_and w 0xfff80000 ≡ w / 2 ^ 19 * 2 ^ 19
  ldrepl_mask =
      bit_and_cut 19 w 0x1fff 0 (omega arith)
      ∙ omega (arith, bit_and_ones 13 (w / 2 ^ 19), bit_and-zero (w % 2 ^ 19))

  pub csr_mask : bit_and w 0xff0003e0 ≡ w / 2 ^ 24 * 2 ^ 24 + w / 2 ^ 5 % 2 ^ 5 * 2 ^ 5
  csr_mask =
      bit_and_cut 24 w 0xff 0x3e0 (omega arith)
      ∙ rw (bit_and_cut 5 (w % 2 ^ 24) 0x1f 0 (omega arith)) (
          omega (
            arith,
            bit_and_ones 8 (w / 2 ^ 24),
            bit_and_ones 5 (w % 2 ^ 24 / 2 ^ 5),
            bit_and-zero (w % 2 ^ 24 % 2 ^ 5),
          ))

  pub csrxchg_mask : bit_and w 0xff000000 ≡ w / 2 ^ 24 * 2 ^ 24
  csrxchg_mask =
      bit_and_cut 24 w 0xff 0 (omega arith)
      ∙ omega (arith, bit_and_ones 8 (w / 2 ^ 24), bit_and-zero (w % 2 ^ 24))

  pub csrxchg_not_mask : bit_and w 0xff0003c0 ≡ w / 2 ^ 24 * 2 ^ 24 + w / 2 ^ 6 % 2 ^ 4 * 2 ^ 6
  csrxchg_not_mask =
      bit_and_cut 24 w 0xff 0x3c0 (omega arith)
      ∙ rw (bit_and_cut 6 (w % 2 ^ 24) 0xf 0 (omega arith)) (
          omega (
            arith,
            bit_and_ones 8 (w / 2 ^ 24),
            bit_and_ones 4 (w % 2 ^ 24 / 2 ^ 6),
            bit_and-zero (w % 2 ^ 24 % 2 ^ 6),
          ))
