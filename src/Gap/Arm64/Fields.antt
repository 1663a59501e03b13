-- ===== src/Gap/Arm64/Fields.antt =====
-- The words of the multiplications by element as sums of their fields, for one lane size at a time.
use asmgen.Base.{ℕ, ◌+◌, ◌*◌, ◌/◌, ◌%◌, ◌^◌, ◌<◌, ◌≡◌, ◌∙◌, arith, bit_and, true, false}
use asmgen.Base.Bits.{bit_and_ones, bit_and_cut, bit_and-zero, or_shifted, bit_or_low}
use asmgen.Gap.Arm64.Format.{element_word}

-- The bits that an opcode leaves clear: the registers' and the index's.
abbrev pub HasRoom : ℕ → Type 0
HasRoom base =
    (base % 2 ^ 10 ≡ 0) × (base / 2 ^ 11 % 2 ≡ 0) × (base / 2 ^ 16 % 2 ^ 6 ≡ 0) × (base < 2 ^ 32)

module _ (base vd vn m index : ℕ) (room : HasRoom base) (hd : vd < 32) (hn : vn < 32)
    (hm : m < 32) where
  pub single_sum :
      index < 4
      → element_word base false vd vn m index
        ≡ base + m * 2 ^ 16 + vn * 2 ^ 5 + vd + index / 2 * 2 ^ 11 + index % 2 * 2 ^ 21
  unfolding element_word
  single_sum hi =
      let (r1, r2, r3, r4) = room in
      let s1 = base + m * 2 ^ 16 in
      let s2 = s1 + vn * 2 ^ 5 in
      let s3 = s2 + vd in
      let s4 = s3 + index / 2 * 2 ^ 11 in
      rw
        (
          or_shifted 16 5 base m (omega arith) (omega arith) (omega arith),
          or_shifted 5 5 s1 vn (omega arith) (omega arith) (omega arith),
          bit_or_low 5 s2 vd (omega arith) (omega arith),
          or_shifted 11 1 s3 (index / 2) (omega arith) (omega arith) (omega arith),
          bit_and_ones 1 index,
        )
        (or_shifted 21 1 s4 (index % 2) (omega arith) (omega arith) (omega arith))

  pub double_sum :
      index < 2
      → element_word base true vd vn m index ≡ base + m * 2 ^ 16 + vn * 2 ^ 5 + vd + index * 2 ^ 11
  unfolding element_word
  double_sum hi =
      let (r1, r2, r3, r4) = room in
      let s1 = base + m * 2 ^ 16 in
      let s2 = s1 + vn * 2 ^ 5 in
      let s3 = s2 + vd in
      rw
        (
          or_shifted 16 5 base m (omega arith) (omega arith) (omega arith),
          or_shifted 5 5 s1 vn (omega arith) (omega arith) (omega arith),
          bit_or_low 5 s2 vd (omega arith) (omega arith),
        )
        (or_shifted 11 1 s3 index (omega arith) (omega arith) (omega arith))

module _ (w : ℕ) (h : w < 2 ^ 32) where
  pub single_mask :
      bit_and w 0xffc0f400
      ≡ w / 2 ^ 22 * 2 ^ 22 + w / 2 ^ 12 % 2 ^ 4 * 2 ^ 12 + w / 2 ^ 10 % 2 * 2 ^ 10
  single_mask =
      bit_and_cut 22 w 0x3ff 0xf400 (omega arith)
      ∙ rw
          (
            bit_and_cut 12 (w % 2 ^ 22) 0xf 0x400 (omega arith),
            bit_and_cut 10 (w % 2 ^ 22 % 2 ^ 12) 1 0 (omega arith),
          )
          (omega (
            arith,
            bit_and_ones 10 (w / 2 ^ 22),
            bit_and_ones 4 (w % 2 ^ 22 / 2 ^ 12),
            bit_and_ones 1 (w % 2 ^ 22 % 2 ^ 12 / 2 ^ 10),
            bit_and-zero (w % 2 ^ 22 % 2 ^ 12 % 2 ^ 10),
          ))

  pub double_mask :
      bit_and w 0xffe0f400
      ≡ w / 2 ^ 21 * 2 ^ 21 + w / 2 ^ 12 % 2 ^ 4 * 2 ^ 12 + w / 2 ^ 10 % 2 * 2 ^ 10
  double_mask =
      bit_and_cut 21 w 0x7ff 0xf400 (omega arith)
      ∙ rw
          (
            bit_and_cut 12 (w % 2 ^ 21) 0xf 0x400 (omega arith),
            bit_and_cut 10 (w % 2 ^ 21 % 2 ^ 12) 1 0 (omega arith),
          )
          (omega (
            arith,
            bit_and_ones 11 (w / 2 ^ 21),
            bit_and_ones 4 (w % 2 ^ 21 / 2 ^ 12),
            bit_and_ones 1 (w % 2 ^ 21 % 2 ^ 12 / 2 ^ 10),
            bit_and-zero (w % 2 ^ 21 % 2 ^ 12 % 2 ^ 10),
          ))
