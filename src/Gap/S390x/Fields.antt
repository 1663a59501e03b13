-- ===== src/Gap/S390x/Fields.antt =====
-- The VRR words as sums of their fields, and what each mask keeps of a word.
use asmgen.Base.{ℕ, ◌+◌, ◌*◌, ◌/◌, ◌%◌, ◌^◌, ◌<◌, ◌≡◌, ◌∙◌, arith, bit_and}
use asmgen.Base.Bits.{bit_and_ones, bit_and_cut, bit_and-zero, or_shifted, bit_or_low}
use asmgen.Gap.S390x.Format.{rxb, vrrc_word, vrre_word, vrra_word}

-- RXB collects the top bits of the four register numbers.
pub rxb_sum :
    (v1 v2 v3 v4 : ℕ)
    → v1 < 32
    → v2 < 32
    → v3 < 32
    → v4 < 32
    → rxb v1 v2 v3 v4 ≡ v1 / 16 * 8 + v2 / 16 * 4 + v3 / 16 * 2 + v4 / 16
unfolding rxb
rxb_sum v1 v2 v3 v4 h1 h2 h3 h4 =
    let s0 = v1 / 16 * 2 ^ 3 in
    let s1 = s0 + v2 / 16 * 2 ^ 2 in
    let s2 = s1 + v3 / 16 * 2 ^ 1 in
    let first : s0 % 2 ^ 64 ≡ s0 = omega arith in
    rw
      (
        first,
        or_shifted 2 1 s0 (v2 / 16) (omega arith) (omega arith) (omega arith),
        or_shifted 1 1 s1 (v3 / 16) (omega arith) (omega arith) (omega arith),
      )
      (bit_or_low 1 s2 (v4 / 16) (omega arith) (omega arith) ∙ omega arith)

pub vrrc_sum :
    (op m4 m5 v1 v2 v3 : ℕ)
    → op < 256
    → m4 < 16
    → m5 < 16
    → v1 < 32
    → v2 < 32
    → v3 < 32
    → vrrc_word op m4 m5 v1 v2 v3
      ≡ 0xe7 * 2 ^ 40
        + v1 % 16 * 2 ^ 36
        + v2 % 16 * 2 ^ 32
        + v3 % 16 * 2 ^ 28
        + m5 * 2 ^ 16
        + m4 * 2 ^ 12
        + rxb v1 v2 v3 0 * 2 ^ 8
        + op
unfolding vrrc_word
vrrc_sum op m4 m5 v1 v2 v3 ho h4 h5 h1 h2 h3 =
    let s0 = 0xe7 * 2 ^ 40 in
    let s1 = s0 + v1 % 16 * 2 ^ 36 in
    let s2 = s1 + v2 % 16 * 2 ^ 32 in
    let s3 = s2 + v3 % 16 * 2 ^ 28 in
    let s4 = s3 + m5 * 2 ^ 16 in
    let s5 = s4 + m4 * 2 ^ 12 in
    let s6 = s5 + rxb v1 v2 v3 0 * 2 ^ 8 in
    let top = rxb_sum v1 v2 v3 0 h1 h2 h3 (omega arith) in
    let small : rxb v1 v2 v3 0 < 16 = omega (arith, top) in
    rw
      (
        bit_and_ones 4 v1,
        bit_and_ones 4 v2,
        bit_and_ones 4 v3,
        or_shifted 36 4 s0 (v1 % 16) (omega arith) (omega arith) (omega arith),
        or_shifted 32 4 s1 (v2 % 16) (omega arith) (omega arith) (omega arith),
        or_shifted 28 4 s2 (v3 % 16) (omega arith) (omega arith) (omega arith),
        or_shifted 16 4 s3 m5 (omega arith) (omega arith) (omega arith),
        or_shifted 12 4 s4 m4 (omega arith) (omega arith) (omega arith),
        or_shifted 8 4 s5 (rxb v1 v2 v3 0) (omega arith) small (omega arith),
      )
      (bit_or_low 8 s6 op (omega arith) ho)

pub vrre_sum :
    (op m6 m5 v1 v2 v3 v4 : ℕ)
    → op < 256
    → m6 < 16
    → m5 < 16
    → v1 < 32
    → v2 < 32
    → v3 < 32
    → v4 < 32
    → vrre_word op m6 m5 v1 v2 v3 v4
      ≡ 0xe7 * 2 ^ 40
        + v1 % 16 * 2 ^ 36
        + v2 % 16 * 2 ^ 32
        + v3 % 16 * 2 ^ 28
        + m6 * 2 ^ 24
        + m5 * 2 ^ 16
        + v4 % 16 * 2 ^ 12
        + rxb v1 v2 v3 v4 * 2 ^ 8
        + op
unfolding vrre_word
vrre_sum op m6 m5 v1 v2 v3 v4 ho h6 h5 h1 h2 h3 h4 =
    let s0 = 0xe7 * 2 ^ 40 in
    let s1 = s0 + v1 % 16 * 2 ^ 36 in
    let s2 = s1 + v2 % 16 * 2 ^ 32 in
    let s3 = s2 + v3 % 16 * 2 ^ 28 in
    let s4 = s3 + m6 * 2 ^ 24 in
    let s5 = s4 + m5 * 2 ^ 16 in
    let s6 = s5 + v4 % 16 * 2 ^ 12 in
    let s7 = s6 + rxb v1 v2 v3 v4 * 2 ^ 8 in
    let top = rxb_sum v1 v2 v3 v4 h1 h2 h3 h4 in
    let small : rxb v1 v2 v3 v4 < 16 = omega (arith, top) in
    rw
      (
        bit_and_ones 4 v1,
        bit_and_ones 4 v2,
        bit_and_ones 4 v3,
        bit_and_ones 4 v4,
        or_shifted 36 4 s0 (v1 % 16) (omega arith) (omega arith) (omega arith),
        or_shifted 32 4 s1 (v2 % 16) (omega arith) (omega arith) (omega arith),
        or_shifted 28 4 s2 (v3 % 16) (omega arith) (omega arith) (omega arith),
        or_shifted 24 4 s3 m6 (omega arith) (omega arith) (omega arith),
        or_shifted 16 4 s4 m5 (omega arith) (omega arith) (omega arith),
        or_shifted 12 4 s5 (v4 % 16) (omega arith) (omega arith) (omega arith),
        or_shifted 8 4 s6 (rxb v1 v2 v3 v4) (omega arith) small (omega arith),
      )
      (bit_or_low 8 s7 op (omega arith) ho)

pub vrra_sum :
    (op m3 m4 v1 v2 : ℕ)
    → op < 256
    → m3 < 16
    → m4 < 16
    → v1 < 32
    → v2 < 32
    → vrra_word op m3 m4 v1 v2
      ≡ 0xe7 * 2 ^ 40
        + v1 % 16 * 2 ^ 36
        + v2 % 16 * 2 ^ 32
        + m4 * 2 ^ 16
        + m3 * 2 ^ 12
        + rxb v1 v2 0 0 * 2 ^ 8
        + op
unfolding vrra_word
vrra_sum op m3 m4 v1 v2 ho h3 h4 h1 h2 =
    let s0 = 0xe7 * 2 ^ 40 in
    let s1 = s0 + v1 % 16 * 2 ^ 36 in
    let s2 = s1 + v2 % 16 * 2 ^ 32 in
    let s3 = s2 + m4 * 2 ^ 16 in
    let s4 = s3 + m3 * 2 ^ 12 in
    let s5 = s4 + rxb v1 v2 0 0 * 2 ^ 8 in
    let top = rxb_sum v1 v2 0 0 h1 h2 (omega arith) (omega arith) in
    let small : rxb v1 v2 0 0 < 16 = omega (arith, top) in
    rw
      (
        bit_and_ones 4 v1,
        bit_and_ones 4 v2,
        or_shifted 36 4 s0 (v1 % 16) (omega arith) (omega arith) (omega arith),
        or_shifted 32 4 s1 (v2 % 16) (omega arith) (omega arith) (omega arith),
        or_shifted 16 4 s2 m4 (omega arith) (omega arith) (omega arith),
        or_shifted 12 4 s3 m3 (omega arith) (omega arith) (omega arith),
        or_shifted 8 4 s4 (rxb v1 v2 0 0) (omega arith) small (omega arith),
      )
      (bit_or_low 8 s5 op (omega arith) ho)

module _ (w : ℕ) (h : w < 2 ^ 48) where
  pub vrrc_mask :
      bit_and w 0xff000ffff0ff ≡ w / 2 ^ 40 * 2 ^ 40 + w / 2 ^ 12 % 2 ^ 16 * 2 ^ 12 + w % 2 ^ 8
  vrrc_mask =
      bit_and_cut 28 w 0xff000 0xffff0ff (omega arith)
      ∙ rw
          (
            bit_and_cut 12 (w / 2 ^ 28) 0xff 0 (omega arith),
            bit_and_cut 12 (w % 2 ^ 28) 0xffff 0xff (omega arith),
          )
          (omega (
            arith,
            bit_and_ones 8 (w / 2 ^ 28 / 2 ^ 12),
            bit_and-zero (w / 2 ^ 28 % 2 ^ 12),
            bit_and_ones 16 (w % 2 ^ 28 / 2 ^ 12),
            bit_and_ones 8 (w % 2 ^ 28 % 2 ^ 12),
          ))

  pub vrre_mask :
      bit_and w 0xff000fff00ff ≡ w / 2 ^ 40 * 2 ^ 40 + w / 2 ^ 16 % 2 ^ 12 * 2 ^ 16 + w % 2 ^ 8
  vrre_mask =
      bit_and_cut 28 w 0xff000 0xfff00ff (omega arith)
      ∙ rw
          (
            bit_and_cut 12 (w / 2 ^ 28) 0xff 0 (omega arith),
            bit_and_cut 16 (w % 2 ^ 28) 0xfff 0xff (omega arith),
          )
          (omega (
            arith,
            bit_and_ones 8 (w / 2 ^ 28 / 2 ^ 12),
            bit_and-zero (w / 2 ^ 28 % 2 ^ 12),
            bit_and_ones 12 (w % 2 ^ 28 / 2 ^ 16),
            bit_and_ones 8 (w % 2 ^ 28 % 2 ^ 16),
          ))

  pub vrra_mask :
      bit_and w 0xff00fffff0ff ≡ w / 2 ^ 40 * 2 ^ 40 + w / 2 ^ 12 % 2 ^ 20 * 2 ^ 12 + w % 2 ^ 8
  vrra_mask =
      bit_and_cut 32 w 0xff00 0xfffff0ff (omega arith)
      ∙ rw
          (
            bit_and_cut 8 (w / 2 ^ 32) 0xff 0 (omega arith),
            bit_and_cut 12 (w % 2 ^ 32) 0xfffff 0xff (omega arith),
          )
          (omega (
            arith,
            bit_and_ones 8 (w / 2 ^ 32 / 2 ^ 8),
            bit_and-zero (w / 2 ^ 32 % 2 ^ 8),
            bit_and_ones 20 (w % 2 ^ 32 / 2 ^ 12),
            bit_and_ones 8 (w % 2 ^ 32 % 2 ^ 12),
          ))
