-- ===== src/Gap/Ppc64/Fields.antt =====
-- The XX3 and XX2 words as sums of their fields: the operands are read back from them, and the
-- opcode mask sees none of them.
use asmgen.Base.{ℕ, ◌+◌, ◌*◌, ◌/◌, ◌%◌, ◌^◌, ◌<◌, ◌≡◌, ◌∙◌, arith, bit_and, ◌<<<◌, ◌|||◌}
use asmgen.Base.Bits.{bit_and_ones, bit_and_cut, bit_and-zero, or_shifted, bit_or_low}
use asmgen.Gap.Ppc64.Format.{xx3_word, xx2_word}

xx3_sum :
    (xo t a b : ℕ)
    → xo < 256
    → t < 64
    → a < 64
    → b < 64
    → xx3_word xo t a b
      ≡ 60 * 2 ^ 26
        + t % 32 * 2 ^ 21
        + a % 32 * 2 ^ 16
        + b % 32 * 2 ^ 11
        + xo * 2 ^ 3
        + a / 32 * 2 ^ 2
        + b / 32 * 2 ^ 1
        + t / 32
unfolding xx3_word
xx3_sum xo t a b hx ht ha hb =
    let s0 = 60 * 2 ^ 26 in
    let s1 = s0 + t % 32 * 2 ^ 21 in
    let s2 = s1 + a % 32 * 2 ^ 16 in
    let s3 = s2 + b % 32 * 2 ^ 11 in
    let s4 = s3 + xo * 2 ^ 3 in
    let s5 = s4 + a / 32 * 2 ^ 2 in
    let s6 = s5 + b / 32 * 2 ^ 1 in
    rw
      (
        bit_and_ones 5 t,
        bit_and_ones 5 a,
        bit_and_ones 5 b,
        or_shifted 21 5 s0 (t % 32) (omega arith) (omega arith) (omega arith),
        or_shifted 16 5 s1 (a % 32) (omega arith) (omega arith) (omega arith),
        or_shifted 11 5 s2 (b % 32) (omega arith) (omega arith) (omega arith),
        or_shifted 3 8 s3 xo (omega arith) (omega arith) (omega arith),
        or_shifted 2 1 s4 (a / 32) (omega arith) (omega arith) (omega arith),
        or_shifted 1 1 s5 (b / 32) (omega arith) (omega arith) (omega arith),
      )
      (bit_or_low 1 s6 (t / 32) (omega arith) (omega arith))

xx2_sum :
    (xo t b : ℕ)
    → xo < 512
    → t < 64
    → b < 64
    → xx2_word xo t b
      ≡ 60 * 2 ^ 26 + t % 32 * 2 ^ 21 + b % 32 * 2 ^ 11 + xo * 2 ^ 2 + b / 32 * 2 ^ 1 + t / 32
unfolding xx2_word
xx2_sum xo t b hx ht hb =
    let s0 = 60 * 2 ^ 26 in
    let s1 = s0 + t % 32 * 2 ^ 21 in
    let s2 = s1 + b % 32 * 2 ^ 11 in
    let s3 = s2 + xo * 2 ^ 2 in
    let s4 = s3 + b / 32 * 2 ^ 1 in
    rw
      (
        bit_and_ones 5 t,
        bit_and_ones 5 b,
        or_shifted 21 5 s0 (t % 32) (omega arith) (omega arith) (omega arith),
        or_shifted 11 5 s1 (b % 32) (omega arith) (omega arith) (omega arith),
        or_shifted 2 9 s2 xo (omega arith) (omega arith) (omega arith),
        or_shifted 1 1 s3 (b / 32) (omega arith) (omega arith) (omega arith),
      )
      (bit_or_low 1 s4 (t / 32) (omega arith) (omega arith))

-- The opcode masks keep the bits from 26 on and those of the extended opcode.
xx3_mask :
    (w : ℕ) → w < 2 ^ 32 → bit_and w 0xfc0007f8 ≡ w / 2 ^ 26 * 2 ^ 26 + w / 2 ^ 3 % 2 ^ 8 * 2 ^ 3
xx3_mask w h =
    bit_and_cut 26 w 0x3f 0x7f8 (omega arith)
    ∙ rw (bit_and_cut 3 (w % 2 ^ 26) 0xff 0 (omega arith)) (
        omega (
          arith,
          bit_and_ones 6 (w / 2 ^ 26),
          bit_and_ones 8 (w % 2 ^ 26 / 2 ^ 3),
          bit_and-zero (w % 2 ^ 26 % 2 ^ 3),
        ))

xx2_mask :
    (w : ℕ) → w < 2 ^ 32 → bit_and w 0xfc0007fc ≡ w / 2 ^ 26 * 2 ^ 26 + w / 2 ^ 2 % 2 ^ 9 * 2 ^ 2
xx2_mask w h =
    bit_and_cut 26 w 0x3f 0x7fc (omega arith)
    ∙ rw (bit_and_cut 2 (w % 2 ^ 26) 0x1ff 0 (omega arith)) (
        omega (
          arith,
          bit_and_ones 6 (w / 2 ^ 26),
          bit_and_ones 9 (w % 2 ^ 26 / 2 ^ 2),
          bit_and-zero (w % 2 ^ 26 % 2 ^ 2),
        ))

-- Whatever the operands, the masked word is the opcode, and the word has 32 bits.
pub xx3_opcode :
    (xo t a b : ℕ)
    → xo < 256
    → t < 64
    → a < 64
    → b < 64
    → (bit_and (xx3_word xo t a b) 0xfc0007f8 ≡ 60 <<< 26 ||| xo <<< 3)
      × (xx3_word xo t a b < 2 ^ 32)
xx3_opcode xo t a b hx ht ha hb =
    let sum = xx3_sum xo t a b hx ht ha hb in
    let fits : xx3_word xo t a b < 2 ^ 32 = omega (arith, sum) in
    (
      omega (
        arith,
        sum,
        xx3_mask _ fits,
        or_shifted 3 8 (60 * 2 ^ 26) xo (omega arith) (omega arith) (omega arith),
      ),
      fits,
    )

pub xx2_opcode :
    (xo t b : ℕ)
    → xo < 512
    → t < 64
    → b < 64
    → (bit_and (xx2_word xo t b) 0xfc0007fc ≡ 60 <<< 26 ||| xo <<< 2) × (xx2_word xo t b < 2 ^ 32)
xx2_opcode xo t b hx ht hb =
    let sum = xx2_sum xo t b hx ht hb in
    let fits : xx2_word xo t b < 2 ^ 32 = omega (arith, sum) in
    (
      omega (
        arith,
        sum,
        xx2_mask _ fits,
        or_shifted 2 9 (60 * 2 ^ 26) xo (omega arith) (omega arith) (omega arith),
      ),
      fits,
    )

-- A VSX register number is split between a field of five bits and one of a single bit.
abbrev pub vsx_at : ℕ → ℕ → ℕ → ℕ
vsx_at low high w = w / 2 ^ low % 32 + w / 2 ^ high % 2 * 32

pub xx3_operands :
    (xo t a b : ℕ)
    → xo < 256
    → t < 64
    → a < 64
    → b < 64
    → (vsx_at 21 0 (xx3_word xo t a b) ≡ t)
      × (vsx_at 16 2 (xx3_word xo t a b) ≡ a)
      × (vsx_at 11 1 (xx3_word xo t a b) ≡ b)
xx3_operands xo t a b hx ht ha hb = omega (arith, xx3_sum xo t a b hx ht ha hb)

pub xx2_operands :
    (xo t b : ℕ)
    → xo < 512
    → t < 64
    → b < 64
    → (vsx_at 21 0 (xx2_word xo t b) ≡ t) × (vsx_at 11 1 (xx2_word xo t b) ≡ b)
xx2_operands xo t b hx ht hb = omega (arith, xx2_sum xo t b hx ht hb)
