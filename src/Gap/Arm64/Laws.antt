-- ===== src/Gap/Arm64/Laws.antt =====
-- byElement: what it accepts, and that the operands are read back from the word.
use asmgen.Base.{
  ℕ, ◌+◌, ◌*◌, ◌/◌, ◌%◌, ◌^◌, ◌≤◌, ◌<◌, ◌≡◌, refl, arith, bit_and, Bool, true, false, ◌||◌,
}
use asmgen.Base.Int.{ℤ, pos, negsuc, pos_part, ltb_ℤ}
use asmgen.Base.Text.{codes}
use asmgen.Base.Panics.{ok, Panic, ◌>>=◌, >>=-eq-ok, passed}
use asmgen.Gap.Registers.{IsRegister, reg-ok, reg_of}
use asmgen.Gap.Arm64.Format.{vector, max_index, by_element, element_word}
use asmgen.Gap.Arm64.Fields.{HasRoom, single_sum, double_sum, single_mask, double_mask}

vector-ok : (r : ℤ) (n : ℕ) → vector r ≡ ok n → IsRegister 31 r n
vector-ok r n e = reg-ok (codes "arm64") (codes "vector") r 31 n (unfold vector in e)

index_in_range :
    (max : ℕ) (i : ℤ)
    → (ltb_ℤ i (pos 0) || ltb_ℤ (pos max) i) ≡ false
    → IsRegister max i (pos_part i)
index_in_range max (pos n) h = ground arith
index_in_range max (negsuc n) h = ground arith

by_element-ok :
    (base : ℕ) (d : Bool) (vd vn vm index : ℤ) (w : ℕ)
    → by_element base d vd vn vm index ≡ ok w
    → (d' n' m' i' : ℕ) × IsRegister 31 vd d'
      × IsRegister 31 vn n'
      × IsRegister 31 vm m'
      × IsRegister (max_index d) index i'
      × (element_word base d d' n' m' i' ≡ w)
by_element-ok base d vd vn vm index w e =
    let (fine, by) =
      passed (ltb_ℤ index (pos 0) || ltb_ℤ (pos (max_index d)) index)
        (Panic.bad_index index (max_index d))
        (vector vm >>= λ m.
          vector vn >>= λ n. vector vd >>= λ v. ok (element_word base d v n m (pos_part index)))
        w (unfold by_element in e) in
    let (m', em, e1) = >>=-eq-ok (vector vm) _ by in
    let (n', en, e2) = >>=-eq-ok (vector vn) _ e1 in
    let (d', ed, e3) = >>=-eq-ok (vector vd) _ e2 in
    (
      d',
      n',
      m',
      pos_part index,
      vector-ok vd d' ed,
      vector-ok vn n' en,
      vector-ok vm m' em,
      index_in_range (max_index d) index fine,
      cc,
    )

abbrev pub field5 : ℕ → ℕ → ℕ
field5 low w = w / 2 ^ low % 2 ^ 5

-- A word that byElement returns for the single-precision arrangement, over an opcode that leaves
-- the operand fields clear, fits 32 bits, reads back as the three registers and as the index
-- split into H and L, and is masked to the opcode.
pub single_decodes :
    (base : ℕ) (vd vn vm index : ℤ) (w : ℕ)
    → HasRoom base
    → by_element base false vd vn vm index ≡ ok w
    → (w < 2 ^ 32)
      × (vd ≡ pos (field5 0 w))
      × (vn ≡ pos (field5 5 w))
      × (vm ≡ pos (field5 16 w))
      × (index ≡ pos (w / 2 ^ 11 % 2 * 2 + w / 2 ^ 21 % 2))
      × (bit_and w 0xffc0f400 ≡ base)
single_decodes base vd vn vm index w room e =
    let (d', n', m', i', (ed, hd), (en, hn), (em, hm), (ei, hi), same) =
      by_element-ok base false vd vn vm index w e in
    let sum =
      single_sum base d' n' m' i' room (omega arith) (omega arith) (omega arith) (omega arith) in
    let (r1, r2, r3, r4) = room in
    let fits : w < 2 ^ 32 = omega (arith, sum, same) in
    let field_d : field5 0 w ≡ d' = omega (arith, sum, same) in
    let field_n : field5 5 w ≡ n' = omega (arith, sum, same) in
    let field_m : field5 16 w ≡ m' = omega (arith, sum, same) in
    let field_i : w / 2 ^ 11 % 2 * 2 + w / 2 ^ 21 % 2 ≡ i' = omega (arith, sum, same) in
    (fits, cc, cc, cc, cc, omega (arith, sum, same, single_mask w fits))

-- A word that byElement returns for the double-precision arrangement, over an opcode that leaves
-- the operand fields clear, fits 32 bits, reads back as the three registers and as the index in
-- the single bit H, and is masked to the opcode.
pub double_decodes :
    (base : ℕ) (vd vn vm index : ℤ) (w : ℕ)
    → HasRoom base
    → by_element base true vd vn vm index ≡ ok w
    → (w < 2 ^ 32)
      × (vd ≡ pos (field5 0 w))
      × (vn ≡ pos (field5 5 w))
      × (vm ≡ pos (field5 16 w))
      × (index ≡ pos (w / 2 ^ 11 % 2))
      × (bit_and w 0xffe0f400 ≡ base)
double_decodes base vd vn vm index w room e =
    let (d', n', m', i', (ed, hd), (en, hn), (em, hm), (ei, hi), same) =
      by_element-ok base true vd vn vm index w e in
    let sum =
      double_sum base d' n' m' i' room (omega arith) (omega arith) (omega arith) (omega arith) in
    let (r1, r2, r3, r4) = room in
    let fits : w < 2 ^ 32 = omega (arith, sum, same) in
    let field_d : field5 0 w ≡ d' = omega (arith, sum, same) in
    let field_n : field5 5 w ≡ n' = omega (arith, sum, same) in
    let field_m : field5 16 w ≡ m' = omega (arith, sum, same) in
    let field_i : w / 2 ^ 11 % 2 ≡ i' = omega (arith, sum, same) in
    (fits, cc, cc, cc, cc, omega (arith, sum, same, double_mask w fits))

-- For vector registers 0 to 31 and an index up to 3, or up to 1 for the double-precision arrangement,
-- byElement does return a word.
pub by_element_accepts :
    (base : ℕ) (d : Bool) (vd vn vm index : ℕ)
    → vd ≤ 31
    → vn ≤ 31
    → vm ≤ 31
    → index ≤ max_index d
    → by_element base d (pos vd) (pos vn) (pos vm) (pos index)
      ≡ ok (element_word base d vd vn vm index)
unfolding by_element vector
by_element_accepts base d vd vn vm index hd hn hm hi =
    let fine : (ltb_ℤ (pos index) (pos 0) || ltb_ℤ (pos (max_index d)) (pos index)) ≡ false =
      ground arith in
    rw
      (
        fine,
        reg_of (codes "arm64") (codes "vector") 31 vm hm,
        reg_of (codes "arm64") (codes "vector") 31 vn hn,
        reg_of (codes "arm64") (codes "vector") 31 vd hd,
      )
      refl
