-- ===== src/Gap/Loong64/Laws.antt =====
-- The loong64 encoders: what they accept, and that the operands can be read back from the word.
use asmgen.Base.{
  ℕ, ◌-◌, ◌*◌, ◌/◌, ◌%◌, ◌^◌, ◌≤◌, ◌<◌, ◌≡◌, ◌≢◌, refl, sym, arith, false, ◌||◌, ltb, if◌then◌else◌,
  bit_and,
}
use asmgen.Base.Int.{ℤ, pos, negsuc, pos_part, ltb_ℤ}
use asmgen.Base.Text.{codes}
use asmgen.Base.Panics.{ok, Panic, ◌>>=◌, >>=-eq-ok, passed}
use asmgen.Gap.Registers.{IsRegister, reg-ok, reg_of}
use asmgen.Gap.Loong64.Format.{
  vec, general, r4, r4_word, eighth, uneven, ldrepl, ldrepl_word, csr, csr_word,
}
use asmgen.Gap.Loong64.Fields.{
  r4_sum, ldrepl_sum, csr_sum, csrxchg_sum, r4_mask, ldrepl_mask, csr_mask, csrxchg_mask,
  csrxchg_not_mask,
}

vec-ok : (r : ℤ) (n : ℕ) → vec r ≡ ok n → IsRegister 31 r n
vec-ok r n e = reg-ok (codes "loong64") (codes "vector") r 31 n (unfold vec in e)

general-ok : (r : ℤ) (n : ℕ) → general r ≡ ok n → IsRegister 31 r n
general-ok r n e = reg-ok (codes "loong64") (codes "general") r 31 n (unfold general in e)

-- The four register fields of the fused multiply-adds.
abbrev pub field5 : ℕ → ℕ → ℕ
field5 low w = w / 2 ^ low % 2 ^ 5

-- A word that r4 returns, for an opcode in the top twelve bits, fits 32 bits and keeps the opcode
-- there, and its four fields read back as the registers it was given.
pub r4_decodes :
    (base : ℕ) (d j k a : ℤ) (w : ℕ)
    → base % 2 ^ 20 ≡ 0
    → base < 2 ^ 32
    → r4 base d j k a ≡ ok w
    → (w < 2 ^ 32)
      × (d ≡ pos (field5 0 w))
      × (j ≡ pos (field5 5 w))
      × (k ≡ pos (field5 10 w))
      × (a ≡ pos (field5 15 w))
      × (bit_and w 0xfff00000 ≡ base)
r4_decodes base d j k a w clear hb e =
    let by : (vec a >>= λ a'.
    vec k >>= λ k'. vec j >>= λ j'. vec d >>= λ d'. ok (r4_word base d' j' k' a'))
        ≡ ok w =
      unfold r4 in e in
    let (a', ea, e1) = >>=-eq-ok (vec a) _ by in
    let (k', ek, e2) = >>=-eq-ok (vec k) _ e1 in
    let (j', ej, e3) = >>=-eq-ok (vec j) _ e2 in
    let (d', ed, e4) = >>=-eq-ok (vec d) _ e3 in
    let (a_pos, ha) = vec-ok a a' ea in
    let (k_pos, hk) = vec-ok k k' ek in
    let (j_pos, hj) = vec-ok j j' ej in
    let (d_pos, hd) = vec-ok d d' ed in
    let same : r4_word base d' j' k' a' ≡ w = cc in
    let sum =
      r4_sum base d' j' k' a' clear hb (omega arith) (omega arith) (omega arith) (omega arith) in
    let fits : w < 2 ^ 32 = omega (arith, sum, same) in
    let field_d : field5 0 w ≡ d' = omega (arith, sum, same) in
    let field_j : field5 5 w ≡ j' = omega (arith, sum, same) in
    let field_k : field5 10 w ≡ k' = omega (arith, sum, same) in
    let field_a : field5 15 w ≡ a' = omega (arith, sum, same) in
    (fits, cc, cc, cc, cc, omega (arith, sum, same, r4_mask w fits))

-- The byte offset that the nine-bit field of a broadcast load stands for: eight times the field,
-- read as a signed number.
abbrev pub offset_of : ℕ → ℤ
offset_of u = if ltb u 256 then pos (8 * u) else negsuc (8 * (512 - u) - 1)

offset-eighth :
    (off : ℤ)
    → (uneven off || (ltb_ℤ off (negsuc 2047) || ltb_ℤ (pos 2040) off)) ≡ false
    → offset_of (eighth off % 2 ^ 9) ≡ off
unfolding eighth
offset-eighth (pos n) h = ground arith
offset-eighth (negsuc n) h = ground arith

-- A word that ldrepl returns, for an opcode in the top thirteen bits, fits 32 bits and keeps the
-- opcode there, its register fields read back as the registers, and its nine-bit field as the
-- signed byte offset it was given.
pub ldrepl_decodes :
    (base : ℕ) (d rj off : ℤ) (w : ℕ)
    → base % 2 ^ 19 ≡ 0
    → base < 2 ^ 32
    → ldrepl base d rj off ≡ ok w
    → (w < 2 ^ 32)
      × (d ≡ pos (field5 0 w))
      × (rj ≡ pos (field5 5 w))
      × (off ≡ offset_of (w / 2 ^ 10 % 2 ^ 9))
      × (bit_and w 0xfff80000 ≡ base)
ldrepl_decodes base d rj off w clear hb e =
    let (fine, by) =
      passed (uneven off || (ltb_ℤ off (negsuc 2047) || ltb_ℤ (pos 2040) off))
        (Panic.bad_offset off)
        (general rj >>= λ rj'. vec d >>= λ d'. ok (ldrepl_word base d' rj' (eighth off))) w
        (unfold ldrepl in e) in
    let (j', ej, e1) = >>=-eq-ok (general rj) _ by in
    let (d', ed, e2) = >>=-eq-ok (vec d) _ e1 in
    let (j_pos, hj) = general-ok rj j' ej in
    let (d_pos, hd) = vec-ok d d' ed in
    let same : ldrepl_word base d' j' (eighth off) ≡ w = cc in
    let sum = ldrepl_sum base d' j' (eighth off) clear hb (omega arith) (omega arith) in
    let fits : w < 2 ^ 32 = omega (arith, sum, same) in
    let field_d : field5 0 w ≡ d' = omega (arith, sum, same) in
    let field_j : field5 5 w ≡ j' = omega (arith, sum, same) in
    let field_u : w / 2 ^ 10 % 2 ^ 9 ≡ eighth off % 2 ^ 9 = omega (arith, sum, same) in
    (
      fits,
      cc,
      cc,
      rw field_u (sym (offset-eighth off fine)),
      omega (arith, sum, same, ldrepl_mask w fits),
    )

csr-ok :
    (base : ℕ) (rd rj num : ℤ) (w : ℕ)
    → csr base rd rj num ≡ ok w
    → (rd' rj' num' : ℕ) × IsRegister 31 rd rd'
      × IsRegister 31 rj rj'
      × IsRegister 0x3fff num num'
      × (csr_word base rd' rj' num' ≡ w)
csr-ok base rd rj num w e =
    let (fine, by) =
      passed (ltb_ℤ num (pos 0) || ltb_ℤ (pos 0x3fff) num) (Panic.bad_csr num)
        (general rj >>= λ rj'. general rd >>= λ rd'. ok (csr_word base rd' rj' (pos_part num))) w
        (unfold csr in e) in
    let (j', ej, e1) = >>=-eq-ok (general rj) _ by in
    let (d', ed, e2) = >>=-eq-ok (general rd) _ e1 in
    (d', j', pos_part num, general-ok rd d' ed, general-ok rj j' ej, csr_number num fine, cc)
  where
    csr_number :
        (n : ℤ)
        → (ltb_ℤ n (pos 0) || ltb_ℤ (pos 0x3fff) n) ≡ false
        → IsRegister 0x3fff n (pos_part n)
    csr_number (pos n) h = ground arith
    csr_number (negsuc n) h = ground arith

-- A word that csr returns with the mask register 0, over an opcode below 2 ^ 32 that leaves the
-- fields of the register and of the CSR number clear and the mask register's below 2, fits 32 bits,
-- reads back as the register and the CSR number, and is masked to the opcode.
pub csr_decodes :
    (base : ℕ) (rd num : ℤ) (w : ℕ)
    → base / 2 ^ 10 % 2 ^ 14 ≡ 0
    → base % 2 ^ 5 ≡ 0
    → base % 2 ^ 10 / 2 ^ 5 < 2
    → base < 2 ^ 32
    → csr base rd (pos 0) num ≡ ok w
    → (w < 2 ^ 32)
      × (rd ≡ pos (field5 0 w))
      × (num ≡ pos (w / 2 ^ 10 % 2 ^ 14))
      × (bit_and w 0xff0003e0 ≡ base)
csr_decodes base rd num w clear low choice hb e =
    let (d', j', n', (ed, hd), (ej, hj), (en, hn), ew) = csr-ok base rd (pos 0) num w e in
    let none_j : j' ≡ 0 = ground arith in
    let same : csr_word base d' 0 n' ≡ w = cc in
    let sum = csr_sum base d' n' clear low hb (omega arith) (omega arith) in
    let fits : w < 2 ^ 32 = omega (arith, sum, same) in
    let field_d : field5 0 w ≡ d' = omega (arith, sum, same) in
    let field_n : w / 2 ^ 10 % 2 ^ 14 ≡ n' = omega (arith, sum, same) in
    (fits, cc, cc, omega (arith, sum, same, csr_mask w fits))

not_below : (r : ℤ) (n : ℕ) → r ≡ pos n → ltb_ℤ r (pos 2) ≡ false → 2 ≤ n
not_below (pos k) n e h = ground arith
not_below (negsuc k) n e h = ground arith

-- A word that csr returns over csrxchg's opcode with a mask register of at least 2 fits 32 bits,
-- reads back as its registers and its CSR number, has the opcode under csrxchg's first mask and
-- another value under its second one.
pub csrxchg_decodes :
    (rd rj num : ℤ) (w : ℕ)
    → ltb_ℤ rj (pos 2) ≡ false
    → csr 0x04000000 rd rj num ≡ ok w
    → (w < 2 ^ 32)
      × (rd ≡ pos (field5 0 w))
      × (rj ≡ pos (field5 5 w))
      × (num ≡ pos (w / 2 ^ 10 % 2 ^ 14))
      × (bit_and w 0xff000000 ≡ 0x04000000)
      × (bit_and w 0xff0003c0 ≢ 0x04000000)
csrxchg_decodes rd rj num w atleast e =
    let (d', j', n', (ed, hd), (ej, hj), (en, hn), ew) = csr-ok 0x04000000 rd rj num w e in
    let two : 2 ≤ j' = not_below rj j' ej atleast in
    let sum = csrxchg_sum d' j' n' (omega arith) (omega arith) (omega arith) in
    let fits : w < 2 ^ 32 = omega (arith, sum, ew) in
    let field_d : field5 0 w ≡ d' = omega (arith, sum, ew) in
    let field_j : field5 5 w ≡ j' = omega (arith, sum, ew) in
    let field_n : w / 2 ^ 10 % 2 ^ 14 ≡ n' = omega (arith, sum, ew) in
    (
      fits,
      cc,
      cc,
      cc,
      omega (arith, sum, ew, csrxchg_mask w fits),
      omega (arith, sum, ew, csrxchg_not_mask w fits),
    )

-- For vector registers 0 to 31, r4 does return a word.
pub r4_accepts :
    (base d j k a : ℕ)
    → d ≤ 31
    → j ≤ 31
    → k ≤ 31
    → a ≤ 31
    → r4 base (pos d) (pos j) (pos k) (pos a) ≡ ok (r4_word base d j k a)
unfolding r4 vec
r4_accepts base d j k a hd hj hk ha =
    rw
      (
        reg_of (codes "loong64") (codes "vector") 31 d hd,
        reg_of (codes "loong64") (codes "vector") 31 j hj,
        reg_of (codes "loong64") (codes "vector") 31 k hk,
        reg_of (codes "loong64") (codes "vector") 31 a ha,
      )
      refl

-- Every offset that the nine-bit field can hold passes ldrepl's guard.
offset_in_range :
    (u : ℕ)
    → u < 512
    → (uneven (offset_of u)
        || (ltb_ℤ (offset_of u) (negsuc 2047) || ltb_ℤ (pos 2040) (offset_of u)))
      ≡ false
offset_in_range u h = ground arith

-- For registers 0 to 31 and each of the 512 offsets that the nine-bit field stands for, ldrepl does
-- return a word.
pub ldrepl_accepts :
    (base d rj u : ℕ)
    → d ≤ 31
    → rj ≤ 31
    → u < 512
    → ldrepl base (pos d) (pos rj) (offset_of u) ≡ ok (ldrepl_word base d rj (eighth (offset_of u)))
unfolding ldrepl vec general
ldrepl_accepts base d rj u hd hj hu =
    rw
      (
        offset_in_range u hu,
        reg_of (codes "loong64") (codes "general") 31 rj hj,
        reg_of (codes "loong64") (codes "vector") 31 d hd,
      )
      refl

-- For registers 0 to 31 and CSR numbers below 2 ^ 14, csr does return a word.
pub csr_accepts :
    (base rd rj num : ℕ)
    → rd ≤ 31
    → rj ≤ 31
    → num < 2 ^ 14
    → csr base (pos rd) (pos rj) (pos num) ≡ ok (csr_word base rd rj num)
unfolding csr general
csr_accepts base rd rj num hd hj hn =
    let fine : (ltb_ℤ (pos num) (pos 0) || ltb_ℤ (pos 0x3fff) (pos num)) ≡ false = ground arith in
    rw
      (
        fine,
        reg_of (codes "loong64") (codes "general") 31 rj hj,
        reg_of (codes "loong64") (codes "general") 31 rd hd,
      )
      refl
