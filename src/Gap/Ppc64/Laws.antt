-- ===== src/Gap/Ppc64/Laws.antt =====
-- internal/gap/ppc64.go: the encoders of the XX3 and XX2 forms against a decoder of their fields.
use asmgen.Base.{ℕ, ◌≤◌, ◌<◌, ◌≡◌, refl, sym, arith, bit_and, ◌<<<◌, ◌|||◌, ◌^◌}
use asmgen.Base.Int.{ℤ, pos}
use asmgen.Base.Text.{codes}
use asmgen.Base.Panics.{ok, ◌>>=◌, >>=-eq-ok}
use asmgen.Gap.Registers.{IsRegister, reg-ok, reg_of}
use asmgen.Gap.Ppc64.Format.{vsr, xx3, xx2, xx3_word, xx2_word}
use asmgen.Gap.Ppc64.Fields.{xx3_opcode, xx2_opcode, xx3_operands, xx2_operands, vsx_at}

vsr-ok : (r : ℤ) (n : ℕ) → vsr r ≡ ok n → IsRegister 63 r n
vsr-ok r n e = reg-ok (codes "ppc64") (codes "VSX") r 63 n (unfold vsr in e)

xx3_ok :
    (xo : ℕ) (t a b : ℤ) (w : ℕ)
    → xx3 xo t a b ≡ ok w
    → (t' a' b' : ℕ) × IsRegister 63 t t'
      × IsRegister 63 a a'
      × IsRegister 63 b b'
      × (xx3_word xo t' a' b' ≡ w)
xx3_ok xo t a b w e =
    let by : (vsr t >>= λ t'. vsr a >>= λ a'. vsr b >>= λ b'. ok (xx3_word xo t' a' b')) ≡ ok w =
      unfold xx3 in e in
    let (t', et, e1) = >>=-eq-ok (vsr t) _ by in
    let (a', ea, e2) = >>=-eq-ok (vsr a) _ e1 in
    let (b', eb, e3) = >>=-eq-ok (vsr b) _ e2 in
    (t', a', b', vsr-ok t t' et, vsr-ok a a' ea, vsr-ok b b' eb, cc)

xx2_ok :
    (xo : ℕ) (t b : ℤ) (w : ℕ)
    → xx2 xo t b ≡ ok w
    → (t' b' : ℕ) × IsRegister 63 t t' × IsRegister 63 b b' × (xx2_word xo t' b' ≡ w)
xx2_ok xo t b w e =
    let by : (vsr t >>= λ t'. vsr b >>= λ b'. ok (xx2_word xo t' b')) ≡ ok w = unfold xx2 in e in
    let (t', et, e1) = >>=-eq-ok (vsr t) _ by in
    let (b', eb, e2) = >>=-eq-ok (vsr b) _ e1 in (t', b', vsr-ok t t' et, vsr-ok b b' eb, cc)

-- A word that xx3 returns, for an extended opcode below 256, fits 32 bits, its split fields read
-- back as the three registers it was given, and its masked bits are the opcode.
pub xx3_decodes :
    (xo : ℕ) (t a b : ℤ) (w : ℕ)
    → xo < 256
    → xx3 xo t a b ≡ ok w
    → (w < 2 ^ 32)
      × (t ≡ pos (vsx_at 21 0 w))
      × (a ≡ pos (vsx_at 16 2 w))
      × (b ≡ pos (vsx_at 11 1 w))
      × (bit_and w 0xfc0007f8 ≡ 60 <<< 26 ||| xo <<< 3)
xx3_decodes xo t a b w hx e =
    let (t', a', b', (et, ht), (ea, ha), (eb, hb), ew) = xx3_ok xo t a b w e in
    let (rt, ra, rb) = xx3_operands xo t' a' b' hx (omega arith) (omega arith) (omega arith) in
    let (masked, fits) = xx3_opcode xo t' a' b' hx (omega arith) (omega arith) (omega arith) in
    rw (sym ew, rt, ra, rb) (fits, et, ea, eb, masked)

-- A word that xx2 returns, for an extended opcode below 512, fits 32 bits, its split fields read
-- back as the two registers it was given, and its masked bits are the opcode.
pub xx2_decodes :
    (xo : ℕ) (t b : ℤ) (w : ℕ)
    → xo < 512
    → xx2 xo t b ≡ ok w
    → (w < 2 ^ 32)
      × (t ≡ pos (vsx_at 21 0 w))
      × (b ≡ pos (vsx_at 11 1 w))
      × (bit_and w 0xfc0007fc ≡ 60 <<< 26 ||| xo <<< 2)
xx2_decodes xo t b w hx e =
    let (t', b', (et, ht), (eb, hb), ew) = xx2_ok xo t b w e in
    let (rt, rb) = xx2_operands xo t' b' hx (omega arith) (omega arith) in
    let (masked, fits) = xx2_opcode xo t' b' hx (omega arith) (omega arith) in
    rw (sym ew, rt, rb) (fits, et, eb, masked)

-- For registers 0 to 63, xx3 does return a word.
pub xx3_accepts :
    (xo t a b : ℕ)
    → t ≤ 63
    → a ≤ 63
    → b ≤ 63
    → xx3 xo (pos t) (pos a) (pos b) ≡ ok (xx3_word xo t a b)
unfolding xx3 vsr
xx3_accepts xo t a b ht ha hb =
    rw
      (
        reg_of (codes "ppc64") (codes "VSX") 63 t ht,
        reg_of (codes "ppc64") (codes "VSX") 63 a ha,
        reg_of (codes "ppc64") (codes "VSX") 63 b hb,
      )
      refl

-- For registers 0 to 63, xx2 does return a word.
pub xx2_accepts : (xo t b : ℕ) → t ≤ 63 → b ≤ 63 → xx2 xo (pos t) (pos b) ≡ ok (xx2_word xo t b)
unfolding xx2 vsr
xx2_accepts xo t b ht hb =
    rw (reg_of (codes "ppc64") (codes "VSX") 63 t ht, reg_of (codes "ppc64") (codes "VSX") 63 b hb)
      refl
