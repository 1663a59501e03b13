-- ===== src/Gap/Ppc64/Matches.antt =====
-- Each ppc64 entry's opcode test against the words that its encoder returns.
use asmgen.Base.{ℕ, ◌<◌, ◌≡◌, refl, sym, arith, bit_and, List, All, All-append, ◌&◌, ◌<<<◌, ◌|||◌}
use asmgen.Base.Int.{ℤ}
use asmgen.Base.Panics.{ok, ◌>>=◌, >>=-eq-ok}
use asmgen.Gap.{Insn, operand}
use asmgen.Gap.Matching.{Recognises, matches_masked}
use asmgen.Gap.Ppc64.{ppc64}
use asmgen.Gap.Ppc64.Format.{encode_xx3, encode_xx2, xx3, xx2}
use asmgen.Gap.Ppc64.Laws.{xx3_decodes, xx2_decodes}
use asmgen.Gap.Ppc64.Double.{
  doubles, xvadddp, xvsubdp, xvmuldp, xvdivdp, xvmaddadp, xvmaxdp, xvmindp, xvsqrtdp,
}
use asmgen.Gap.Ppc64.Single.{
  singles, xvaddsp, xvsubsp, xvmulsp, xvdivsp, xvmaddasp, xvmaxsp, xvminsp, xvsqrtsp,
}

encode_xx3-masked :
    (xo : ℕ)
    → xo < 256
    → (ops : List ℤ) (w : ℕ) → encode_xx3 xo ops ≡ ok w
    → bit_and w 0xfc0007f8 ≡ 60 <<< 26 ||| xo <<< 3
encode_xx3-masked xo hx ops w e =
    let by : (operand ops 0 >>= λ t. operand ops 1 >>= λ a. operand ops 2 >>= λ b. xx3 xo t a b)
        ≡ ok w =
      unfold encode_xx3 in e in
    let (t, _, e1) = >>=-eq-ok (operand ops 0) _ by in
    let (a, _, e2) = >>=-eq-ok (operand ops 1) _ e1 in
    let (b, _, e3) = >>=-eq-ok (operand ops 2) _ e2 in
    let (_, _, _, _, masked) = xx3_decodes xo t a b w hx e3 in masked

encode_xx2-masked :
    (xo : ℕ)
    → xo < 512
    → (ops : List ℤ) (w : ℕ) → encode_xx2 xo ops ≡ ok w
    → bit_and w 0xfc0007fc ≡ 60 <<< 26 ||| xo <<< 2
encode_xx2-masked xo hx ops w e =
    let by : (operand ops 0 >>= λ t. operand ops 1 >>= λ b. xx2 xo t b) ≡ ok w =
      unfold encode_xx2 in e in
    let (t, _, e1) = >>=-eq-ok (operand ops 0) _ by in
    let (b, _, e2) = >>=-eq-ok (operand ops 1) _ e1 in
    let (_, _, _, masked) = xx2_decodes xo t b w hx e2 in masked

module _ (i : Insn) (xo : ℕ) (first : i.not_mask ≡ 0) where
  Recognises-xx3 :
      xo < 256
      → i.mask ≡ 0xfc0007f8
      → i.bits ≡ (60 <<< 26 ||| xo <<< 3)
      → i.encode ≡ encode_xx3 xo
      → Recognises i
  Recognises-xx3 hx em eb ee ops w e =
      let masked = encode_xx3-masked xo hx ops w (rw (sym ee) e) in
      matches_masked i w first (rw (em, eb) masked)

  Recognises-xx2 :
      xo < 512
      → i.mask ≡ 0xfc0007fc
      → i.bits ≡ (60 <<< 26 ||| xo <<< 2)
      → i.encode ≡ encode_xx2 xo
      → Recognises i
  Recognises-xx2 hx em eb ee ops w e =
      let masked = encode_xx2-masked xo hx ops w (rw (sym ee) e) in
      matches_masked i w first (rw (em, eb) masked)

doubles-Recognises : All Recognises doubles
unfolding doubles xvadddp xvsubdp xvmuldp xvdivdp xvmaddadp xvmaxdp xvmindp xvsqrtdp
doubles-Recognises =
    Recognises-xx3 xvadddp 96 refl (omega arith) refl refl refl
    & Recognises-xx3 xvsubdp 104 refl (omega arith) refl refl refl
    & Recognises-xx3 xvmuldp 112 refl (omega arith) refl refl refl
    & Recognises-xx3 xvdivdp 120 refl (omega arith) refl refl refl
    & Recognises-xx3 xvmaddadp 97 refl (omega arith) refl refl refl
    & Recognises-xx3 xvmaxdp 224 refl (omega arith) refl refl refl
    & Recognises-xx3 xvmindp 232 refl (omega arith) refl refl refl
    & Recognises-xx2 xvsqrtdp 203 refl (omega arith) refl refl refl
    & tt

singles-Recognises : All Recognises singles
unfolding singles xvaddsp xvsubsp xvmulsp xvdivsp xvmaddasp xvmaxsp xvminsp xvsqrtsp
singles-Recognises =
    Recognises-xx3 xvaddsp 64 refl (omega arith) refl refl refl
    & Recognises-xx3 xvsubsp 72 refl (omega arith) refl refl refl
    & Recognises-xx3 xvmulsp 80 refl (omega arith) refl refl refl
    & Recognises-xx3 xvdivsp 88 refl (omega arith) refl refl refl
    & Recognises-xx3 xvmaddasp 65 refl (omega arith) refl refl refl
    & Recognises-xx3 xvmaxsp 192 refl (omega arith) refl refl refl
    & Recognises-xx3 xvminsp 200 refl (omega arith) refl refl refl
    & Recognises-xx2 xvsqrtsp 139 refl (omega arith) refl refl refl
    & tt

pub ppc64-Recognises : All Recognises ppc64.insns
unfolding ppc64
ppc64-Recognises = All-append Recognises doubles singles doubles-Recognises singles-Recognises
