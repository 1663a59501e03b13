-- ===== src/Gap/S390x/Matches.antt =====
-- Each s390x entry's opcode test against the words that its encoder returns.
use asmgen.Base.{ℕ, ◌<◌, ◌≡◌, refl, sym, arith, bit_and, List, All, All-append, ◌&◌, ◌<<<◌, ◌|||◌}
use asmgen.Base.Int.{ℤ}
use asmgen.Base.Panics.{ok, ◌>>=◌, >>=-eq-ok}
use asmgen.Gap.{Insn, operand}
use asmgen.Gap.Matching.{Recognises, matches_masked}
use asmgen.Gap.S390x.{s390x}
use asmgen.Gap.S390x.Format.{encode_vrrc, encode_vrre, encode_vrra, vrrc, vrre, vrra}
use asmgen.Gap.S390x.Laws.{vrrc_decodes, vrre_decodes, vrra_decodes}
use asmgen.Gap.S390x.Three.{threes, vfasb, wfasb, vfssb, wfssb, vfmsb, wfmsb, vfdsb, wfdsb}
use asmgen.Gap.S390x.Other.{others, vfmasb, wfmasb, vfmssb, wfmssb, vfsqsb, wfsqsb}

module _ (op m : ℕ) (ho : op < 256) (hm : m < 16) (ops : List ℤ) (w : ℕ) where
  encode_vrrc-masked :
      encode_vrrc op m ops ≡ ok w
      → bit_and w 0xff000ffff0ff ≡ (0xe7 <<< 40 ||| m <<< 16 ||| 2 <<< 12 ||| op)
  encode_vrrc-masked e =
      let by : (operand ops 0 >>= λ v1.
      operand ops 1 >>= λ v2. operand ops 2 >>= λ v3. vrrc op 2 m v1 v2 v3)
          ≡ ok w =
        unfold encode_vrrc in e in
      let (v1, _, e1) = >>=-eq-ok (operand ops 0) _ by in
      let (v2, _, e2) = >>=-eq-ok (operand ops 1) _ e1 in
      let (v3, _, e3) = >>=-eq-ok (operand ops 2) _ e2 in
      let (_, _, _, _, masked) = vrrc_decodes op m v1 v2 v3 w ho hm e3 in masked

  encode_vrre-masked :
      encode_vrre op m ops ≡ ok w
      → bit_and w 0xff000fff00ff ≡ (0xe7 <<< 40 ||| 2 <<< 24 ||| m <<< 16 ||| op)
  encode_vrre-masked e =
      let by : (operand ops 0 >>= λ v1. operand ops 1 >>= λ v2.
      operand ops 2 >>= λ v3. operand ops 3 >>= λ v4. vrre op 2 m v1 v2 v3 v4)
          ≡ ok w =
        unfold encode_vrre in e in
      let (v1, _, e1) = >>=-eq-ok (operand ops 0) _ by in
      let (v2, _, e2) = >>=-eq-ok (operand ops 1) _ e1 in
      let (v3, _, e3) = >>=-eq-ok (operand ops 2) _ e2 in
      let (v4, _, e4) = >>=-eq-ok (operand ops 3) _ e3 in
      let (_, _, _, _, _, masked) = vrre_decodes op m v1 v2 v3 v4 w ho hm e4 in masked

  encode_vrra-masked :
      encode_vrra op m ops ≡ ok w
      → bit_and w 0xff00fffff0ff ≡ (0xe7 <<< 40 ||| m <<< 16 ||| 2 <<< 12 ||| op)
  encode_vrra-masked e =
      let by : (operand ops 0 >>= λ v1. operand ops 1 >>= λ v2. vrra op 2 m v1 v2) ≡ ok w =
        unfold encode_vrra in e in
      let (v1, _, e1) = >>=-eq-ok (operand ops 0) _ by in
      let (v2, _, e2) = >>=-eq-ok (operand ops 1) _ e1 in
      let (_, _, _, masked) = vrra_decodes op m v1 v2 w ho hm e2 in masked

module _ (i : Insn) (op m : ℕ) (ho : op < 256) (hm : m < 16) (first : i.not_mask ≡ 0) where
  Recognises-vrrc :
      i.mask ≡ 0xff000ffff0ff
      → i.bits ≡ (0xe7 <<< 40 ||| m <<< 16 ||| 2 <<< 12 ||| op)
      → i.encode ≡ encode_vrrc op m
      → Recognises i
  Recognises-vrrc em eb ee ops w e =
      let masked = encode_vrrc-masked op m ho hm ops w (rw (sym ee) e) in
      matches_masked i w first (rw (em, eb) masked)

  Recognises-vrre :
      i.mask ≡ 0xff000fff00ff
      → i.bits ≡ (0xe7 <<< 40 ||| 2 <<< 24 ||| m <<< 16 ||| op)
      → i.encode ≡ encode_vrre op m
      → Recognises i
  Recognises-vrre em eb ee ops w e =
      let masked = encode_vrre-masked op m ho hm ops w (rw (sym ee) e) in
      matches_masked i w first (rw (em, eb) masked)

  Recognises-vrra :
      i.mask ≡ 0xff00fffff0ff
      → i.bits ≡ (0xe7 <<< 40 ||| m <<< 16 ||| 2 <<< 12 ||| op)
      → i.encode ≡ encode_vrra op m
      → Recognises i
  Recognises-vrra em eb ee ops w e =
      let masked = encode_vrra-masked op m ho hm ops w (rw (sym ee) e) in
      matches_masked i w first (rw (em, eb) masked)

threes-Recognises : All Recognises threes
unfolding threes vfasb wfasb vfssb wfssb vfmsb wfmsb vfdsb wfdsb
threes-Recognises =
    Recognises-vrrc vfasb 0xe3 0 (omega arith) (omega arith) refl refl refl refl
    & Recognises-vrrc wfasb 0xe3 8 (omega arith) (omega arith) refl refl refl refl
    & Recognises-vrrc vfssb 0xe2 0 (omega arith) (omega arith) refl refl refl refl
    & Recognises-vrrc wfssb 0xe2 8 (omega arith) (omega arith) refl refl refl refl
    & Recognises-vrrc vfmsb 0xe7 0 (omega arith) (omega arith) refl refl refl refl
    & Recognises-vrrc wfmsb 0xe7 8 (omega arith) (omega arith) refl refl refl refl
    & Recognises-vrrc vfdsb 0xe5 0 (omega arith) (omega arith) refl refl refl refl
    & Recognises-vrrc wfdsb 0xe5 8 (omega arith) (omega arith) refl refl refl refl
    & tt

others-Recognises : All Recognises others
unfolding others vfmasb wfmasb vfmssb wfmssb vfsqsb wfsqsb
others-Recognises =
    Recognises-vrre vfmasb 0x8f 0 (omega arith) (omega arith) refl refl refl refl
    & Recognises-vrre wfmasb 0x8f 8 (omega arith) (omega arith) refl refl refl refl
    & Recognises-vrre vfmssb 0x8e 0 (omega arith) (omega arith) refl refl refl refl
    & Recognises-vrre wfmssb 0x8e 8 (omega arith) (omega arith) refl refl refl refl
    & Recognises-vrra vfsqsb 0xce 0 (omega arith) (omega arith) refl refl refl refl
    & Recognises-vrra wfsqsb 0xce 8 (omega arith) (omega arith) refl refl refl refl
    & tt

pub s390x-Recognises : All Recognises s390x.insns
unfolding s390x
s390x-Recognises = All-append Recognises threes others threes-Recognises others-Recognises
