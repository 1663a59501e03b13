-- ===== src/Gap/Loong64/Matches.antt =====
-- Each loong64 entry's opcode test against the words that its encoder returns.
use asmgen.Base.{
  ℕ, ◌<◌, ◌≡◌, refl, ◌/◌, ◌%◌, ◌^◌, arith, bit_and, List, All, All-append, ◌&◌, if◌then◌else◌,
}
use asmgen.Base.Int.{ℤ, pos, ltb_ℤ}
use asmgen.Base.Panics.{ok, panic, Panic, ◌>>=◌, >>=-eq-ok, passed}
use asmgen.Gap.{operand}
use asmgen.Gap.Matching.{Recognises, matches_masked, matches_second}
use asmgen.Gap.Loong64.{loong64}
use asmgen.Gap.Loong64.Format.{
  encode_r4, encode_ldrepl, encode_csr, encode_csrxchg, r4, ldrepl, csr,
}
use asmgen.Gap.Loong64.Laws.{r4_decodes, ldrepl_decodes, csr_decodes, csrxchg_decodes}
use asmgen.Gap.Loong64.Vector.{
  vectors, vfmadd_d, xvfmadd_d, vfmadd_s, xvfmadd_s, vldrepl_d, xvldrepl_d,
}
use asmgen.Gap.Loong64.Csr.{csrs, csrrd, csrwr, csrxchg}

module _ (base : ℕ) (hb : base < 2 ^ 32) (ops : List ℤ) (w : ℕ) where
  encode_r4-masked : base % 2 ^ 20 ≡ 0 → encode_r4 base ops ≡ ok w → bit_and w 0xfff00000 ≡ base
  encode_r4-masked clear e =
      let by : (operand ops 0 >>= λ d.
      operand ops 1 >>= λ j. operand ops 2 >>= λ k. operand ops 3 >>= λ a. r4 base d j k a)
          ≡ ok w =
        unfold encode_r4 in e in
      let (d, _, e1) = >>=-eq-ok (operand ops 0) _ by in
      let (j, _, e2) = >>=-eq-ok (operand ops 1) _ e1 in
      let (k, _, e3) = >>=-eq-ok (operand ops 2) _ e2 in
      let (a, _, e4) = >>=-eq-ok (operand ops 3) _ e3 in
      let (_, _, _, _, _, masked) = r4_decodes base d j k a w clear hb e4 in masked

  encode_ldrepl-masked :
      base % 2 ^ 19 ≡ 0 → encode_ldrepl base ops ≡ ok w → bit_and w 0xfff80000 ≡ base
  encode_ldrepl-masked clear e =
      let by : (operand ops 0 >>= λ d.
      operand ops 1 >>= λ rj. operand ops 2 >>= λ off. ldrepl base d rj off)
          ≡ ok w =
        unfold encode_ldrepl in e in
      let (d, _, e1) = >>=-eq-ok (operand ops 0) _ by in
      let (rj, _, e2) = >>=-eq-ok (operand ops 1) _ e1 in
      let (off, _, e3) = >>=-eq-ok (operand ops 2) _ e2 in
      let (_, _, _, _, masked) = ldrepl_decodes base d rj off w clear hb e3 in masked

  encode_csr-masked :
      base / 2 ^ 10 % 2 ^ 14 ≡ 0
      → base % 2 ^ 5 ≡ 0
      → base % 2 ^ 10 / 2 ^ 5 < 2
      → encode_csr base ops ≡ ok w
      → bit_and w 0xff0003e0 ≡ base
  encode_csr-masked clear low choice e =
      let by : (operand ops 0 >>= λ rd. operand ops 1 >>= λ num. csr base rd (pos 0) num) ≡ ok w =
        unfold encode_csr in e in
      let (rd, _, e1) = >>=-eq-ok (operand ops 0) _ by in
      let (num, _, e2) = >>=-eq-ok (operand ops 1) _ e1 in
      let (_, _, _, masked) = csr_decodes base rd num w clear low choice hb e2 in masked

csrxchg-Recognises : Recognises csrxchg
unfolding csrxchg
csrxchg-Recognises ops w e =
    let by : (operand ops 1 >>= λ rj.
    if ltb_ℤ rj (pos 2)
    then panic (Panic.bad_mask_register rj)
    else (operand ops 0 >>= λ rd. operand ops 2 >>= λ num. csr 0x04000000 rd rj num))
        ≡ ok w =
      unfold encode_csrxchg in e in
    let (rj, _, e1) = >>=-eq-ok (operand ops 1) _ by in
    let (atleast, e2) =
      passed (ltb_ℤ rj (pos 2)) (Panic.bad_mask_register rj)
        (operand ops 0 >>= λ rd. operand ops 2 >>= λ num. csr 0x04000000 rd rj num) w e1 in
    let (rd, _, e3) = >>=-eq-ok (operand ops 0) _ e2 in
    let (num, _, e4) = >>=-eq-ok (operand ops 2) _ e3 in
    let (_, _, _, _, first, second) = csrxchg_decodes rd rj num w atleast e4 in
    matches_second csrxchg w first second

vectors-Recognises : All Recognises vectors
unfolding vectors vfmadd_d xvfmadd_d vfmadd_s xvfmadd_s vldrepl_d xvldrepl_d
vectors-Recognises =
    (λ ops w e.
      matches_masked vfmadd_d w refl
        (encode_r4-masked 0x09200000 (omega arith) ops w (omega arith) e))
    & (λ ops w e.
        matches_masked xvfmadd_d w refl
          (encode_r4-masked 0x0a200000 (omega arith) ops w (omega arith) e))
    & (λ ops w e.
        matches_masked vfmadd_s w refl
          (encode_r4-masked 0x09100000 (omega arith) ops w (omega arith) e))
    & (λ ops w e.
        matches_masked xvfmadd_s w refl
          (encode_r4-masked 0x0a100000 (omega arith) ops w (omega arith) e))
    & (λ ops w e.
        matches_masked vldrepl_d w refl
          (encode_ldrepl-masked 0x30100000 (omega arith) ops w (omega arith) e))
    & (λ ops w e.
        matches_masked xvldrepl_d w refl
          (encode_ldrepl-masked 0x32100000 (omega arith) ops w (omega arith) e))
    & tt

csrs-Recognises : All Recognises csrs
unfolding csrs csrrd csrwr
csrs-Recognises =
    (λ ops w e. matches_masked csrrd w refl (
      encode_csr-masked 0x04000000 (omega arith) ops w (omega arith) (omega arith) (omega arith) e))
    & (λ ops w e. matches_masked csrwr w refl (
        encode_csr-masked 0x04000020 (omega arith) ops w (omega arith) (omega arith) (omega arith)
          e))
    & csrxchg-Recognises
    & tt

pub loong64-Recognises : All Recognises loong64.insns
unfolding loong64
loong64-Recognises = All-append Recognises vectors csrs vectors-Recognises csrs-Recognises
