-- ===== src/Gap/Arm64/Matches.antt =====
-- Each arm64 entry's opcode test against the words that its encoder returns.
use asmgen.Base.{ℕ, ◌≡◌, refl, sym, arith, bit_and, Bool, true, false, List, All, ◌&◌}
use asmgen.Base.Text.{codes}
use asmgen.Base.Int.{ℤ}
use asmgen.Base.Panics.{ok, ◌>>=◌, >>=-eq-ok}
use asmgen.Gap.{Insn, operand}
use asmgen.Gap.Matching.{Recognises, matches_masked}
use asmgen.Gap.Arm64.{arm64, elements}
use asmgen.Gap.Arm64.Format.{encode_element, by_element, base_s, base_d, elem_insn}
use asmgen.Gap.Arm64.Golden.{
  fmla_4s_golden, fmla_2d_golden, fmls_4s_golden, fmls_2d_golden, fmul_4s_golden, fmul_2d_golden,
}
use asmgen.Gap.Arm64.Fields.{HasRoom}
use asmgen.Gap.Arm64.Laws.{single_decodes, double_decodes}

module _ (base : ℕ) (room : HasRoom base) (ops : List ℤ) (w : ℕ) where
  encode_element-ok :
      (d : Bool)
      → encode_element base d ops ≡ ok w
      → (vd vn vm index : ℤ) × (by_element base d vd vn vm index ≡ ok w)
  encode_element-ok d e =
      let by : (operand ops 0 >>= λ vd. operand ops 1 >>= λ vn.
      operand ops 2 >>= λ vm. operand ops 3 >>= λ index. by_element base d vd vn vm index)
          ≡ ok w =
        unfold encode_element in e in
      let (vd, _, e1) = >>=-eq-ok (operand ops 0) _ by in
      let (vn, _, e2) = >>=-eq-ok (operand ops 1) _ e1 in
      let (vm, _, e3) = >>=-eq-ok (operand ops 2) _ e2 in
      let (index, _, e4) = >>=-eq-ok (operand ops 3) _ e3 in (vd, vn, vm, index, e4)

  single-masked : encode_element base false ops ≡ ok w → bit_and w 0xffc0f400 ≡ base
  single-masked e =
      let (vd, vn, vm, index, by) = encode_element-ok false e in
      let (_, _, _, _, _, masked) = single_decodes base vd vn vm index w room by in masked

  double-masked : encode_element base true ops ≡ ok w → bit_and w 0xffe0f400 ≡ base
  double-masked e =
      let (vd, vn, vm, index, by) = encode_element-ok true e in
      let (_, _, _, _, _, masked) = double_decodes base vd vn vm index w room by in masked

module _ (i : Insn) (base : ℕ) (room : HasRoom base) (first : i.not_mask ≡ 0)
    (eb : i.bits ≡ base) where
  Recognises-single : i.mask ≡ 0xffc0f400 → i.encode ≡ encode_element base false → Recognises i
  Recognises-single em ee ops w e =
      let masked = single-masked base room ops w (rw (sym ee) e) in
      matches_masked i w first (rw (em, eb) masked)

  Recognises-double : i.mask ≡ 0xffe0f400 → i.encode ≡ encode_element base true → Recognises i
  Recognises-double em ee ops w e =
      let masked = double-masked base room ops w (rw (sym ee) e) in
      matches_masked i w first (rw (em, eb) masked)

pub arm64-Recognises : All Recognises arm64.insns
unfolding arm64 elements
arm64-Recognises =
    Recognises-single (elem_insn (codes "fmla") (codes "VFMLA") 0x1 false fmla_4s_golden)
      (base_s 0x1) (refl, refl, refl, omega arith) refl refl refl refl
    & Recognises-double (elem_insn (codes "fmla") (codes "VFMLA") 0x1 true fmla_2d_golden)
        (base_d 0x1) (refl, refl, refl, omega arith) refl refl refl refl
    & Recognises-single (elem_insn (codes "fmls") (codes "VFMLS") 0x5 false fmls_4s_golden)
        (base_s 0x5) (refl, refl, refl, omega arith) refl refl refl refl
    & Recognises-double (elem_insn (codes "fmls") (codes "VFMLS") 0x5 true fmls_2d_golden)
        (base_d 0x5) (refl, refl, refl, omega arith) refl refl refl refl
    & Recognises-single (elem_insn (codes "fmul") (codes "VFMUL") 0x9 false fmul_4s_golden)
        (base_s 0x9) (refl, refl, refl, omega arith) refl refl refl refl
    & Recognises-double (elem_insn (codes "fmul") (codes "VFMUL") 0x9 true fmul_2d_golden)
        (base_d 0x9) (refl, refl, refl, omega arith) refl refl refl refl
    & tt
