-- ===== src/Goasmgap/Command/Zero.antt =====
-- tools/goasmgap/main.go: what the exit status 0 of "verify -require" means.
use asmgen.Base.{
  ◌≡◌, ◌⊎◌, refl, sym, ap, ◌∙◌, arith, subst, Bool, true, false, ◌&&◌, inl, inr, List, [], ◌∷◌, map,
  some, All, beq,
}
use asmgen.Base.Text.{Bytes, codes}
use asmgen.Gap.{Arch}
use asmgen.Goasmgap.{Error, Fallible, done, failed, Assembler}
use asmgen.Goasmgap.Toolchain.{Host, new_toolchain}
use asmgen.Goasmgap.Classify.{Status, supported, partial, absent, wrong}
use asmgen.Goasmgap.Classify.Meaning.{Meaning, classify-Meaning}
use asmgen.Goasmgap.Verify.{Line, Report, passes, verify}
use asmgen.Goasmgap.Verify.Complete.{job_of, jobs, IsJudged, all_pass, verify-Complete}
use asmgen.Goasmgap.Scan.{Files}
use asmgen.Goasmgap.Command.{
  Exit, Flags, defaults, parse_flags, select_arches, run, run_verify, verified,
}

-- Every reference case of the line's entry is assembled as it should be.
abbrev pub IsConfirmed : Assembler → Line → Type 0
IsConfirmed tc l = Meaning l.insn tc l.goarch supported

passes-supported : (st : Status) → passes true st ≡ true → st ≡ supported
passes-supported supported h = refl
passes-supported partial h = cc
passes-supported absent h = cc
passes-supported wrong h = cc

both : (a b : Bool) → (a && b) ≡ true → (a ≡ true) × (b ≡ true)
both true b h = (refl, h)
both false b h = cc

confirmed :
    (tc : Assembler) (lines : List Line)
    → All (IsJudged tc) lines
    → all_pass true lines ≡ true
    → All (IsConfirmed tc) lines
confirmed tc [] judged h = tt
confirmed tc (l ∷ lines) (here, later) h =
    let (now, then_all) = both (passes true l.status) (all_pass true lines) h in
    (
      subst (Meaning l.insn tc l.goarch) (passes-supported l.status now)
          (classify-Meaning l.insn tc l.goarch l.status l.detail here),
      confirmed tc lines later then_all,
    )

Toolchain-cases :
    (r : Fallible Assembler) → ((e : Error) × (r ≡ failed e)) ⊎ ((tc : Assembler) × (r ≡ done tc))
Toolchain-cases (failed e) = inl (e, refl)
Toolchain-cases (done tc) = inr (tc, refl)

verified_zero : (r : Report) → (verified r).code ≡ 0 → r.1 ≡ done true
verified_zero (out, failed e) h = absurd (omega arith)
verified_zero (out, done true) h = refl
verified_zero (out, done false) h = absurd (omega arith)

verified_report : (r : Report) → (verified r).report ≡ r.0
verified_report (out, failed e) = refl
verified_report (out, done ok) = refl

module _ (h : Host) (fs : Files) where
  verify_by :
      (args : List Bytes) (fl : Flags) (selected : List Arch)
      → parse_flags args defaults ≡ some fl
      → select_arches fl.arch ≡ done selected
      → beq fl.goroot [] ≡ false
      → run h fs (codes "verify" ∷ args) ≡ run_verify h fs fl.goroot selected fl.require
  unfolding run
  verify_by args fl selected parsed chosen given = rw (parsed, chosen, given, run) refl

  no_toolchain :
      (goroot : Bytes) (selected : List Arch) (require : Bool) (e : Error)
      → new_toolchain h goroot ≡ failed e
      → (run_verify h fs goroot selected require).code ≡ 1
  no_toolchain goroot selected require e no_tool = rw (no_tool, run_verify) refl

  run_verify_by :
      (goroot : Bytes) (selected : List Arch) (require : Bool) (tc : Assembler)
      → new_toolchain h goroot ≡ done tc
      → require ≡ true
      → run_verify h fs goroot selected require ≡ verified (verify tc true selected)
  run_verify_by goroot selected require tc built required = rw (built, required, run_verify) refl

  -- When the flags read, the families are known, -goroot is given and -require is set: if `verify`
  -- exits with 0, the toolchain was built, every entry of every family chosen was reported for
  -- every target of the family, in order, and for each of them the assembler gives the reference
  -- words of all cases, in one file or, where it refuses that file, each in its own.
  pub run-zero :
      (args : List Bytes) (fl : Flags) (selected : List Arch)
      → parse_flags args defaults ≡ some fl
      → select_arches fl.arch ≡ done selected
      → beq fl.goroot [] ≡ false
      → fl.require ≡ true
      → (run h fs (codes "verify" ∷ args)).code ≡ 0
      → (tc : Assembler) × (new_toolchain h fl.goroot ≡ done tc)
        × (map (λ l. job_of l) (run h fs (codes "verify" ∷ args)).report ≡ jobs selected)
        × All (IsConfirmed tc) (run h fs (codes "verify" ∷ args)).report
  run-zero args fl selected parsed chosen given required zero_code =
      let by = verify_by args fl selected parsed chosen given in
      elim (Toolchain-cases (new_toolchain h fl.goroot)) [
        | inl (e, absent_tool) ↦
            let code_one = no_toolchain fl.goroot selected fl.require e absent_tool in
            absurd (omega (arith, code_one, subst (λ (x : Exit). x.code ≡ 0) by zero_code))
        | inr (tc, built) ↦
            let r = verify tc true selected in
            let same = by ∙ run_verify_by fl.goroot selected fl.require tc built required in
            let ended = verified_zero r (subst (λ (x : Exit). x.code ≡ 0) same zero_code) in
            let (names, judged, value) = verify-Complete tc true selected true ended in
            let shown = ap (λ (x : Exit). x.report) same ∙ verified_report r in
            (
              tc,
              built,
              subst (λ (out : List Line). map (λ l. job_of l) out ≡ jobs selected) (sym shown)
                  names,
              subst (λ (out : List Line). All (IsConfirmed tc) out) (sym shown)
                  (confirmed tc r.0 judged (sym value)),
            )
      ]
