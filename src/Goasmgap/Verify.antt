-- ===== src/Goasmgap/Verify.antt =====
-- tools/goasmgap/main.go: verify.
pub mod Complete
use asmgen.Base.{ℕ, Bool, true, false, not, ◌&&◌, ◌||◌, List, [], ◌∷◌, ◌++◌, Option, none, some}
use asmgen.Base.Text.{Bytes}
use asmgen.Gap.{Insn, Arch}
use asmgen.Goasmgap.{Error, Fallible, done, failed, Assembler}
use asmgen.Goasmgap.Classify.{Status, supported, partial, absent, wrong, Detail, classify}

-- One line of the report; the entry stands for its name.
pub record Line : Type 0 where
  pub status : Status
  pub family : Bytes
  pub insn : Insn
  pub goarch : Bytes
  pub detail : Detail

-- `!(status == "WRONG" || require && status != "SUPPORTED")`
abbrev pub passes : Bool → Status → Bool
passes require supported = true
passes require partial = not require
passes require absent = not require
passes require wrong = false

-- The lines written, and then the value of `ok` or the error.
abbrev pub Report : Type 0
Report = List Line × Fallible Bool

abbrev pub and_then : Report → (Bool → Report) → Report
and_then (out, failed e) next = (out, failed e)
and_then (out, done ok) next = (out ++ (next ok).0, (next ok).1)

-- The answer to an empty function.
abbrev pub assembles : Fallible (List ℕ) → Bool
assembles (failed e) = false
assembles (done []) = false
assembles (done (w ∷ words)) = true

module _ (tc : Assembler) (require : Bool) where
  -- The three loops, from the inner one on, with the value of `ok` so far.
  pub verify_insns : Arch → Bytes → List Insn → Bool → Report
  unfolding classify
  verify_insns a goarch [] ok = ([], done ok)
  verify_insns a goarch (i ∷ insns) ok = elim (classify i tc goarch) [
    | failed e ↦ ([], failed e)
    | done (status, detail) ↦
        and_then
          (
            record { status = status; family = a.name; insn = i; goarch = goarch; detail = detail }
                ∷ [],
            done (ok && passes require status),
          )
          (λ t. verify_insns a goarch insns t)
  ]

  pub verify_targets : Arch → List Bytes → Bool → Report
  unfolding verify_insns
  verify_targets a [] ok = ([], done ok)
  verify_targets a (goarch ∷ targets) ok = elim (assembles (tc goarch [])) [
    | false ↦ ([], failed (Error.no_assembler goarch))
    | true ↦ and_then (verify_insns a goarch a.insns ok) (λ t. verify_targets a targets t)
  ]

  pub verify_arches : List Arch → Bool → Report
  unfolding verify_targets
  verify_arches [] ok = ([], done ok)
  verify_arches (a ∷ arches) ok =
      and_then (verify_targets a a.goarch ok) (λ t. verify_arches arches t)

  unfoldable pub verify : List Arch → Report
  unfolding verify_arches
  verify arches = verify_arches arches true
