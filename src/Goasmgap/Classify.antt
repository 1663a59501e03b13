-- ===== src/Goasmgap/Classify.antt =====
-- tools/goasmgap/main.go: classify.
pub mod Tally
pub mod Meaning
pub mod Total
use asmgen.Base.{
  ℕ, zero, suc, ◌+◌, Bool, List, [], ◌∷◌, ◌++◌, Option, none, some, map, length, ltb, ◌==◌,
  if◌then◌else◌,
}
use asmgen.Base.Text.{Bytes}
use asmgen.Gap.{Insn, Case, syntax}
use asmgen.Goasmgap.{Error, Fallible, done, failed, Assembler}

pub data Status : Type 0 where
  supported partial absent wrong : Status

-- What the detail's text is formatted from.
pub data Detail : Type 0 where
  -- "L assembled to W, SOURCE gives V"
  different : Bytes → ℕ → ℕ → Detail
  -- "N/M cases identical"
  identical : ℕ → ℕ → Detail
  -- the reason
  refusal : Option Error → Detail
  -- "N/M; refused: LINES (REASON)"
  mixed : ℕ → ℕ → List Bytes → Option Error → Detail

abbrev pub Verdict : Type 0
Verdict = Status × Detail

module _ (i : Insn) where
  -- The line of a reference case.
  abbrev pub case_line : Case → Bytes
  case_line c = syntax i c.ops

  -- The comparison when one file held all cases: the first case whose word differs.
  pub compare_all : List Case → List ℕ → Option Detail
  compare_all [] words = none
  compare_all (c ∷ cases) [] = none
  compare_all (c ∷ cases) (w ∷ words) =
      let rest = compare_all cases words in
      if w == c.want then rest else some (Detail.different (case_line c) w c.want)

  -- How many cases the entry has.
  abbrev pub total : ℕ
  total = length i.golden

  -- The `switch` at the end.
  abbrev pub summary : ℕ → List Bytes → Option Error → Verdict
  summary good [] reason = (supported, Detail.identical good total)
  summary zero (l ∷ refused) reason = (absent, Detail.refusal reason)
  summary (suc good) (l ∷ refused) reason =
      (partial, Detail.mixed (suc good) total (l ∷ refused) reason)

  -- What is made of the words of all lines.
  abbrev pub judge_all : List ℕ → Fallible Verdict
  judge_all words =
      if ltb (length words) total
      then failed (Error.few_words total (length words))
      else elim (compare_all i.golden words) [
        | some d ↦ done (wrong, d)
        | none ↦ done (supported, Detail.identical total total)
      ]

  module _ (tc : Assembler) (goarch : Bytes) where
    -- The loop over the cases, one file for each, with what it has counted.
    pub one_by_one : List Case → ℕ → List Bytes → Option Error → Fallible Verdict
    one_by_one [] good refused reason = done (summary good refused reason)
    one_by_one (c ∷ cases) good refused reason = elim (tc goarch (case_line c ∷ [])) [
      | failed e ↦ one_by_one cases good (refused ++ (case_line c ∷ [])) (some e)
      | done [] ↦ failed (Error.no_instruction (case_line c))
      | done (w ∷ later) ↦
          let rest = one_by_one cases (suc good) refused reason in
          if w == c.want then rest else done (wrong, Detail.different (case_line c) w c.want)
    ]

    unfoldable pub classify : Fallible Verdict
    unfolding one_by_one compare_all syntax
    classify = elim (tc goarch (map (λ c. case_line c) i.golden)) [
      | done words ↦ judge_all words
      | failed e ↦ one_by_one i.golden 0 [] none
    ]
