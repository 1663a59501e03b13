-- ===== src/Goasmgap/Classify/Total.antt =====
-- tools/goasmgap/main.go: classify gives a status to every entry.
use asmgen.Base.{
  ℕ, suc, ◌≤◌, ◌≡◌, inl, inr, refl, ◌∙◌, arith, false, Bool-cases, List, [], ◌∷◌, ◌++◌, Option,
  none, some, Option-cases, ◌==◌, ltb, map, length,
}
use asmgen.Base.Text.{Bytes}
use asmgen.Gap.{Insn, Case}
use asmgen.Goasmgap.{Error, done, Assembler}
use asmgen.Goasmgap.Classify.{
  supported, wrong, Detail, Verdict, case_line, one_by_one, compare_all, judge_all, total, classify,
}
use asmgen.Goasmgap.Classify.Meaning.{together, together_by, apart_by}
use asmgen.Goasmgap.Classify.Tally.{answer, refused_by, right_by, wrong_by, Fallible-cases}

length-map : {A B : Type 0} (f : A → B) (xs : List A) → length (map f xs) ≡ length xs
length-map f [] = refl
length-map f (x ∷ xs) = omega (arith, length-map f xs)

module _ (i : Insn) (tc : Assembler) (goarch : Bytes) where
  -- An assembler that gives at least one word for each line.
  abbrev pub IsHonest : Type 0
  IsHonest =
      (lines : List Bytes) (words : List ℕ)
      → tc goarch lines ≡ done words
      → length lines ≤ length words

  one-by-one_total :
      IsHonest
      → (cases : List Case) (good : ℕ) (refused : List Bytes) (reason : Option Error)
      → (v : Verdict) × (one_by_one i tc goarch cases good refused reason ≡ done v)
  unfolding one_by_one
  one-by-one_total honest [] good refused reason = (_, refl)
  one-by-one_total honest (c ∷ cases) good refused reason =
      elim (Fallible-cases (answer i tc goarch c)) [
        | inl (e, h) ↦
            let (v, eq) =
              one-by-one_total honest cases good (refused ++ (case_line i c ∷ [])) (some e) in
            (v, refused_by i tc goarch c cases good refused reason e h ∙ eq)
        | inr (inl h) ↦ absurd (omega (arith, honest (case_line i c ∷ []) [] h))
        | inr (inr (w, ws, h)) ↦ elim (Bool-cases (w == c.want)) [
          | inl e ↦
              let (v, eq) = one-by-one_total honest cases (suc good) refused reason in
              (v, right_by i tc goarch c cases good refused reason w ws h e ∙ eq)
          | inr e ↦ (_, wrong_by i tc goarch c cases good refused reason w ws h e)
        ]
      ]

  judge-all_total :
      (words : List ℕ) → total i ≤ length words → (v : Verdict) × (judge_all i words ≡ done v)
  judge-all_total words n =
      let enough : ltb (length words) (total i) ≡ false = ground arith in
      elim (Option-cases (compare_all i i.golden words)) [
        | inl same ↦ ((supported, Detail.identical (total i) (total i)), rw (enough, same) refl)
        | inr (d, other) ↦ ((wrong, d), rw (enough, other) refl)
      ]

  all_answered :
      IsHonest → (words : List ℕ) → together i tc goarch ≡ done words → total i ≤ length words
  all_answered honest words e = omega (
    arith,
    honest (map (λ c. case_line i c) i.golden) words e,
    length-map (λ c. case_line i c) i.golden,
  )

  -- With an assembler that gives at least one word for each line, whatever it accepts, every entry
  -- gets a status.
  pub classify_total : IsHonest → (v : Verdict) × (classify i tc goarch ≡ done v)
  classify_total honest = elim (Fallible-cases (together i tc goarch)) [
    | inl (err, e) ↦
        let (v, eq) = one-by-one_total honest i.golden 0 [] none in
        (v, apart_by i tc goarch err e ∙ eq)
    | inr (inl e) ↦
        let (v, eq) = judge-all_total [] (all_answered honest [] e) in
        (v, together_by i tc goarch [] e ∙ eq)
    | inr (inr (w, ws, e)) ↦
        let (v, eq) = judge-all_total (w ∷ ws) (all_answered honest (w ∷ ws) e) in
        (v, together_by i tc goarch (w ∷ ws) e ∙ eq)
  ]
