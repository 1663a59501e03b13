-- ===== src/Goasmgap/Classify/Meaning.antt =====
-- tools/goasmgap/main.go: what each status of classify says about the assembler.
use asmgen.Base.{
  ℕ, zero, suc, ◌+◌, ◌≤◌, ◌≡◌, ◌≢◌, ◌⊎◌, inl, inr, refl, sym, ap, subst, ◌∙◌, arith, Bool-cases,
  List, [], ◌∷◌, ◌++◌, Option, none, some, Option-cases, get_elem?, ◌==◌, ==_iff, ltb, All, map,
  length,
}
use asmgen.Base.Text.{Bytes}
use asmgen.Gap.{Insn, Case}
use asmgen.Goasmgap.{Error, Fallible, done, failed, Assembler}
use asmgen.Goasmgap.Classify.{
  Status, supported, partial, absent, wrong, Detail, Verdict, case_line, one_by_one, summary,
  compare_all, judge_all, total, classify,
}
use asmgen.Goasmgap.Classify.Tally.{
  Fallible-cases, IsRight, IsRefused, IsDifferent, Tally, one_by_one_lem,
}

zero_plus : (n : ℕ) → 0 + n ≡ n
zero_plus n = omega arith

module _ (i : Insn) (tc : Assembler) (goarch : Bytes) where
  -- What the assembler makes of all cases in one file.
  abbrev pub together : Fallible (List ℕ)
  together = tc goarch (map (λ c. case_line i c) i.golden)

  abbrev pub IsRefusedTogether : Type 0
  IsRefusedTogether = (e : Error) × (together ≡ failed e)

  -- The words of the file begin with the reference words.
  abbrev pub IsRightTogether : Type 0
  IsRightTogether =
      (rest : List ℕ) × (together ≡ done (map (λ (c : Case). c.want) i.golden ++ rest))

  -- A case of the file has another word.
  abbrev pub IsDifferentTogether : Type 0
  IsDifferentTogether =
      (words : List ℕ) × (together ≡ done words)
      × ((k : ℕ) × (c : Case) × (w : ℕ) × (get_elem? i.golden k ≡ some c)
          × (get_elem? words k ≡ some w)
          × (w ≢ c.want))

  abbrev pub Some : (Case → Type 0) → Type 0
  Some P = (k : ℕ) × (c : Case) × (get_elem? i.golden k ≡ some c) × P c

  abbrev pub Meaning : Status → Type 0
  Meaning supported = IsRightTogether ⊎ (IsRefusedTogether × All (IsRight i tc goarch) i.golden)
  Meaning partial =
      IsRefusedTogether
      × All (λ c. IsRight i tc goarch c ⊎ IsRefused i tc goarch c) i.golden
      × Some (IsRight i tc goarch)
      × Some (IsRefused i tc goarch)
  Meaning absent = IsRefusedTogether × All (IsRefused i tc goarch) i.golden × (i.golden ≢ [])
  Meaning wrong = IsDifferentTogether ⊎ (IsRefusedTogether × Some (IsDifferent i tc goarch))

  -- Readings of a tally.
  no_refusal :
      (cases : List Case) (g : ℕ) → Tally i tc goarch cases g [] → All (IsRight i tc goarch) cases
  no_refusal [] g t = tt
  no_refusal (c ∷ cases) g (Tally.right h t) = (h, no_refusal cases _ t)

  none_right :
      (cases : List Case) (r : List Bytes)
      → Tally i tc goarch cases 0 r
      → All (IsRefused i tc goarch) cases
  none_right [] r t = tt
  none_right (c ∷ cases) r (Tally.refusal h t) = (h, none_right cases _ t)

  each :
      (cases : List Case) (g : ℕ) (r : List Bytes)
      → Tally i tc goarch cases g r
      → All (λ c. IsRight i tc goarch c ⊎ IsRefused i tc goarch c) cases
  each [] g r t = tt
  each (c ∷ cases) g r (Tally.right h t) = (inl h, each cases _ r t)
  each (c ∷ cases) g r (Tally.refusal h t) = (inr h, each cases g _ t)

  abbrev Found : (Case → Type 0) → List Case → Type 0
  Found P cases = (k : ℕ) × (c : Case) × (get_elem? cases k ≡ some c) × P c

  further : (P : Case → Type 0) (d : Case) (cases : List Case) → Found P cases → Found P (d ∷ cases)
  further P d cases (k, c, at, h) = (suc k, c, at, h)

  some-IsRight :
      (cases : List Case) (g : ℕ) (r : List Bytes)
      → Tally i tc goarch cases (suc g) r
      → Found (IsRight i tc goarch) cases
  some-IsRight [] g r t = elim t [ ]
  some-IsRight (c ∷ cases) g r (Tally.right h t) = (0, c, refl, h)
  some-IsRight (c ∷ cases) g r (Tally.refusal h t) = further _ c cases (some-IsRight cases g _ t)

  refused_some :
      (cases : List Case) (g : ℕ) (l : Bytes) (r : List Bytes)
      → Tally i tc goarch cases g (l ∷ r)
      → cases ≢ []
  refused_some [] g l r t = elim t [ ]
  refused_some (c ∷ cases) g l r t = cc

  some-IsRefused :
      (cases : List Case) (g : ℕ) (l : Bytes) (r : List Bytes)
      → Tally i tc goarch cases g (l ∷ r)
      → Found (IsRefused i tc goarch) cases
  some-IsRefused [] g l r t = elim t [ ]
  some-IsRefused (c ∷ cases) g l r (Tally.right h t) =
      further _ c cases (some-IsRefused cases _ l r t)
  some-IsRefused (c ∷ cases) g l r (Tally.refusal h t) = (0, c, refl, h)

  same_words :
      (cases : List Case) (words : List ℕ)
      → length cases ≤ length words
      → compare_all i cases words ≡ none
      → (rest : List ℕ) × (words ≡ map (λ (c : Case). c.want) cases ++ rest)
  unfolding compare_all
  same_words [] words n h = (words, refl)
  same_words (c ∷ cases) [] n h = absurd (omega arith)
  same_words (c ∷ cases) (w ∷ words) n h = elim (Bool-cases (w == c.want)) [
    | inl e ↦
        let (rest, eq) = same_words cases words (omega arith) (rw (e, compare_all) at h) in
        (rest, cc ((==_iff w c.want).0 e, eq))
    | inr e ↦ cc (rw (e, compare_all) at h)
  ]

  other_word :
      (cases : List Case) (words : List ℕ) (d : Detail)
      → compare_all i cases words ≡ some d
      → (k : ℕ) × (c : Case) × (w : ℕ) × (get_elem? cases k ≡ some c)
        × (get_elem? words k ≡ some w)
        × (w ≢ c.want)
  unfolding compare_all
  other_word [] words d h = cc
  other_word (c ∷ cases) [] d h = cc
  other_word (c ∷ cases) (w ∷ words) d h = elim (Bool-cases (w == c.want)) [
    | inl e ↦
        let (k, d', v, at, at', ne) = other_word cases words d (rw (e, compare_all) at h) in
        (suc k, d', v, at, at', ne)
    | inr e ↦ (0, c, w, refl, refl, ground arith)
  ]

  pub together_by :
      (words : List ℕ) → together ≡ done words → classify i tc goarch ≡ judge_all i words
  unfolding classify
  together_by words e = rw (e, classify) refl

  pub apart_by :
      (e : Error)
      → together ≡ failed e
      → classify i tc goarch ≡ one_by_one i tc goarch i.golden 0 [] none
  unfolding classify
  apart_by err e = rw (e, classify) refl

  judged :
      (words : List ℕ) (st : Status) (d : Detail)
      → together ≡ done words
      → judge_all i words ≡ done (st, d)
      → Meaning st
  judged words st d e h = elim (Bool-cases (ltb (length words) (total i))) [
    | inl few ↦ cc (rw few at h)
    | inr enough ↦ elim (Option-cases (compare_all i i.golden words)) [
      | inl same ↦
          let (rest, eq) = same_words i.golden words (ground arith) same in
          let right : IsRightTogether = (rest, cc (e, eq)) in
          let m : Meaning supported = inl right in
          let is : supported ≡ st = cc (rw (enough, same) at h) in subst Meaning is m
      | inr (d', other) ↦
          let different : IsDifferentTogether = (words, e, other_word i.golden words d' other) in
          let m : Meaning wrong = inl different in
          let is : wrong ≡ st = cc (rw (enough, other) at h) in subst Meaning is m
    ]
  ]

  tallied :
      (g : ℕ) (r : List Bytes) (reason : Option Error) (st : Status) (d : Detail)
      → IsRefusedTogether
      → Tally i tc goarch i.golden g r
      → (st, d) ≡ summary i g r reason
      → Meaning st
  tallied g [] reason st d e t h =
      let m : Meaning supported = inr (e, no_refusal i.golden g t) in
      subst Meaning (sym (ap (λ (v : Verdict). v.0) h)) m
  tallied zero (l ∷ r) reason st d e t h =
      let m : Meaning absent = (e, none_right i.golden (l ∷ r) t, refused_some i.golden 0 l r t) in
      subst Meaning (sym (ap (λ (v : Verdict). v.0) h)) m
  tallied (suc g) (l ∷ r) reason st d e t h =
      let m : Meaning partial = (
        e,
        each i.golden (suc g) (l ∷ r) t,
        some-IsRight i.golden g (l ∷ r) t,
        some-IsRefused i.golden (suc g) l r t,
      ) in
      subst Meaning (sym (ap (λ (v : Verdict). v.0) h)) m

  -- Each status says what the assembler does. SUPPORTED: the file of all cases gives the reference
  -- words in order, or that file is refused and each case alone gives its own. WRONG: some case's
  -- word is another one, in the file of all cases or, when that is refused, in its own. ABSENT: the
  -- file of all cases is refused and so is each case, and there is one. PARTIAL: the file of all
  -- cases is refused, and each case alone gives its word or is refused, some the one and some the
  -- other.
  pub classify-Meaning :
      (st : Status) (d : Detail) → classify i tc goarch ≡ done (st, d) → Meaning st
  classify-Meaning st d h = elim (Fallible-cases together) [
    | inl (err, e) ↦
        elim (one_by_one_lem i tc goarch i.golden 0 [] none (st, d) (sym (apart_by err e) ∙ h)) [
          | inl (g, r, reason, t, same) ↦
              tallied g r reason st d (err, e) t (cc (zero_plus g, same))
          | inr (k, c, at, different, is_wrong) ↦
              subst Meaning (sym is_wrong) (inr ((err, e), (k, c, at, different)))
        ]
    | inr (inl e) ↦ judged [] st d e (sym (together_by [] e) ∙ h)
    | inr (inr (w, ws, e)) ↦ judged (w ∷ ws) st d e (sym (together_by (w ∷ ws) e) ∙ h)
  ]
