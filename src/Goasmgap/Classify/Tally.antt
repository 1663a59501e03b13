-- ===== src/Goasmgap/Classify/Tally.antt =====
-- tools/goasmgap/main.go: the loop of classify that assembles one case at a time.
use asmgen.Base.{
  ℕ, suc, ◌+◌, ◌≡◌, ◌≢◌, ◌⊎◌, inl, inr, refl, sym, ◌∙◌, arith, true, false, Bool-cases, List, [],
  ◌∷◌, ◌++◌, append_assoc, append-nil, Option, some, get_elem?, ◌==◌, ==_iff,
}
use asmgen.Base.Text.{Bytes}
use asmgen.Gap.{Insn, Case}
use asmgen.Goasmgap.{Error, Fallible, done, failed, Assembler}
use asmgen.Goasmgap.Classify.{wrong, Detail, Verdict, case_line, one_by_one, summary}

pub Fallible-cases :
    (r : Fallible (List ℕ))
    → ((e : Error) × (r ≡ failed e))
      ⊎ ((r ≡ done []) ⊎ ((w : ℕ) × (ws : List ℕ) × (r ≡ done (w ∷ ws))))
Fallible-cases (failed e) = inl (e, refl)
Fallible-cases (done []) = inr (inl refl)
Fallible-cases (done (w ∷ ws)) = inr (inr (w, ws, refl))

plus_zero : (n : ℕ) → n + 0 ≡ n
plus_zero n = omega arith

plus_suc : (m n : ℕ) → suc m + n ≡ m + suc n
plus_suc m n = omega arith

module _ (i : Insn) (tc : Assembler) (goarch : Bytes) where
  -- What the assembler makes of one case alone.
  abbrev pub answer : Case → Fallible (List ℕ)
  answer c = tc goarch (case_line i c ∷ [])

  abbrev pub IsRight : Case → Type 0
  IsRight c = (ws : List ℕ) × (answer c ≡ done (c.want ∷ ws))

  abbrev pub IsRefused : Case → Type 0
  IsRefused c = (e : Error) × (answer c ≡ failed e)

  abbrev pub IsDifferent : Case → Type 0
  IsDifferent c = (w : ℕ) × (ws : List ℕ) × (answer c ≡ done (w ∷ ws)) × (w ≢ c.want)

  -- How many of the cases are right, and the lines of the refused ones.
  pub data Tally : List Case → ℕ → List Bytes → Type 0 where
    nothing : Tally [] 0 []
    right :
        {c : Case} {cases : List Case} {good : ℕ} {refused : List Bytes}
        → IsRight c
        → Tally cases good refused
        → Tally (c ∷ cases) (suc good) refused
    refusal :
        {c : Case} {cases : List Case} {good : ℕ} {refused : List Bytes}
        → IsRefused c
        → Tally cases good refused
        → Tally (c ∷ cases) good (case_line i c ∷ refused)

  -- The first case that differs, and the verdict on it.
  abbrev pub Wrong : List Case → Verdict → Type 0
  Wrong cases v =
      (k : ℕ) × (c : Case) × (get_elem? cases k ≡ some c) × IsDifferent c × (v.0 ≡ wrong)

  abbrev Counted : List Case → ℕ → List Bytes → Verdict → Type 0
  Counted cases good refused v =
      ((g : ℕ) × (r : List Bytes) × (reason : Option Error) × Tally cases g r
        × (v ≡ summary i (good + g) (refused ++ r) reason))
      ⊎ Wrong cases v

  later-Wrong : (c : Case) (cases : List Case) (v : Verdict) → Wrong cases v → Wrong (c ∷ cases) v
  later-Wrong c cases v (k, d, at, h, e) = (suc k, d, at, h, e)

  pub refused_by :
      (c : Case) (cases : List Case) (good : ℕ) (refused : List Bytes) (reason : Option Error)
      (e : Error)
      → answer c ≡ failed e
      → one_by_one i tc goarch (c ∷ cases) good refused reason
        ≡ one_by_one i tc goarch cases good (refused ++ (case_line i c ∷ [])) (some e)
  unfolding one_by_one
  refused_by c cases good refused reason e h = rw (h, one_by_one) refl

  pub right_by :
      (c : Case) (cases : List Case) (good : ℕ) (refused : List Bytes) (reason : Option Error)
      (w : ℕ) (ws : List ℕ)
      → answer c ≡ done (w ∷ ws)
      → (w == c.want) ≡ true
      → one_by_one i tc goarch (c ∷ cases) good refused reason
        ≡ one_by_one i tc goarch cases (suc good) refused reason
  unfolding one_by_one
  right_by c cases good refused reason w ws h e = rw (h, e, one_by_one) refl

  pub wrong_by :
      (c : Case) (cases : List Case) (good : ℕ) (refused : List Bytes) (reason : Option Error)
      (w : ℕ) (ws : List ℕ)
      → answer c ≡ done (w ∷ ws)
      → (w == c.want) ≡ false
      → one_by_one i tc goarch (c ∷ cases) good refused reason
        ≡ done (wrong, Detail.different (case_line i c) w c.want)
  unfolding one_by_one
  wrong_by c cases good refused reason w ws h e = rw (h, e, one_by_one) refl

  silent_by :
      (c : Case) (cases : List Case) (good : ℕ) (refused : List Bytes) (reason : Option Error)
      → answer c ≡ done []
      → one_by_one i tc goarch (c ∷ cases) good refused reason
        ≡ failed (Error.no_instruction (case_line i c))
  unfolding one_by_one
  silent_by c cases good refused reason h = rw (h, one_by_one) refl

  pub one_by_one_lem :
      (cases : List Case) (good : ℕ) (refused : List Bytes) (reason : Option Error) (v : Verdict)
      → one_by_one i tc goarch cases good refused reason ≡ done v
      → Counted cases good refused v
  unfolding one_by_one
  one_by_one_lem [] good refused reason v h =
      inl (0, [], reason, Tally.nothing, cc (append-nil refused, plus_zero good, h))
  one_by_one_lem (c ∷ cases) good refused reason v h = elim (Fallible-cases (answer c)) [
    | inl (e, h') ↦
        elim (one_by_one_lem cases good (refused ++ (case_line i c ∷ [])) (some e) v
          (sym (refused_by c cases good refused reason e h') ∙ h)) [
            | inl (g, r, why, t, same) ↦ inl (
              g,
              case_line i c ∷ r,
              why,
              Tally.refusal (e, h') t,
              cc (append_assoc refused (case_line i c ∷ []) r, same),
            )
            | inr x ↦ inr (later-Wrong c cases v x)
          ]
    | inr (inl h') ↦ cc (silent_by c cases good refused reason h', h)
    | inr (inr (w, ws, h')) ↦ elim (Bool-cases (w == c.want)) [
      | inl e ↦
          elim (one_by_one_lem cases (suc good) refused reason v
            (sym (right_by c cases good refused reason w ws h' e) ∙ h)) [
              | inl (g, r, why, t, same) ↦ inl (
                suc g,
                r,
                why,
                Tally.right (ws, cc (h', (==_iff w c.want).0 e)) t,
                cc (plus_suc good g, same),
              )
              | inr x ↦ inr (later-Wrong c cases v x)
            ]
      | inr e ↦ inr (
        0,
        c,
        refl,
        (w, ws, h', ground arith),
        cc (wrong_by c cases good refused reason w ws h' e, h),
      )
    ]
  ]
