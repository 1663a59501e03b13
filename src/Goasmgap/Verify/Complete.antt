-- ===== src/Goasmgap/Verify/Complete.antt =====
-- tools/goasmgap/main.go: what verify reports.
use asmgen.Base.{
  ◌≡◌, refl, ap, sym, subst, ◌⊎◌, ◌∙◌, Bool, true, false, ◌&&◌, Bool-cases, inl, inr, List, [], ◌∷◌,
  ◌++◌, map, All, All-append,
}
use asmgen.Base.Text.{Bytes}
use asmgen.Gap.{Insn, Arch}
use asmgen.Goasmgap.{Error, Fallible, done, failed, Assembler}
use asmgen.Goasmgap.Classify.{Status, Detail, Verdict, classify}
use asmgen.Goasmgap.Verify.{
  Line, Report, passes, and_then, assembles, verify_insns, verify_targets, verify_arches, verify,
}

-- A family's name, a target and an entry.
abbrev pub Job : Type 0
Job = Bytes × (Bytes × Insn)

abbrev pub job_of : Line → Job
job_of l = (l.family, (l.goarch, l.insn))

-- The entries for one target, those of a family for its targets, those of all families.
abbrev pub insn_jobs : Arch → Bytes → List Insn → List Job
insn_jobs a goarch [] = []
insn_jobs a goarch (i ∷ insns) = (a.name, (goarch, i)) ∷ insn_jobs a goarch insns

abbrev pub target_jobs : Arch → List Bytes → List Job
target_jobs a [] = []
target_jobs a (goarch ∷ targets) = insn_jobs a goarch a.insns ++ target_jobs a targets

abbrev pub jobs : List Arch → List Job
jobs [] = []
jobs (a ∷ arches) = target_jobs a a.goarch ++ jobs arches

map-append_jobs :
    (xs ys : List Line)
    → map (λ l. job_of l) (xs ++ ys) ≡ map (λ l. job_of l) xs ++ map (λ l. job_of l) ys
map-append_jobs [] ys = refl
map-append_jobs (x ∷ xs) ys = rw (map-append_jobs xs ys) refl

and_assoc : (a b c : Bool) → ((a && b) && c) ≡ (a && (b && c))
and_assoc true b c = refl
and_assoc false b c = refl

and_true : (a : Bool) → (a && true) ≡ a
and_true true = refl
and_true false = refl

-- The line says what classify says.
abbrev pub IsJudged : Assembler → Line → Type 0
IsJudged tc l = classify l.insn tc l.goarch ≡ done (l.status, l.detail)

abbrev pub all_pass : Bool → List Line → Bool
all_pass require [] = true
all_pass require (l ∷ lines) = passes require l.status && all_pass require lines

all_pass-append :
    (require : Bool) (xs ys : List Line)
    → all_pass require (xs ++ ys) ≡ (all_pass require xs && all_pass require ys)
all_pass-append require [] ys = refl
all_pass-append require (x ∷ xs) ys =
    rw (all_pass-append require xs ys)
      (sym (and_assoc (passes require x.status) (all_pass require xs) (all_pass require ys)))

Verdict-cases :
    (r : Fallible Verdict)
    → ((e : Error) × (r ≡ failed e)) ⊎ ((st : Status) × (d : Detail) × (r ≡ done (st, d)))
Verdict-cases (failed e) = inl (e, refl)
Verdict-cases (done (st, d)) = inr (st, d, refl)

module _ (tc : Assembler) (require : Bool) where
  -- A report on the jobs, for a value of `ok` before it.
  abbrev IsReport : List Job → Bool → Report → Type 0
  IsReport js ok r =
      (b : Bool)
      → r.1 ≡ done b
      → (map (λ l. job_of l) r.0 ≡ js) × All (IsJudged tc) r.0 × (b ≡ (ok && all_pass require r.0))

  and_then-IsReport :
      (js js' : List Job) (ok : Bool) (r : Report) (next : Bool → Report)
      → IsReport js ok r
      → ((t : Bool) → IsReport js' t (next t))
      → IsReport (js ++ js') ok (and_then r next)
  and_then-IsReport js js' ok (out, failed e) next here later b h = cc
  and_then-IsReport js js' ok (out, done t) next here later b h =
      let (names, judged, value) = here t refl in
      let (names', judged', value') = later t b h in
      (
        rw (map-append_jobs out (next t).0, names, names') refl,
        All-append (IsJudged tc) out (next t).0 judged judged',
        value'
            ∙ (ap (λ x. x && all_pass require (next t).0) value
                ∙ (and_assoc ok (all_pass require out) (all_pass require (next t).0)
                    ∙ ap (λ x. ok && x) (sym (all_pass-append require out (next t).0)))),
      )

  nothing-IsReport : (ok : Bool) → IsReport [] ok ([], done ok)
  nothing-IsReport ok b h = (refl, tt, cc (and_true ok, h))

  abbrev line : Arch → Bytes → Insn → Status → Detail → Line
  line a goarch i st d = record {
    status = st;
    family = a.name;
    insn = i;
    goarch = goarch;
    detail = d;
  }

  insn_failed :
      (a : Arch) (goarch : Bytes) (i : Insn) (insns : List Insn) (ok : Bool) (e : Error)
      → classify i tc goarch ≡ failed e
      → verify_insns tc require a goarch (i ∷ insns) ok ≡ ([], failed e)
  unfolding verify_insns
  insn_failed a goarch i insns ok e h = rw (h, verify_insns) refl

  insn_done :
      (a : Arch) (goarch : Bytes) (i : Insn) (insns : List Insn) (ok : Bool) (st : Status)
      (d : Detail)
      → classify i tc goarch ≡ done (st, d)
      → verify_insns tc require a goarch (i ∷ insns) ok
        ≡ and_then
            (line a goarch i st d ∷ [], done (ok && passes require st))
            (λ t. verify_insns tc require a goarch insns t)
  unfolding verify_insns
  insn_done a goarch i insns ok st d h = rw (h, verify_insns) refl

  verify_insns-IsReport :
      (a : Arch) (goarch : Bytes) (insns : List Insn) (ok : Bool)
      → IsReport (insn_jobs a goarch insns) ok (verify_insns tc require a goarch insns ok)
  unfolding verify_insns
  verify_insns-IsReport a goarch [] ok = nothing-IsReport ok
  verify_insns-IsReport a goarch (i ∷ insns) ok = elim (Verdict-cases (classify i tc goarch)) [
    | inl (e, h) ↦
        subst (IsReport (insn_jobs a goarch (i ∷ insns)) ok)
          (sym (insn_failed a goarch i insns ok e h)) (λ b x. cc x)
    | inr (st, d, h) ↦
        subst (IsReport (insn_jobs a goarch (i ∷ insns)) ok)
          (sym (insn_done a goarch i insns ok st d h))
          (and_then-IsReport ((a.name, (goarch, i)) ∷ []) (insn_jobs a goarch insns) ok
            (line a goarch i st d ∷ [], done (ok && passes require st))
            (λ t. verify_insns tc require a goarch insns t)
            (λ b x. (refl, (h, tt), cc (and_true (passes require st), x)))
            (λ t. verify_insns-IsReport a goarch insns t))
  ]

  verify_targets-IsReport :
      (a : Arch) (targets : List Bytes) (ok : Bool)
      → IsReport (target_jobs a targets) ok (verify_targets tc require a targets ok)
  unfolding verify_targets
  verify_targets-IsReport a [] ok = nothing-IsReport ok
  verify_targets-IsReport a (goarch ∷ targets) ok = elim (Bool-cases (assembles (tc goarch []))) [
    | inr h ↦ rw (h, verify_targets) (λ b x. cc x)
    | inl h ↦
        rw (h, verify_targets)
          (and_then-IsReport (insn_jobs a goarch a.insns) (target_jobs a targets) ok
            (verify_insns tc require a goarch a.insns ok)
            (λ t. verify_targets tc require a targets t) (verify_insns-IsReport a goarch a.insns ok)
            (λ t. verify_targets-IsReport a targets t))
  ]

  verify_arches-IsReport :
      (arches : List Arch) (ok : Bool)
      → IsReport (jobs arches) ok (verify_arches tc require arches ok)
  unfolding verify_arches
  verify_arches-IsReport [] ok = nothing-IsReport ok
  verify_arches-IsReport (a ∷ arches) ok =
      and_then-IsReport (target_jobs a a.goarch) (jobs arches) ok
        (verify_targets tc require a a.goarch ok) (λ t. verify_arches tc require arches t)
        (verify_targets-IsReport a a.goarch ok) (λ t. verify_arches-IsReport arches t)

pub verify-Complete :
    (tc : Assembler) (require : Bool) (arches : List Arch) (b : Bool)
    → (verify tc require arches).1 ≡ done b
    → (map (λ l. job_of l) (verify tc require arches).0 ≡ jobs arches)
      × All (IsJudged tc) (verify tc require arches).0
      × (b ≡ all_pass require (verify tc require arches).0)
unfolding verify
verify-Complete tc require arches b h = verify_arches-IsReport tc require arches true b h
