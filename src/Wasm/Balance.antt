-- ===== src/Wasm/Balance.antt =====
-- wasm/emit.go: the parentheses of a function's text.
use asmgen.Base.{ℕ, suc, ◌≡◌, refl, List, [], ◌∷◌, ◌++◌, some, All, append-nil, sym, subst}
use asmgen.Base.Text.{Bytes, codes, newline}
use asmgen.Wasm.{
  Function, Param, ValueType, new_function, header, export_text, params_text, results_text,
  locals_text, body_text, function_string,
}
use asmgen.Wasm.Nesting.{
  depth, IsPlain, Takes, Takes-append, Takes-plain, blank-plain, end-closes, newline-plain, Steps,
  IsOpen, Steps-IsOpen,
}

abbrev pub IsPlainParam : Param → Type 0
IsPlainParam p = IsPlain p.name × IsPlain p.type

param-opens : (d : ℕ) → Takes d (codes " (param $") (suc d)
unfolding depth
param-opens d t = refl

result-opens : (d : ℕ) → Takes d (codes " (result ") (suc d)
unfolding depth
result-opens d t = refl

export-opens : (d : ℕ) → Takes d (codes " (export \"") (suc d)
unfolding depth
export-opens d t = refl

export-closes : (d : ℕ) → Takes (suc d) (codes "\")") d
unfolding depth
export-closes d t = refl

func-opens : Takes 0 (codes "  (func $") 1
unfolding depth
func-opens t = refl

func-closes : Takes 1 (codes "  )") 0
unfolding depth
func-closes t = refl

nothing-Takes : (d : ℕ) → Takes d [] d
nothing-Takes d t = refl

export_text-plain : (d : ℕ) (name : Bytes) → IsPlain name → Takes d (export_text name) d
export_text-plain d [] h = nothing-Takes d
export_text-plain d (c ∷ name) h =
    Takes-append d (suc d) d (codes " (export \"") ((c ∷ name) ++ codes "\")") (export-opens d) (
      Takes-append (suc d) (suc d) d (c ∷ name) (codes "\")") (Takes-plain (suc d) (c ∷ name) h)
        (export-closes d))

params_text-plain :
    (d : ℕ) (params : List Param) → All IsPlainParam params → Takes d (params_text params) d
unfolding params_text
params_text-plain d [] h = nothing-Takes d
params_text-plain d (p ∷ params) ((hn, ht), later) =
    let rest = params_text params in
    Takes-append d (suc d) d (codes " (param $")
      (p.name ++ (codes " " ++ (p.type ++ (codes ")" ++ rest)))) (param-opens d)
      (Takes-append (suc d) (suc d) d p.name (codes " " ++ (p.type ++ (codes ")" ++ rest)))
        (Takes-plain (suc d) p.name hn)
        (Takes-append (suc d) (suc d) d (codes " ") (p.type ++ (codes ")" ++ rest))
          (blank-plain (suc d))
          (Takes-append (suc d) (suc d) d p.type (codes ")" ++ rest) (Takes-plain (suc d) p.type ht)
            (Takes-append (suc d) d d (codes ")") rest (end-closes d)
              (params_text-plain d params later)))))

results_text-plain :
    (d : ℕ) (results : List ValueType) → All IsPlain results → Takes d (results_text results) d
unfolding results_text
results_text-plain d [] h = nothing-Takes d
results_text-plain d (r ∷ results) (here, later) =
    let rest = results_text results in
    Takes-append d (suc d) d (codes " (result ") (r ++ (codes ")" ++ rest)) (result-opens d) (
      Takes-append (suc d) (suc d) d r (codes ")" ++ rest) (Takes-plain (suc d) r here) (
        Takes-append (suc d) d d (codes ")") rest (end-closes d)
          (results_text-plain d results later)))

header-opens :
    (f : Function)
    → IsPlain f.name
    → IsPlain f.export_name
    → All IsPlainParam f.params
    → All IsPlain f.results
    → Takes 0 (header f) 1
unfolding header
header-opens f hn he hp hr =
    let ps = params_text f.params in
    let rs = results_text f.results in
    let ex = export_text f.export_name in
    Takes-append 0 1 1 (codes "  (func $") (f.name ++ (ex ++ (ps ++ rs))) func-opens (
      Takes-append 1 1 1 f.name (ex ++ (ps ++ rs)) (Takes-plain 1 f.name hn) (
        Takes-append 1 1 1 ex (ps ++ rs) (export_text-plain 1 f.export_name he) (
          Takes-append 1 1 1 ps rs (params_text-plain 1 f.params hp)
            (results_text-plain 1 f.results hr))))

fresh-IsOpen :
    (name export_name : Bytes) (params : List Param) (results : List ValueType)
    → IsOpen
        (new_function name export_name params results)
        (new_function name export_name params results)
        0
unfolding locals_text body_text
fresh-IsOpen name export_name params results = record {
  name_kept = refl;
  export_kept = refl;
  params_kept = refl;
  results_kept = refl;
  locals_closed = λ t. refl;
  body_open = λ t. refl;
}

closed :
    (f : Function)
    → Takes 0 (header f) 1
    → Takes 1 (locals_text f.locals) 1
    → Takes 1 (body_text f.body) 1
    → Takes 0 (function_string f) 0
unfolding function_string
closed f hh hl hb =
    let ls = locals_text f.locals in
    let bs = body_text f.body in
    let last = codes "  )" ++ newline in
    Takes-append 0 1 0 (header f) (newline ++ (ls ++ (bs ++ last))) hh (
      Takes-append 1 1 0 newline (ls ++ (bs ++ last)) (newline-plain 1) (
        Takes-append 1 1 0 ls (bs ++ last) hl (
          Takes-append 1 1 0 bs last hb
            (Takes-append 1 0 0 (codes "  )") newline func-closes (newline-plain 0)))))

-- For a function that is built from a fresh one by the methods' emissions, under these conditions:
-- its name, its export name and its parameters' names and types hold no parenthesis, nor do the
-- results' types, the locals or the labels; each line that it emits leaves the depth of
-- parentheses, wherever one is open, as it was before the line (for `Raw` a condition on its
-- caller); each block and loop is ended at last and none is ended that was not begun. Then in its
-- text every parenthesis that is closed was open before, and all are closed at the end.
pub function_string-Balanced :
    (name export_name : Bytes) (params : List Param) (results : List ValueType) (f : Function)
    → IsPlain name
    → IsPlain export_name
    → All IsPlainParam params
    → All IsPlain results
    → Steps (new_function name export_name params results) 0 f 0
    → depth 0 (function_string f) ≡ some 0
unfolding depth
function_string-Balanced name export_name params results f hn he hp hr steps =
    let new = new_function name export_name params results in
    let is = Steps-IsOpen new f 0 (fresh-IsOpen name export_name params results) steps in
    let opens =
      header-opens f (subst IsPlain (sym is.name_kept) hn) (subst IsPlain (sym is.export_kept) he)
        (subst (All IsPlainParam) (sym is.params_kept) hp)
        (subst (All IsPlain) (sym is.results_kept) hr) in
    rw (← append-nil (function_string f)) (closed f opens is.locals_closed is.body_open [])
