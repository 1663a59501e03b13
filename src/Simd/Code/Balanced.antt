-- ===== src/Simd/Code/Balanced.antt =====
-- The functions of the programs of examples/wasm as text.
use asmgen.Base.{
  ℕ, suc, ◌≡◌, refl, subst, Bool, true, ◌&&◌, List, [], ◌∷◌, some, All, ◌&◌, get_elem?, All-get,
}
use asmgen.Base.Text.{Bytes, codes}
use asmgen.Base.Panics.{ok, >>=-eq-ok}
use asmgen.Wasm
use asmgen.Wasm.{Function, Param, function_string}
use asmgen.Wasm.Ops
use asmgen.Wasm.Nesting.{depth, Step, Steps, IsPlain}
use asmgen.Wasm.Methods.{method-Step}
use asmgen.Wasm.Balance.{IsPlainParam, function_string-Balanced}
use asmgen.Simd.Code.{
  Code, close, ◌▸◌, br, br_if, return, block, loop, write_op, write, declare, build, Program,
}
use asmgen.Simd.Code.Nested.{
  ok_inj, plain, both, plain-IsPlain, op_plain, write_op-Step, one_operand,
}
use asmgen.Simd.Typing.Programs.{programs}

-- No name in the code has a parenthesis.
abbrev code_plain : Code → Bool
code_plain close = true
code_plain (op ▸ rest) = op_plain op && code_plain rest
code_plain (br l rest) = plain l && code_plain rest
code_plain (br_if l rest) = plain l && code_plain rest
code_plain (return rest) = code_plain rest
code_plain (block l body rest) = plain l && (code_plain body && code_plain rest)
code_plain (loop l body rest) = plain l && (code_plain body && code_plain rest)

Steps-append : {f g k : Function} {c d e : ℕ} → Steps f c g d → Steps g d k e → Steps f c k e
Steps-append p Steps.start = p
Steps-append p (Steps.then q s) = Steps.then (Steps-append p q) s

one : {f g : Function} {d e : ℕ} → Step f d g e → Steps f d g e
one s = Steps.then Steps.start s

label_line :
    (l : Bytes) (f : Function) (d : ℕ)
    → plain l ≡ true
    → Step f d (Wasm.br f (record { name = l })) d
unfolding depth
label_line l f d h = one_operand (codes "(br $") l f _ d (λ e t. refl) (plain-IsPlain l h) refl

label_line_if :
    (l : Bytes) (f : Function) (d : ℕ)
    → plain l ≡ true
    → Step f d (Wasm.br_if f (record { name = l })) d
unfolding depth
label_line_if l f d h =
    one_operand (codes "(br_if $") l f _ d (λ e t. refl) (plain-IsPlain l h) refl

-- What a program's calls emit keeps the depth.
write-Steps :
    (code : Code) (f g : Function) (d : ℕ)
    → write f code ≡ ok g
    → code_plain code ≡ true
    → Steps f d g d
unfolding write
write-Steps close f g d h p = subst (λ t. Steps f d t d) (ok_inj h) Steps.start
write-Steps (op ▸ rest) f g d h p =
    let (k, here, later) = >>=-eq-ok (write_op f op) (λ t. write t rest) h in
    let (q, r) = both (op_plain op) (code_plain rest) p in
    Steps-append (one (write_op-Step op f k d here q)) (write-Steps rest k g d later r)
write-Steps (br l rest) f g d h p =
    let (q, r) = both (plain l) (code_plain rest) p in
    Steps-append (one (label_line l f d q)) (write-Steps rest _ g d h r)
write-Steps (br_if l rest) f g d h p =
    let (q, r) = both (plain l) (code_plain rest) p in
    Steps-append (one (label_line_if l f d q)) (write-Steps rest _ g d h r)
write-Steps (return rest) f g d h p =
    Steps-append (one (method-Step 38 Ops.return_values f d refl)) (write-Steps rest _ g d h p)
write-Steps (block l body rest) f g d h p =
    let (k, here, later) =
      >>=-eq-ok (write (Wasm.block f l).0 body) (λ t. write (Wasm.end t) rest) h in
    let (q, r) = both (plain l) (code_plain body && code_plain rest) p in
    let (r', r'') = both (code_plain body) (code_plain rest) r in
    Steps-append (one (Step.block_op l (plain-IsPlain l q))) (
      Steps-append (write-Steps body _ k (suc d) here r')
        (Steps-append (one Step.end_op) (write-Steps rest _ g d later r'')))
write-Steps (loop l body rest) f g d h p =
    let (k, here, later) =
      >>=-eq-ok (write (Wasm.loop f l).0 body) (λ t. write (Wasm.end t) rest) h in
    let (q, r) = both (plain l) (code_plain body && code_plain rest) p in
    let (r', r'') = both (code_plain body) (code_plain rest) r in
    Steps-append (one (Step.loop_op l (plain-IsPlain l q))) (
      Steps-append (write-Steps body _ k (suc d) here r')
        (Steps-append (one Step.end_op) (write-Steps rest _ g d later r'')))

params_plain : List Param → Bool
params_plain [] = true
params_plain (p ∷ ps) = (plain p.name && plain p.type) && params_plain ps

texts_plain : List Bytes → Bool
texts_plain [] = true
texts_plain (t ∷ ts) = plain t && texts_plain ts

params-IsPlain : (ps : List Param) → params_plain ps ≡ true → All IsPlainParam ps
unfolding params_plain
params-IsPlain [] h = tt
params-IsPlain (p ∷ ps) h =
    let (here, later) = both (plain p.name && plain p.type) (params_plain ps) h in
    let (n, t) = both (plain p.name) (plain p.type) here in
    ((plain-IsPlain p.name n, plain-IsPlain p.type t), params-IsPlain ps later)

texts-IsPlain : (ts : List Bytes) → texts_plain ts ≡ true → All IsPlain ts
unfolding texts_plain
texts-IsPlain [] h = tt
texts-IsPlain (t ∷ ts) h =
    let (here, later) = both (plain t) (texts_plain ts) h in
    (plain-IsPlain t here, texts-IsPlain ts later)

declare-Steps :
    (ps : List Param) (f : Function) (d : ℕ) → All IsPlainParam ps → Steps f d (declare f ps) d
unfolding declare
declare-Steps [] f d h = Steps.start
declare-Steps (p ∷ ps) f d h =
    Steps-append (one (Step.local_op p.name p.type h.0.0 h.0.1)) (declare-Steps ps _ d h.1)

program_plain : Program → Bool
program_plain p =
    (plain p.name && params_plain p.params)
    && (texts_plain p.results && (params_plain p.locals && code_plain p.code))

build-Balanced :
    (p : Program) (f : Function)
    → build p ≡ ok f
    → program_plain p ≡ true
    → depth 0 (function_string f) ≡ some 0
unfolding build program_plain
build-Balanced p f h all =
    let (q, r) = both (plain p.name && params_plain p.params) _ all in
    let (n, ps) = both (plain p.name) (params_plain p.params) q in
    let (rs, r') = both (texts_plain p.results) _ r in
    let (ls, c) = both (params_plain p.locals) (code_plain p.code) r' in
    function_string-Balanced p.name p.name p.params p.results f (plain-IsPlain p.name n)
      (plain-IsPlain p.name n) (params-IsPlain p.params ps) (texts-IsPlain p.results rs)
      (Steps-append (declare-Steps p.locals _ 0 (params-IsPlain p.locals ls))
        (write-Steps p.code _ f 0 h c))

Builds : Program → Type 0
Builds p = (f : Function) × (build p ≡ ok f)

programs-Builds : All Builds programs
unfolding Builds build write declare Wasm.v128_const16 Wasm.i8x16_shuffle Wasm.i32x4_extract_lane
    Wasm.v128_store64_lane
programs-Builds =
    (_, refl)
    & (_, refl)
    & (_, refl)
    & (_, refl)
    & (_, refl)
    & (_, refl)
    & (_, refl)
    & (_, refl)
    & (_, refl)
    & (_, refl)
    & (_, refl)
    & (_, refl)
    & (_, refl)
    & tt

programs-plain : All (λ p. program_plain p ≡ true) programs
unfolding program_plain params_plain texts_plain
programs-plain =
    refl & refl & refl & refl & refl & refl & refl & refl & refl & refl & refl & refl & refl & tt

-- Each of the programs builds its function, with no panic, and in the function's text every
-- parenthesis that is closed was open before, and all are closed at the end.
pub program-Balanced :
    (k : ℕ) (p : Program)
    → get_elem? programs k ≡ some p
    → (f : Function) × (build p ≡ ok f) × (depth 0 (function_string f) ≡ some 0)
unfolding Builds
program-Balanced k p e =
    let (f, built) = All-get Builds programs k p programs-Builds e in
    let names = All-get (λ p. program_plain p ≡ true) programs k p programs-plain e in
    (f, built, build-Balanced p f built names)
