-- ===== src/Wasm/Nesting.antt =====
-- wasm/emit.go: parentheses. A function is built by steps at a depth of open blocks and loops.
use asmgen.Base.{
  ℕ, zero, suc, ◌≡◌, ◌≢◌, refl, sym, arith, List, [], ◌∷◌, ◌++◌, Option, none, some, All, ◌==◌,
  if◌then◌else◌, append_assoc, ◌∙◌,
}
use asmgen.Base.Text.{Bytes, codes, newline}
use asmgen.Wasm.{
  Function, Param, ValueType, add_local, raw, block, loop, end, local_line, locals_text, body_text,
}

abbrev close : ℕ → Option ℕ
close zero = none
close (suc d) = some d

-- How many parentheses are open behind a text, when `d` were before it; `none` when one too many is
-- closed.
unfoldable pub depth : ℕ → Bytes → Option ℕ
depth d [] = some d
depth d (c ∷ s) =
    let opened : Option ℕ = depth (suc d) s in
    let closed : Option ℕ = elim (close d) [ none ↦ none | some e ↦ depth e s ] in
    let same : Option ℕ = depth d s in
    if c == b'(' then opened else if c == b')' then closed else same

-- A text with no parenthesis.
abbrev pub IsPlain : Bytes → Type 0
IsPlain s = All (λ (c : ℕ). (c ≢ 40) × (c ≢ 41)) s

-- A text that takes depth d to depth e.
abbrev pub Takes : ℕ → Bytes → ℕ → Type 0
Takes d s e = (t : Bytes) → depth d (s ++ t) ≡ depth e t

pub Takes-plain : (d : ℕ) (s : Bytes) → IsPlain s → Takes d s d
unfolding depth
Takes-plain d [] h t = refl
Takes-plain d (c ∷ s) ((o, p), later) t = ground (arith, Takes-plain d s later t)

pub Takes-append : (d e g : ℕ) (s t : Bytes) → Takes d s e → Takes e t g → Takes d (s ++ t) g
Takes-append d e g s t hs ht u = rw (append_assoc s t u) (hs (t ++ u) ∙ ht u)

-- One call of a method, at a depth of open blocks and loops: `line_op` for a method that emits a
-- line, on the condition that the line leaves the depth, wherever a parenthesis is open, as it was.
-- (No method checks that: `Raw` takes any line.)
pub data Step : Function → ℕ → Function → ℕ → Type 0 where
  line_op :
      {f : Function} {d : ℕ} (line : Bytes)
      → ((e : ℕ) → Takes (suc e) line (suc e))
      → Step f d (raw f line) d
  local_op :
      {f : Function} {d : ℕ} (name : Bytes) (t : ValueType)
      → IsPlain name
      → IsPlain t
      → Step f d (add_local f name t).0 d
  block_op :
      {f : Function} {d : ℕ} (name : Bytes) → IsPlain name → Step f d (block f name).0 (suc d)
  loop_op : {f : Function} {d : ℕ} (name : Bytes) → IsPlain name → Step f d (loop f name).0 (suc d)
  end_op : {f : Function} {d : ℕ} → Step f (suc d) (end f) d

pub data Steps : Function → ℕ → Function → ℕ → Type 0 where
  start : {f : Function} {d : ℕ} → Steps f d f d
  then : {f g k : Function} {d e n : ℕ} → Steps f d g e → Step g e k n → Steps f d k n

-- The invariant: behind its body, a function has one more parenthesis open than blocks and loops,
-- its own; its locals are closed and its header is not touched.
pub record IsOpen (f g : Function) (d : ℕ) : Type 0 where
  pub name_kept : g.name ≡ f.name
  pub export_kept : g.export_name ≡ f.export_name
  pub params_kept : g.params ≡ f.params
  pub results_kept : g.results ≡ f.results
  pub locals_closed : Takes 1 (locals_text g.locals) 1
  pub body_open : Takes 1 (body_text g.body) (suc d)

pub body_text-append : (xs ys : List Bytes) → body_text (xs ++ ys) ≡ body_text xs ++ body_text ys
unfolding body_text
body_text-append [] ys = refl
body_text-append (x ∷ xs) ys =
    rw (body_text-append xs ys) (sym (append_assoc x (newline ++ body_text xs) (body_text ys)))

line_text : (line : Bytes) → body_text (line ∷ []) ≡ line ++ newline
unfolding body_text
line_text line = refl

pub newline-plain : (d : ℕ) → Takes d newline d
unfolding depth
newline-plain d t = refl

indent-plain : (d e : ℕ) (line : Bytes) → Takes d line e → Takes d (codes "    " ++ line) e
unfolding depth
indent-plain d e line h t = h t

one_line :
    (body : List Bytes) (d e : ℕ) (line : Bytes)
    → Takes 1 (body_text body) d
    → Takes d line e
    → Takes 1 (body_text (body ++ ((codes "    " ++ line) ∷ []))) e
one_line body d e line before here =
    rw (body_text-append body ((codes "    " ++ line) ∷ []), line_text (codes "    " ++ line))
      (Takes-append 1 d e (body_text body) ((codes "    " ++ line) ++ newline) before (
        Takes-append d e e (codes "    " ++ line) newline (indent-plain d e line here)
          (newline-plain e)))

pub locals_text-append :
    (xs ys : List Param) → locals_text (xs ++ ys) ≡ locals_text xs ++ locals_text ys
unfolding locals_text
locals_text-append [] ys = refl
locals_text-append (x ∷ xs) ys =
    rw (locals_text-append xs ys)
      (sym (append_assoc (local_line x) (newline ++ locals_text xs) (locals_text ys)))

-- A line is added.
with_body :
    (f g : Function) (d e : ℕ) (line : Bytes)
    → IsOpen f g d
    → Takes (suc d) line (suc e)
    → IsOpen f (raw g line) e
with_body f g d e line was h = record {
  name_kept = was.name_kept;
  export_kept = was.export_kept;
  params_kept = was.params_kept;
  results_kept = was.results_kept;
  locals_closed = was.locals_closed;
  body_open = one_line g.body (suc d) (suc e) line was.body_open h;
}

local-opens : (d : ℕ) → Takes d (codes "    (local $") (suc d)
unfolding depth
local-opens d t = refl

pub end-closes : (d : ℕ) → Takes (suc d) (codes ")") d
unfolding depth
end-closes d t = refl

pub blank-plain : (d : ℕ) → Takes d (codes " ") d
unfolding depth
blank-plain d t = refl

-- A type behind a name.
pub pair-closes :
    (d : ℕ) (t : ValueType) → IsPlain t → Takes (suc d) (codes " " ++ (t ++ codes ")")) d
pair-closes d t ht =
    Takes-append (suc d) (suc d) d (codes " ") (t ++ codes ")") (blank-plain (suc d))
      (Takes-append (suc d) (suc d) d t (codes ")") (Takes-plain (suc d) t ht) (end-closes d))

local_text-plain :
    (name : Bytes) (t : ValueType) (d : ℕ)
    → IsPlain name
    → IsPlain t
    → Takes d (locals_text (record { name = name; type = t } ∷ [])) d
unfolding locals_text local_line
local_text-plain name t d hn ht =
    let local : Bytes = codes "    (local $" in
    let last : Bytes = codes ")" in
    Takes-append d d d (local ++ (name ++ (codes " " ++ (t ++ last)))) newline
      (Takes-append d (suc d) d local (name ++ (codes " " ++ (t ++ last))) (local-opens d) (
        Takes-append (suc d) (suc d) d name (codes " " ++ (t ++ last)) (Takes-plain (suc d) name hn)
          (pair-closes d t ht)))
      (newline-plain d)

with_local :
    (f g : Function) (d : ℕ) (name : Bytes) (t : ValueType)
    → IsOpen f g d
    → IsPlain name
    → IsPlain t
    → IsOpen f (add_local g name t).0 d
with_local f g d name t was hn ht = record {
  name_kept = was.name_kept;
  export_kept = was.export_kept;
  params_kept = was.params_kept;
  results_kept = was.results_kept;
  locals_closed = rw (locals_text-append g.locals (record { name = name; type = t } ∷ [])) (
      Takes-append 1 1 1 (locals_text g.locals)
        (locals_text (record { name = name; type = t } ∷ [])) was.locals_closed
        (local_text-plain name t 1 hn ht));
  body_open = was.body_open;
}

opening :
    (d : ℕ) (word name : Bytes)
    → ((t : Bytes) → depth d (word ++ t) ≡ depth (suc d) t)
    → IsPlain name
    → Takes d (word ++ name) (suc d)
opening d word name h plain =
    Takes-append d (suc d) (suc d) word name h (Takes-plain (suc d) name plain)

block-opens : (d : ℕ) → Takes d (codes "(block $") (suc d)
unfolding depth
block-opens d t = refl

loop-opens : (d : ℕ) → Takes d (codes "(loop $") (suc d)
unfolding depth
loop-opens d t = refl

Step-IsOpen : (f g k : Function) (d e : ℕ) → IsOpen f g d → Step g d k e → IsOpen f k e
Step-IsOpen f g k d e was (Step.line_op line h) = with_body f g d d line was (h d)
Step-IsOpen f g k d e was (Step.local_op name t hn ht) = with_local f g d name t was hn ht
Step-IsOpen f g k d e was (Step.block_op name h) =
    with_body f g d (suc d) (codes "(block $" ++ name) was
      (opening (suc d) (codes "(block $") name (block-opens (suc d)) h)
Step-IsOpen f g k d e was (Step.loop_op name h) =
    with_body f g d (suc d) (codes "(loop $" ++ name) was
      (opening (suc d) (codes "(loop $") name (loop-opens (suc d)) h)
Step-IsOpen f g k d e was Step.end_op = with_body f g d e (codes ")") was (end-closes (suc e))

pub Steps-IsOpen : (f g : Function) (d : ℕ) → IsOpen f f 0 → Steps f 0 g d → IsOpen f g d
Steps-IsOpen f g d was Steps.start = was
Steps-IsOpen f g d was (Steps.then all last) =
    Step-IsOpen f _ g _ d (Steps-IsOpen f _ _ was all) last
