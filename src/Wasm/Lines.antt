-- ===== src/Wasm/Lines.antt =====
-- wasm/emit.go: the text of a module line by line.
use asmgen.Base.{◌≡◌, refl, sym, ap, ◌∙◌, arith, List, [], ◌∷◌, ◌++◌, All, All-append}
use asmgen.Base.Text.{Bytes, codes, newline}
use asmgen.Emit.Lines.{lines, IsLine, lines-line}
use asmgen.Wasm.{
  Function, Param, header, local_line, locals_text, body_text, function_string, Module, funcs_text,
  module_string,
}
use asmgen.Wasm.Nesting.{body_text-append}

lines-body_text : (body : List Bytes) → All IsLine body → lines (body_text body) ≡ body
unfolding body_text lines
lines-body_text [] h = refl
lines-body_text (l ∷ body) (here, later) =
    lines-line l (body_text body) here ∙ ap (λ rest. l ∷ rest) (lines-body_text body later)

-- The lines of a function and of a module.
abbrev pub local_lines : List Param → List Bytes
local_lines [] = []
local_lines (l ∷ locals) = local_line l ∷ local_lines locals

abbrev pub function_lines : Function → List Bytes
function_lines f = header f ∷ (local_lines f.locals ++ (f.body ++ (codes "  )" ∷ [])))

abbrev pub funcs_lines : List Function → List Bytes
funcs_lines [] = []
funcs_lines (f ∷ funcs) = function_lines f ++ funcs_lines funcs

abbrev pub module_lines : Module → List Bytes
module_lines m =
    codes ";; Code generated by go-asmgen/asmgen/wasm. DO NOT EDIT."
    ∷ []
    ∷ codes "(module"
    ∷ (m.imports ++ (funcs_lines m.funcs ++ (codes ")" ∷ [])))

-- No part of the function has a newline in it.
abbrev pub IsLineByLine : Function → Type 0
IsLineByLine f = IsLine (header f) × All IsLine (local_lines f.locals) × All IsLine f.body

locals_by : (locals : List Param) → locals_text locals ≡ body_text (local_lines locals)
unfolding locals_text body_text
locals_by [] = refl
locals_by (l ∷ locals) = ap (λ rest. local_line l ++ (newline ++ rest)) (locals_by locals)

function_by : (f : Function) → function_string f ≡ body_text (function_lines f)
unfolding function_string body_text
function_by f =
    rw
      (
        body_text-append (local_lines f.locals) (f.body ++ (codes "  )" ∷ [])),
        body_text-append f.body (codes "  )" ∷ []),
        locals_by f.locals,
      )
      refl

funcs_by : (funcs : List Function) → funcs_text funcs ≡ body_text (funcs_lines funcs)
unfolding funcs_text body_text
funcs_by [] = refl
funcs_by (f ∷ funcs) =
    ap (λ text. text ++ funcs_text funcs) (function_by f)
    ∙ (ap (λ text. body_text (function_lines f) ++ text) (funcs_by funcs)
        ∙ sym (body_text-append (function_lines f) (funcs_lines funcs)))

module_by : (m : Module) → module_string m ≡ body_text (module_lines m)
unfolding module_string body_text
module_by m =
    rw
      (
        body_text-append m.imports (funcs_lines m.funcs ++ (codes ")" ∷ [])),
        body_text-append (funcs_lines m.funcs) (codes ")" ∷ []),
        funcs_by m.funcs,
      )
      refl

funcs_lines-IsLine :
    (funcs : List Function) → All IsLineByLine funcs → All IsLine (funcs_lines funcs)
funcs_lines-IsLine [] h = tt
funcs_lines-IsLine (f ∷ funcs) ((hh, hl, hb), later) =
    All-append IsLine (function_lines f) (funcs_lines funcs)
      (
        hh,
        All-append IsLine (local_lines f.locals) (f.body ++ (codes "  )" ∷ [])) hl
            (All-append IsLine f.body (codes "  )" ∷ []) hb (omega arith, tt)),
      )
      (funcs_lines-IsLine funcs later)

-- When no import and no part of a function holds a newline, the text of a module read back line by
-- line is the comment, an empty line, "(module", the imports in order, for each function in order
-- its header, its locals, its body and "  )", and at last ")".
pub lines-module_string :
    (m : Module)
    → All IsLine m.imports
    → All IsLineByLine m.funcs
    → lines (module_string m) ≡ module_lines m
lines-module_string m hi hf = rw (module_by m) (
    lines-body_text (module_lines m) (
      omega arith,
      (
        tt,
        (
          omega arith,
          All-append IsLine m.imports (funcs_lines m.funcs ++ (codes ")" ∷ [])) hi (
              All-append IsLine (funcs_lines m.funcs) (codes ")" ∷ [])
                (funcs_lines-IsLine m.funcs hf) (omega arith, tt)),
        ),
      ),
    ))
