-- ===== src/Emit/Lines.antt =====
-- The text of a function read back line by line.
use asmgen.Base.{
  ℕ, ◌≡◌, ◌≢◌, refl, ◌∙◌, arith, List, [], ◌∷◌, ◌++◌, All, All-append, ◌==◌, if◌then◌else◌, beq,
}
use asmgen.Base.Text.{Bytes, codes, newline, fmt_int}
use asmgen.Base.Text.Digits.{IsPrinted, fmt_int-IsPrinted}
use asmgen.Emit.{Function, header, middle_dot, write_lines, function_string}

-- A byte in front of the first line.
abbrev pub push : ℕ → List Bytes → List Bytes
push c [] = (c ∷ []) ∷ []
push c (line ∷ later) = (c ∷ line) ∷ later

-- The lines of a text, each without the newline that ends it.
unfoldable pub lines : Bytes → List Bytes
lines [] = []
lines (c ∷ s) = let rest = lines s in if c == 10 then [] ∷ rest else push c rest

-- A text of one line: no newline in it.
abbrev pub IsLine : Bytes → Type 0
IsLine s = All (λ (c : ℕ). c ≢ 10) s

pub lines-line : (l s : Bytes) → IsLine l → lines (l ++ (newline ++ s)) ≡ l ∷ lines s
unfolding lines
lines-line [] s _ = refl
lines-line (c ∷ l) s (ordinary, rest) = ground (arith, lines-line l s rest)

lines-write_lines : (body : List Bytes) → All IsLine body → lines (write_lines body) ≡ body
unfolding write_lines lines
lines-write_lines [] _ = refl
lines-write_lines (l ∷ later) (here, rest) =
    lines-line l (write_lines later) here ∙ rw (lines-write_lines later rest) refl

All-printed : (s : Bytes) → IsPrinted s → IsLine s
All-printed [] _ = tt
All-printed (c ∷ s) (above, rest) = (omega arith, All-printed s rest)

fmt_int-IsLine : (w : ℕ) → IsLine (fmt_int w)
fmt_int-IsLine w = All-printed (fmt_int w) (fmt_int-IsPrinted w)

join : (xs ys : Bytes) → IsLine xs → IsLine ys → IsLine (xs ++ ys)
join = All-append (λ (c : ℕ). c ≢ 10)

flags-IsLine :
    (flags : Bytes) → IsLine flags → IsLine (if beq flags [] then [] else codes ", " ++ flags)
flags-IsLine [] _ = tt
flags-IsLine (c ∷ flags) h = join (codes ", ") (c ∷ flags) (omega arith) h

header-IsLine : (f : Function) → IsLine f.name → IsLine f.flags → IsLine (header f)
unfolding header
header-IsLine f name flags =
    let tail = codes "-" ++ fmt_int f.args_size in
    let sizes = codes ", $" ++ (fmt_int f.frame_size ++ tail) in
    let flag_text = if beq f.flags [] then [] else codes ", " ++ f.flags in
    let symbol = f.name ++ (codes "(SB)" ++ (flag_text ++ sizes)) in
    let h1 = join (codes "-") (fmt_int f.args_size) (omega arith) (fmt_int-IsLine f.args_size) in
    let h2 = join (fmt_int f.frame_size) tail (fmt_int-IsLine f.frame_size) h1 in
    let h3 = join (codes ", $") (fmt_int f.frame_size ++ tail) (omega arith) h2 in
    let h4 = join flag_text sizes (flags-IsLine f.flags flags) h3 in
    let h5 = join (codes "(SB)") (flag_text ++ sizes) (omega arith) h4 in
    let h6 = join f.name (codes "(SB)" ++ (flag_text ++ sizes)) name h5 in
    let h7 = join middle_dot symbol (omega arith) h6 in
    join (codes "TEXT ") (middle_dot ++ symbol) (omega arith) h7

-- When neither the name, the flags nor a body line of a function holds a newline, its text read
-- back line by line is the TEXT header and then the body lines, in order and unchanged.
pub lines-function_string :
    (f : Function)
    → IsLine f.name
    → IsLine f.flags
    → All IsLine f.body
    → lines (function_string f) ≡ header f ∷ f.body
unfolding function_string
lines-function_string f name flags body =
    lines-line (header f) (write_lines f.body) (header-IsLine f name flags)
    ∙ rw (lines-write_lines f.body body) refl
