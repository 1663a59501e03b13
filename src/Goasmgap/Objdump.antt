-- ===== src/Goasmgap/Objdump.antt =====
-- tools/goasmgap/main.go: objdumpWords and firstLine, and what they use of the package strings.
use asmgen.Base.{
  ℕ, ◌%◌, Bool, false, not, ◌&&◌, ◌||◌, List, [], ◌∷◌, Option, none, some, length, ltb, leb, ◌==◌,
  if◌then◌else◌,
}
use asmgen.Base.Text.{Bytes, codes, parse_uint}
use asmgen.Gap.{has_prefix}
use asmgen.Goasmgap.{Error, Fallible, done, failed, ◌>>=◌}

-- A byte in front of the first piece.
abbrev pub push : ℕ → List Bytes → List Bytes
push c [] = (c ∷ []) ∷ []
push c (piece ∷ later) = (c ∷ piece) ∷ later

-- strings.Split(s, "\n")
pub split_lines : Bytes → List Bytes
split_lines [] = [] ∷ []
split_lines (c ∷ s) = let rest = split_lines s in if c == 10 then [] ∷ rest else push c rest

-- The white space of ASCII.
abbrev pub is_space : ℕ → Bool
is_space c = (leb 9 c && leb c 13) || (c == 32)

abbrev in_word : Bytes → Bool
in_word [] = false
in_word (c ∷ s) = not (is_space c)

-- strings.Fields of a text of ASCII.
pub fields : Bytes → List Bytes
fields [] = []
fields (c ∷ s) =
    let rest = fields s in
    if is_space c then rest else if in_word s then push c rest else (c ∷ []) ∷ rest

abbrev pub trim_left : Bytes → Bytes
trim_left [] = []
trim_left (c ∷ s) = let rest = trim_left s in if is_space c then rest else c ∷ s

abbrev attach : ℕ → Bytes → Bytes
attach c [] = if is_space c then [] else c ∷ []
attach c (d ∷ s) = c ∷ d ∷ s

pub trim_right : Bytes → Bytes
trim_right [] = []
trim_right (c ∷ s) = attach c (trim_right s)

-- strings.TrimSpace of a text of ASCII.
pub trim_space : Bytes → Bytes
unfolding trim_right
trim_space s = trim_right (trim_left s)

-- The third field of a listing's line, when it spells an encoding.
unfoldable pub encoding : Bytes → Bytes → Fallible ℕ
unfolding parse_uint
encoding line v = elim (parse_uint 16 v) [
  | none ↦ failed (Error.unexpected_line line)
  | some w ↦
      if not (length v % 2 == 0) || (ltb (length v) 4 || ltb 12 (length v))
      then failed (Error.unexpected_line line)
      else done w
]

-- `none` for a line that the loop passes over.
pub line_word : Bytes → List Bytes → Option (Fallible ℕ)
unfolding encoding has_prefix
line_word line (a ∷ b ∷ v ∷ d ∷ later) =
    if has_prefix (codes "0x") b then some (encoding line v) else none
line_word line _ = none

pub words_loop : List Bytes → Fallible (List ℕ)
unfolding line_word fields
words_loop [] = done []
words_loop (line ∷ later) = elim (line_word line (fields line)) [
  | none ↦ words_loop later
  | some read ↦ (do w ← read; ws ← words_loop later; done (w ∷ ws))
]

unfoldable pub objdump_words : Bytes → Fallible (List ℕ)
unfolding words_loop split_lines
objdump_words out = words_loop (split_lines out)

-- `strip` is `tempPrefix.ReplaceAllString(_, "")`, `error` is the text of the error.
module _ (strip : Bytes → Bytes) (error : Bytes) where
  first_trimmed : List Bytes → Bytes
  unfolding trim_space
  first_trimmed [] = error
  first_trimmed (l ∷ later) = elim (trim_space l) [
    | [] ↦ first_trimmed later
    | c ∷ s ↦ strip (c ∷ s)
  ]

  unfoldable pub first_line : Bytes → Bytes
  unfolding first_trimmed split_lines
  first_line out = first_trimmed (split_lines out)
