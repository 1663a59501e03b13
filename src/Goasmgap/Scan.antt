-- ===== src/Goasmgap/Scan.antt =====
-- tools/goasmgap/main.go: scan, which finds the registry's instructions in Go's test data by the
-- encoding that a line ends with.
pub mod Finds
use asmgen.Base.{
  ℕ, zero, suc, ◌+◌, ◌-◌, Bool, true, false, ◌&&◌, ◌||◌, List, [], ◌∷◌, ◌++◌, Option, none, some,
  length, ltb, leb, ◌==◌, if◌then◌else◌,
}
use asmgen.Base.Text.{Bytes, codes, itoa, tab}
use asmgen.Gap.{Insn, Arch, matches, parse_hex, has_prefix}
use asmgen.Gap.Testdata.{pad_right}
use asmgen.Goasmgap.{Error, Fallible, done, failed, ◌>>=◌}
use asmgen.Goasmgap.Objdump.{fields}

abbrev pub is_hex : ℕ → Bool
is_hex c = (leb b'0' c && leb c b'9') || (leb b'a' c && leb c b'f')

-- `\s` of a regular expression.
abbrev pub is_blank : ℕ → Bool
is_blank c = ((c == 9) || (c == 10)) || (((c == 12) || (c == 13)) || (c == 32))

pub skip_blanks : Bytes → Bytes
skip_blanks [] = []
skip_blanks (c ∷ s) = let rest = skip_blanks s in if is_blank c then rest else c ∷ s

pub all_blank : Bytes → Bool
all_blank [] = true
all_blank (c ∷ s) = is_blank c && all_blank s

-- The digits that a text begins with, and the rest.
pub span_hex : Bytes → Bytes × Bytes
span_hex [] = ([], [])
span_hex (c ∷ s) = let rest = span_hex s in if is_hex c then (c ∷ rest.0, rest.1) else ([], c ∷ s)

-- What stands behind "//": blanks, 8 or 12 digits, blanks.
pub comment_encoding : Bytes → Option Bytes
unfolding skip_blanks span_hex all_blank
comment_encoding s =
    let run = span_hex (skip_blanks s) in
    if ((length run.0 == 8) || (length run.0 == 12)) && all_blank run.1 then some run.0 else none

-- `encodingComment.FindStringSubmatch(line)`, with its group.
pub encoding_comment : Bytes → Option Bytes
unfolding comment_encoding
encoding_comment [] = none
encoding_comment (c ∷ []) = none
encoding_comment (c ∷ d ∷ s) =
    let later = encoding_comment (d ∷ s) in
    if (c == b'/') && (d == b'/')
    then (elim (comment_encoding s) [ some e ↦ some e | none ↦ later ])
    else later

-- `line[:strings.Index(line, "//")]` of a line that has a comment.
before_comment : Bytes → Bytes
unfolding has_prefix
before_comment [] = []
before_comment (c ∷ s) =
    let rest = before_comment s in if has_prefix (codes "//") (c ∷ s) then [] else c ∷ rest

-- `strings.Join(words, " ")`
join_words : List Bytes → Bytes
join_words [] = []
join_words (w ∷ []) = w
join_words (w ∷ v ∷ words) = w ++ (codes " " ++ join_words (v ∷ words))

-- filepath.Base of the path of a file.
base : Bytes → Bytes
base [] = []
base (c ∷ s) = let rest = base s in if has_slash s then rest else if c == b'/' then s else c ∷ s
  where
    has_slash : Bytes → Bool
    has_slash [] = false
    has_slash (d ∷ t) = (d == b'/') || has_slash t

pub hit_text : Bytes → ℕ → Bytes → Bytes
unfolding base join_words before_comment
hit_text path n line =
    pad_right 32 (join_words (fields (before_comment line)))
    ++ (codes " " ++ (base path ++ (codes ":" ++ itoa n)))

-- The hits of each entry of a family, in the order of the entries.
abbrev pub Hits : Type 0
Hits = List (List Bytes)

-- The loop over the entries.
pub add_hit : ℕ → Bytes → List Insn → Hits → Hits
add_hit word text [] hits = hits
add_hit word text (i ∷ insns) [] = []
add_hit word text (i ∷ insns) (h ∷ hits) =
    (if matches i word then h ++ (text ∷ []) else h) ∷ add_hit word text insns hits

abbrev scan_word : Arch → Bytes → Option ℕ → Hits → Hits
scan_word a text none hits = hits
scan_word a text (some word) hits = add_hit word text a.insns hits

pub scan_line : Arch → Bytes → ℕ → Bytes → Hits → Hits
unfolding encoding_comment hit_text add_hit parse_hex
scan_line a path n line hits = elim (encoding_comment line) [
  | none ↦ hits
  | some e ↦ scan_word a (hit_text path n line) (parse_hex a e) hits
]

scan_lines : Arch → Bytes → ℕ → List Bytes → Hits → Hits
unfolding scan_line
scan_lines a path n [] hits = hits
scan_lines a path n (line ∷ lines) hits =
    scan_lines a path (n + 1) lines (scan_line a path n line hits)

-- The files: the sorted names that a directory and a prefix match with ".s" at the end, and the
-- lines of a file, or an error.
pub record Files : Type 0 where
  pub glob : Bytes → Bytes → List Bytes
  pub read_lines : Bytes → Fallible (List Bytes)

scan_files : Files → Arch → List Bytes → Hits → Fallible Hits
unfolding scan_lines
scan_files fs a [] hits = done hits
scan_files fs a (f ∷ files) hits = do
  lines ← fs.read_lines f
  scan_files fs a files (scan_lines a f 1 lines hits)

-- "%-8s %-11s" and what follows.
insn_line : Arch → Insn → Bytes → Bytes
insn_line a i text =
    pad_right 8 a.name ++ (codes " " ++ (pad_right 11 i.isa ++ (codes " " ++ text)))

-- The loop that prints at most three hits; `i` have been printed of `total`.
print_hits : ℕ → ℕ → List Bytes → List Bytes
print_hits i total [] = []
print_hits i total (h ∷ hits) =
    let rest = print_hits (i + 1) total hits in
    if i == 3
    then (tab ++ (codes "... and " ++ (itoa (total - 3) ++ codes " more"))) ∷ []
    else (tab ++ h) ∷ rest

print_insns : Arch → List Insn → Hits → List Bytes
unfolding print_hits insn_line
print_insns a [] hits = []
print_insns a (i ∷ insns) [] = []
print_insns a (i ∷ insns) ([] ∷ hits) =
    insn_line a i (codes "not in Go's test data") ∷ print_insns a insns hits
print_insns a (i ∷ insns) ((h ∷ hs) ∷ hits) =
    insn_line a i (codes "Go spells it:")
    ∷ (print_hits 0 (length (h ∷ hs)) (h ∷ hs) ++ print_insns a insns hits)

-- `map[*gap.Insn][]string{}`
no_hits : List Insn → Hits
no_hits [] = []
no_hits (i ∷ insns) = [] ∷ no_hits insns

abbrev testdata_dir : Bytes → Bytes
testdata_dir goroot = goroot ++ codes "/src/cmd/asm/internal/asm/testdata"

abbrev no_files : Arch → Bytes → List Bytes → Fallible (List Bytes)
no_files a dir [] = failed (Error.no_data a.name dir)
no_files a dir (f ∷ files) = done (f ∷ files)

scan_arch : Files → Bytes → Arch → Fallible (List Bytes)
unfolding scan_files print_insns no_hits
scan_arch fs goroot a = do
  files ← no_files a (testdata_dir goroot) (fs.glob (testdata_dir goroot) a.name)
  hits ← scan_files fs a files (no_hits a.insns)
  done (print_insns a a.insns hits)

-- The lines printed, and the error that ended the scan.
unfoldable pub scan : Files → Bytes → List Arch → List Bytes × Option Error
unfolding scan_arch
scan fs goroot [] = ([], none)
scan fs goroot (a ∷ arches) = elim (scan_arch fs goroot a) [
  | failed e ↦ ([], some e)
  | done lines ↦ (let rest = scan fs goroot arches in (lines ++ rest.0, rest.1))
]
