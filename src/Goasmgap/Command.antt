-- ===== src/Goasmgap/Command.antt =====
-- tools/goasmgap/main.go: run, with the flags and the choice of the families.
pub mod Zero
use asmgen.Base.{
  ℕ, Bool, true, false, not, ◌&&◌, ◌||◌, List, [], ◌∷◌, ◌++◌, map, Option, none, some, beq, length,
  ltb, ◌==◌, if◌then◌else◌,
}
use asmgen.Base.Text.{Bytes, codes}
use asmgen.Gap.{Insn, Case, Arch}
use asmgen.Gap.Registry.{arches, arch_of}
use asmgen.Gap.Testdata.{testdata_line}
use asmgen.Goasmgap.{Error, Fallible, done, failed, Assembler}
use asmgen.Goasmgap.Toolchain.{Host, new_toolchain}
use asmgen.Goasmgap.Verify.{Line, Report, verify}
use asmgen.Goasmgap.Scan.{Files, scan}

pub record Flags : Type 0 where
  pub arch : Bytes
  pub goroot : Bytes
  pub require : Bool

abbrev pub defaults : Flags
defaults = record { arch = []; goroot = []; require = false }

-- The package flag's reading of one argument: the end of the flags, no flag, or a name and the
-- value behind "=".
pub data Shape : Type 0 where
  stop bad : Shape
  named : Bytes → Option Bytes → Shape

-- Cut at the first "=".
cut_equals : Bytes → Bytes × Option Bytes
cut_equals [] = ([], none)
cut_equals (c ∷ s) =
    let rest = cut_equals s in if c == b'=' then ([], some s) else (c ∷ rest.0, rest.1)

abbrev name_shape : Bytes → Shape
name_shape [] = Shape.bad
name_shape (c ∷ s) =
    if (c == b'-') || (c == b'=')
    then Shape.bad
    else Shape.named (c ∷ (cut_equals s).0) (cut_equals s).1

shape : Bytes → Shape
unfolding cut_equals
shape [] = Shape.stop
shape (c ∷ []) = Shape.stop
shape (c ∷ d ∷ s) =
    if not (c == b'-')
    then Shape.stop
    else if not (d == b'-')
    then name_shape (d ∷ s)
    else if length s == 0
    then Shape.stop
    else name_shape s

is_one_of : List Bytes → Bytes → Bool
is_one_of [] s = false
is_one_of (t ∷ texts) s = beq t s || is_one_of texts s

-- strconv.ParseBool
parse_bool : Bytes → Option Bool
unfolding is_one_of
parse_bool s =
    if is_one_of (map (λ t. codes t) ("1" ∷ "t" ∷ "T" ∷ "true" ∷ "TRUE" ∷ "True" ∷ [])) s
    then some true
    else if is_one_of (map (λ t. codes t) ("0" ∷ "f" ∷ "F" ∷ "false" ∷ "FALSE" ∷ "False" ∷ [])) s
    then some false
    else none

-- A flag that is set to a text; `none` for a name that is not defined, or a bad value.
set_flag : Bytes → Bytes → Flags → Option Flags
unfolding parse_bool
set_flag name value fl =
    if beq name (codes "arch")
    then some (record fl { arch = value })
    else if beq name (codes "goroot")
    then some (record fl { goroot = value })
    else if beq name (codes "require")
    then (elim (parse_bool value) [ some b ↦ some (record fl { require = b }) | none ↦ none ])
    else none

-- The loop of `fs.Parse`.
unfoldable pub parse_flags : List Bytes → Flags → Option Flags
unfolding shape set_flag
parse_flags [] fl = some fl
parse_flags (s ∷ []) fl = elim (shape s) [
  | Shape.stop ↦ some fl
  | Shape.bad ↦ none
  | Shape.named name (some v) ↦ set_flag name v fl
  | Shape.named name none ↦
      if beq name (codes "require") then some (record fl { require = true }) else none
]
parse_flags (s ∷ v ∷ args) fl = elim (shape s) [
  | Shape.stop ↦ some fl
  | Shape.bad ↦ none
  | Shape.named name (some w) ↦ elim (set_flag name w fl) [
    | none ↦ none
    | some fl' ↦ parse_flags (v ∷ args) fl'
  ]
  | Shape.named name none ↦
      let set : Option Flags = parse_flags (v ∷ args) (record fl { require = true }) in
      let taken : Option Flags = elim (set_flag name v fl) [
        | none ↦ none
        | some fl' ↦ parse_flags args fl'
      ] in
      if beq name (codes "require") then set else taken
]

unfoldable pub select_arches : Bytes → Fallible (List Arch)
unfolding arches arch_of
select_arches [] = done arches
select_arches (c ∷ name) = elim (arch_of (c ∷ name)) [
  | some a ↦ done (a ∷ [])
  | none ↦ failed (Error.unknown_arch (c ∷ name))
]

-- The loops of `testdata`.
case_lines : Arch → Insn → List Case → List Bytes
case_lines a i [] = []
case_lines a i (c ∷ cases) = testdata_line a i c ∷ case_lines a i cases

testdata_insns : Arch → List Insn → List Bytes
unfolding case_lines
testdata_insns a [] = []
testdata_insns a (i ∷ insns) = case_lines a i i.golden ++ testdata_insns a insns

pub testdata : Arch → List Bytes
unfolding testdata_insns
testdata a =
    (codes "// "
      ++ (a.name
          ++ (codes ": add to src/cmd/asm/internal/asm/testdata/"
              ++ (a.testdata ++ codes ", next to the"))))
    ∷ codes "// lines of the nearest instruction family (scan shows where Go has kin)."
    ∷ testdata_insns a a.insns

testdata_all : List Arch → List Bytes
unfolding testdata
testdata_all [] = []
testdata_all (a ∷ arches) = testdata a ++ testdata_all arches

-- What the command has printed, its error message, and the exit status.
pub record Exit : Type 0 where
  pub lines : List Bytes
  pub report : List Line
  pub error : Option Error
  pub code : ℕ

abbrev refuse : Error → ℕ → Exit
refuse e code = record { lines = []; report = []; error = some e; code = code }

abbrev pub verified : Report → Exit
verified (out, failed e) = record { lines = []; report = out; error = some e; code = 1 }
verified (out, done ok) = record {
  lines = [];
  report = out;
  error = none;
  code = if ok then 0 else 1;
}

abbrev scanned : List Bytes × Option Error → Exit
scanned (out, some e) = record { lines = out; report = []; error = some e; code = 1 }
scanned (out, none) = record { lines = out; report = []; error = none; code = 0 }

module _ (h : Host) (fs : Files) where
  -- The case "verify" behind its guard.
  abbrev pub run_verify : Bytes → List Arch → Bool → Exit
  run_verify goroot selected require = elim (new_toolchain h goroot) [
    | failed e ↦ refuse e 1
    | done tc ↦ verified (verify tc require selected)
  ]

  -- The `switch`.
  command : Bytes → Flags → List Arch → Exit
  unfolding new_toolchain scan testdata_all
  command name fl selected =
      if beq name (codes "testdata")
      then record { lines = testdata_all selected; report = []; error = none; code = 0 }
      else if not (beq name (codes "scan") || beq name (codes "verify"))
      then refuse (Error.unknown_command name) 2
      else if beq fl.goroot []
      then refuse (Error.no_goroot name) 2
      else if beq name (codes "scan")
      then scanned (scan fs fl.goroot selected)
      else run_verify fl.goroot selected fl.require

  unfoldable pub run : List Bytes → Exit
  unfolding command parse_flags select_arches
  run [] = refuse Error.usage 2
  run (name ∷ args) = elim (parse_flags args defaults) [
    | none ↦ refuse Error.bad_flags 2
    | some fl ↦ elim (select_arches fl.arch) [
      | failed e ↦ refuse e 2
      | done selected ↦ command name fl selected
    ]
  ]
