-- ===== src/Goasmgap/Toolchain.antt =====
-- tools/goasmgap/main.go: toolchain, newToolchain and assemble over what they run.
use asmgen.Base.{ℕ, List, [], ◌∷◌, ◌++◌, Option, none, some}
use asmgen.Base.Text.{Bytes, codes, newline, tab}
use asmgen.Emit.{middle_dot}
use asmgen.Goasmgap.{Error, Fallible, done, failed, Assembler}
use asmgen.Goasmgap.Objdump.{objdump_words, first_line}

-- What a program that was run printed, and the error that it ended with.
pub record Ran : Type 0 where
  pub output : Bytes
  pub error : Option Bytes

-- The operating system and the Go tree at a path: `build` is "go build" of a tool; `asm` assembles a
-- source for a target; `objdump` lists the object file that `asm` wrote for it. The file operations
-- answer with an error or with nothing.
pub record Host : Type 0 where
  pub make_temp : Option Bytes
  pub write_file : Bytes → Option Bytes
  pub build : Bytes → Bytes → Ran
  pub asm : Bytes → Bytes → Bytes → Ran
  pub objdump : Bytes → Bytes → Bytes → Ran
  -- tempPrefix.ReplaceAllString(_, "")
  pub strip : Bytes → Bytes

-- The loop that adds the lines to the source.
source_lines : List Bytes → Bytes
source_lines [] = []
source_lines (l ∷ lines) = tab ++ (l ++ (newline ++ source_lines lines))

unfoldable pub source : List Bytes → Bytes
unfolding source_lines
source lines =
    codes "#include \"textflag.h\""
    ++ (newline
        ++ (codes "TEXT "
            ++ (middle_dot
                ++ (codes "k(SB),NOSPLIT,$0"
                    ++ (newline ++ (source_lines lines ++ (tab ++ (codes "RET" ++ newline))))))))

-- `if err != nil` for an error that is passed on.
abbrev unless : Option Bytes → Fallible (List ℕ) → Fallible (List ℕ)
unless (some e) next = failed (Error.complaint e)
unless none next = next

module _ (h : Host) (goroot : Bytes) where
  list_words : Ran → Fallible (List ℕ)
  unfolding first_line objdump_words
  list_words r = elim r.error [
    | some e ↦ failed (Error.no_listing (first_line h.strip e r.output))
    | none ↦ objdump_words r.output
  ]

  assembled : Ran → Bytes → Bytes → Fallible (List ℕ)
  unfolding first_line list_words
  assembled r goarch text = elim r.error [
    | some e ↦ failed (Error.complaint (first_line h.strip e r.output))
    | none ↦ list_words (h.objdump goroot goarch text)
  ]

  pub assemble : Assembler
  unfolding assembled source
  assemble goarch lines = unless h.make_temp (
      unless (h.write_file (source lines))
        (assembled (h.asm goroot goarch (source lines)) goarch (source lines)))

  -- The loop over the tools to build.
  build_tools : List Bytes → Fallible Assembler
  unfolding first_line assemble
  build_tools [] = done assemble
  build_tools (tool ∷ later) =
      let r = h.build goroot tool in
      elim r.error [
        | some e ↦ failed (Error.no_tool tool goroot (first_line h.strip e r.output))
        | none ↦ build_tools later
      ]

  unfoldable pub new_toolchain : Fallible Assembler
  unfolding build_tools
  new_toolchain = elim h.make_temp [
    | some e ↦ failed (Error.complaint e)
    | none ↦ build_tools (codes "asm" ∷ codes "objdump" ∷ [])
  ]
