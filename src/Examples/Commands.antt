-- ===== src/Examples/Commands.antt =====
-- tools/goasmgap/main.go: "verify -arch arm64 -require" with a toolchain that knows all its cases.
use asmgen.Base.{ℕ, ◌≡◌, refl, true, none, some, [], ◌∷◌, ◌++◌, List, map, All, beq, if◌then◌else◌}
use asmgen.Base.Text.{Bytes, codes, newline, fmt_hex}
use asmgen.Gap.{Insn, Case}
use asmgen.Gap.Arm64.{arm64, elements}
use asmgen.Goasmgap.{done, Assembler}
use asmgen.Goasmgap.Toolchain.{Host, Ran, source, new_toolchain}
use asmgen.Goasmgap.Classify.{case_line}
use asmgen.Goasmgap.Verify.{verify}
use asmgen.Goasmgap.Verify.Complete.{job_of, jobs}
use asmgen.Goasmgap.Scan.{Files}
use asmgen.Goasmgap.Command.{Flags, defaults, parse_flags, select_arches, run}
use asmgen.Goasmgap.Command.Zero.{IsConfirmed, run-zero}

abbrev listing : List ℕ → Bytes
listing [] = []
listing (w ∷ words) =
    codes "k.s:2 0x0 " ++ (fmt_hex 8 w ++ (codes " WORD" ++ (newline ++ listing words)))

abbrev known : List Insn → Bytes → List ℕ
known [] text = 1 ∷ []
known (i ∷ insns) text =
    let later = known insns text in
    if beq text (source (map (λ c. case_line i c) i.golden))
    then map (λ (c : Case). c.want) i.golden
    else later

abbrev quiet : Bytes → Ran
quiet out = record { output = out; error = none }

abbrev host : Host
host = record {
  make_temp = none;
  write_file = λ text. none;
  build = λ goroot tool. quiet [];
  asm = λ goroot goarch text. quiet [];
  objdump = λ goroot goarch text. quiet (listing (known elements text));
  strip = λ text. text;
}

abbrev no_files : Files
no_files = record { glob = λ dir name. []; read_lines = λ path. done [] }

abbrev args : List Bytes
args = codes "-arch" ∷ codes "arm64" ∷ codes "-goroot=/go" ∷ codes "-require" ∷ []

abbrev flags : Flags
flags = record { arch = codes "arm64"; goroot = codes "/go"; require = true }

parsed : parse_flags args defaults ≡ some flags
unfolding parse_flags
parsed = refl

chosen : select_arches flags.arch ≡ done (arm64 ∷ [])
unfolding select_arches
chosen = refl

code_zero : (run host no_files (codes "verify" ∷ args)).code ≡ 0
unfolding run source verify fmt_hex
code_zero = refl

run-zero_example :
    (tc : Assembler) × (new_toolchain host (codes "/go") ≡ done tc)
    × (map (λ l. job_of l) (run host no_files (codes "verify" ∷ args)).report ≡ jobs (arm64 ∷ []))
    × All (IsConfirmed tc) (run host no_files (codes "verify" ∷ args)).report
run-zero_example = run-zero host no_files args flags (arm64 ∷ []) parsed chosen refl refl code_zero
