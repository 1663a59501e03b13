-- ===== src/Goasmgap.antt =====
-- tools/goasmgap/main.go: the command that writes the registry's test lines and judges a toolchain
-- by the reference encodings. What it runs (Go's assembler, objdump, the file system) is a
-- parameter of the modules below.
pub mod Objdump
pub mod Toolchain
pub mod Classify
pub mod Verify
pub mod Scan
pub mod Command
use asmgen.Base.{ℕ, List}
use asmgen.Base.Text.{Bytes}

-- An error keeps what its message is formatted from.
pub data Error : Type 0 where
  -- "no gap entries for architecture A"
  unknown_arch : Bytes → Error
  -- "objdump: unexpected line L"
  unexpected_line : Bytes → Error
  -- "verify: the toolchain does not assemble for G"
  no_assembler : Bytes → Error
  -- "verify: N instructions produced M words"
  few_words : ℕ → ℕ → Error
  -- "verify: L produced no instruction"
  no_instruction : Bytes → Error
  -- "verify: building cmd/T from G: M"
  no_tool : Bytes → Bytes → Bytes → Error
  -- "objdump: M"
  no_listing : Bytes → Error
  -- "scan: no A test data under DIR"
  no_data : Bytes → Bytes → Error
  -- "usage: goasmgap testdata|scan|verify [flags]"
  usage : Error
  -- what the package flag prints
  bad_flags : Error
  -- "C: -goroot is required"
  no_goroot : Bytes → Error
  -- "unknown command C"
  unknown_command : Bytes → Error
  -- any other text
  complaint : Bytes → Error

pub data Fallible {ℓ} (A : Type ℓ) : Type ℓ where
  done : A → Fallible A
  failed : Error → Fallible A

infixl 5 ◌>>=◌
abbrev pub ◌>>=◌ {ℓ κ} : {X : Type ℓ} {Y : Type κ} → Fallible X → (X → Fallible Y) → Fallible Y
failed e >>= next = failed e
done x >>= next = next x

-- What `classify` needs from a toolchain: the words of the instructions in the lines, or an error.
-- It answers alike when it is asked again.
abbrev pub Assembler : Type 0
Assembler = Bytes → List Bytes → Fallible (List ℕ)
