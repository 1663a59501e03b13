-- ===== src/Gap/Registry.antt =====
-- internal/gap/gap.go: the registry. Go runs the `init` of a package's files in the order of their
-- names, so the families stand in the order of arm64.go, loong64.go, ppc64.go, s390x.go.
use asmgen.Base.{
  ℕ, ◌&&◌, ◌%◌, Option, none, some, List, [], ◌∷◌, ◌++◌, beq, ◌==◌, if◌then◌else◌, ◌>>>◌,
}
use asmgen.Base.Int.{ℤ}
use asmgen.Base.Text.{Bytes, codes, fmt_hex}
use asmgen.Base.Panics.{Result, ok, panic, Panic, ◌>>=◌}
use asmgen.Gap.{Insn, Arch, size_of, syntax}
use asmgen.Gap.Arm64.{arm64}
use asmgen.Gap.Loong64.{loong64}
use asmgen.Gap.Ppc64.{ppc64}
use asmgen.Gap.S390x.{s390x}

unfoldable pub arches : List Arch
unfolding arm64 loong64 ppc64 s390x
arches = arm64 ∷ loong64 ∷ ppc64 ∷ s390x ∷ []

unfoldable pub all_of : List Arch → List Insn
all_of [] = []
all_of (a ∷ families) = a.insns ++ all_of families

unfoldable pub all : List Insn
unfolding all_of arches
all = all_of arches

unfoldable pub find_insn : Bytes → Bytes → List Insn → Result Insn
find_insn arch isa [] = panic (Panic.no_entry arch isa)
find_insn arch isa (i ∷ later) =
    if beq i.arch arch && beq i.isa isa then ok i else find_insn arch isa later

unfoldable pub lookup : Bytes → Bytes → Result Insn
unfolding find_insn all
lookup arch isa = find_insn arch isa all

pub find_arch : Bytes → List Arch → Option Arch
find_arch name [] = none
find_arch name (a ∷ families) = if beq a.name name then some a else find_arch name families

unfoldable pub arch_of : Bytes → Option Arch
unfolding find_arch arches
arch_of name = find_arch name arches

-- "WORD $0x%08x; BYTE $0x%02x; BYTE $0x%02x // %s" and "WORD $0x%08x // %s".
pub long_line : ℕ → Bytes → Bytes
long_line w comment =
    codes "WORD $0x"
    ++ (fmt_hex 8 (w >>> 16)
        ++ (codes "; BYTE $0x"
            ++ (fmt_hex 2 ((w >>> 8) % 256)
                ++ (codes "; BYTE $0x" ++ (fmt_hex 2 (w % 256) ++ (codes " // " ++ comment))))))

pub short_line : ℕ → Bytes → Bytes
short_line w comment = codes "WORD $0x" ++ (fmt_hex 8 w ++ (codes " // " ++ comment))

abbrev pub word_line : Option Arch → ℕ → Bytes → Bytes
word_line none w comment = short_line w comment
word_line (some a) w comment = if size_of a == 6 then long_line w comment else short_line w comment

unfoldable pub word : Insn → List ℤ → Result Bytes
unfolding arch_of long_line short_line size_of fmt_hex syntax
word i ops = do w ← i.encode ops; ok (word_line (arch_of i.arch) w (syntax i ops))
