-- ===== src/Gap/Names.antt =====
-- internal/gap/gap.go, `Lookup`: searches for the names of the entries themselves.
use asmgen.Base.{ℕ, ◌≡◌, refl, some, get_elem?, All, All-get, ◌&◌}
use asmgen.Base.Panics.{ok}
use asmgen.Gap.{Insn}
use asmgen.Gap.Registry.{all, lookup}

abbrev IsFound : Insn → Type 0
IsFound i = lookup i.arch i.isa ≡ ok i

all-IsFound : All IsFound all
unfolding all lookup
all-IsFound =
    refl & refl & refl & refl & refl & refl & refl & refl & refl & refl & refl & refl & refl & refl
    & refl & refl & refl & refl & refl & refl & refl & refl & refl & refl & refl & refl & refl
    & refl & refl & refl & refl & refl & refl & refl & refl & refl & refl & refl & refl & refl
    & refl & refl & refl & refl & refl & tt

-- No entry of the registry hides another: `Lookup` of the family and the name of any entry returns
-- that entry.
pub lookup-all : (k : ℕ) (i : Insn) → get_elem? all k ≡ some i → lookup i.arch i.isa ≡ ok i
lookup-all k i entry = All-get IsFound all k i all-IsFound entry
