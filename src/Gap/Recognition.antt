-- ===== src/Gap/Recognition.antt =====
-- internal/gap/gap.go: every entry of the registry against its own opcode test and its own
-- reference encodings.
use asmgen.Base.{ℕ, ◌≡◌, true, List, [], ◌∷◌, some, get_elem?, All, All-append, All-get, ◌&◌}
use asmgen.Base.Int.{ℤ}
use asmgen.Base.Panics.{ok}
use asmgen.Gap.{Insn, Arch, matches}
use asmgen.Gap.Registry.{arches, all, all_of}
use asmgen.Gap.Matching.{Recognises}
use asmgen.Gap.Arm64.Matches.{arm64-Recognises}
use asmgen.Gap.Loong64.Matches.{loong64-Recognises}
use asmgen.Gap.Ppc64.Matches.{ppc64-Recognises}
use asmgen.Gap.S390x.Matches.{s390x-Recognises}

-- What holds of each family's entries holds of the registry's.
module _ (P : Insn → Type 0) where
  All-all_of : (families : List Arch) → All (λ a. All P a.insns) families → All P (all_of families)
  unfolding all_of
  All-all_of [] _ = tt
  All-all_of (a ∷ families) (h, hs) =
      All-append P a.insns (all_of families) h (All-all_of families hs)

pub all-Recognises : All Recognises all
unfolding all arches
all-Recognises =
    All-all_of Recognises arches
      (arm64-Recognises & loong64-Recognises & ppc64-Recognises & s390x-Recognises & tt)

-- For every entry of the registry and every operands that its encoder does not refuse, the word
-- that comes out passes the entry's own test, its second mask included.
pub matches-encode :
    (k : ℕ) (i : Insn) (ops : List ℤ) (w : ℕ)
    → get_elem? all k ≡ some i
    → i.encode ops ≡ ok w
    → matches i w ≡ true
matches-encode k i ops w entry e = All-get Recognises all k i all-Recognises entry ops w e
