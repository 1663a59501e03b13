-- ===== src/Examples/Encodings.antt =====
-- internal/gap: the theorems at entries and operands of the reference tables.
use asmgen.Base.{
  ◌⊎◌, ℕ, List, ◌^◌, ◌<◌, ◌≡◌, refl, arith, bit_and, true, false, [], ◌∷◌, some, get_elem?, ◌<<<◌,
  ◌|||◌,
}
use asmgen.Base.Int.{ℤ, pos, negsuc}
use asmgen.Base.Panics.{ok, panic, Panic}
use asmgen.Gap.{case, matches, syntax}
use asmgen.Abi.{layout_args}
use asmgen.Builder.{Builder, new_func}
use asmgen.Builder.Frame.{Emits}
use asmgen.Gap.Registry.{all, lookup, arch_of, word_line}
use asmgen.Gap.Loong64.Vector.{vldrepl_d}
use asmgen.Loong64.Lasx
use asmgen.Loong64.Broadcast.{chosen, ldrepl_cases}
use asmgen.Gap.Names.{lookup-all}
use asmgen.Gap.Words.{emit_word, emit_word_cases}
use asmgen.Base.Text.{codes}
use asmgen.Gap.Recognition.{matches-encode}
use asmgen.Gap.Golden.{encode-golden}
use asmgen.Gap.Ppc64.Format.{xx3, xx2}
use asmgen.Gap.Ppc64.Fields.{vsx_at}
use asmgen.Gap.Ppc64.Laws.{xx3_decodes}
use asmgen.Gap.Loong64.Format.{r4, ldrepl, csr, encode_csrxchg}
use asmgen.Gap.Loong64.Csr.{csrxchg}
use asmgen.Gap.S390x.Format.{vrrc, vrre, vrra}
use asmgen.Gap.Arm64.Format.{by_element}

-- csrxchg, the entry with a second mask, stands behind the six of arm64 and the eight before it.
csrxchg_at : get_elem? all 14 ≡ some csrxchg
unfolding all
csrxchg_at = refl

csrxchg_word : encode_csrxchg (pos 12 ∷ pos 13 ∷ pos 1 ∷ []) ≡ ok 0x040005ac
unfolding encode_csrxchg
csrxchg_word = refl

csrxchg_case : get_elem? csrxchg.golden 1 ≡ some (case (12 ∷ 13 ∷ 1 ∷ []) 0x040005ac)
unfolding csrxchg
csrxchg_case = refl

matches-encode_example : matches csrxchg 0x040005ac ≡ true
unfolding csrxchg
matches-encode_example =
    matches-encode 14 csrxchg (pos 12 ∷ pos 13 ∷ pos 1 ∷ []) 0x040005ac csrxchg_at csrxchg_word

encode-golden_example : csrxchg.encode (pos 12 ∷ pos 13 ∷ pos 1 ∷ []) ≡ ok 0x040005ac
encode-golden_example =
    encode-golden 14 1 csrxchg (case (12 ∷ 13 ∷ 1 ∷ []) 0x040005ac) csrxchg_at csrxchg_case

xx3_decodes_word : xx3 96 (pos 31) (pos 32) (pos 1) ≡ ok 0xf3e00b04
unfolding xx3
xx3_decodes_word = refl

xx3_decodes_example :
    (0xf3e00b04 < 2 ^ 32)
    × (pos 31 ≡ pos (vsx_at 21 0 0xf3e00b04))
    × (pos 32 ≡ pos (vsx_at 16 2 0xf3e00b04))
    × (pos 1 ≡ pos (vsx_at 11 1 0xf3e00b04))
    × (bit_and 0xf3e00b04 0xfc0007f8 ≡ 60 <<< 26 ||| 96 <<< 3)
xx3_decodes_example =
    xx3_decodes 96 (pos 31) (pos 32) (pos 1) 0xf3e00b04 (omega arith) xx3_decodes_word

xx2_decodes_word : xx2 139 (pos 31) (pos 32) ≡ ok 0xf3e0022e
unfolding xx2
xx2_decodes_word = refl

r4_decodes_word : r4 0x09200000 (pos 3) (pos 31) (pos 7) (pos 12) ≡ ok 0x9261fe3
unfolding r4
r4_decodes_word = refl

ldrepl_decodes_word : ldrepl 0x32100000 (pos 3) (pos 6) (negsuc 7) ≡ ok 0x3217fcc3
unfolding ldrepl
ldrepl_decodes_word = refl

csr_decodes_word : csr 0x04000020 (pos 12) (pos 0) (pos 12) ≡ ok 0x0400302c
unfolding csr
csr_decodes_word = refl

csrxchg_decodes_word : csr 0x04000000 (pos 12) (pos 13) (pos 1) ≡ ok 0x040005ac
unfolding csr
csrxchg_decodes_word = refl

vrrc_decodes_word : vrrc 0xe3 2 8 (pos 31) (pos 15) (pos 16) ≡ ok 0xe7ff00082ae3
unfolding vrrc
vrrc_decodes_word = refl

vrre_decodes_word : vrre 0x8f 2 8 (pos 16) (pos 31) (pos 15) (pos 31) ≡ ok 0xe70ff208fd8f
unfolding vrre
vrre_decodes_word = refl

vrra_decodes_word : vrra 0xce 2 8 (pos 31) (pos 15) ≡ ok 0xe7ff000828ce
unfolding vrra
vrra_decodes_word = refl

single_decodes_word : by_element 0x4f801000 false (pos 17) (pos 9) (pos 26) (pos 2) ≡ ok 0x4f9a1931
unfolding by_element
single_decodes_word = refl

double_decodes_word : by_element 0x4fc01000 true (pos 17) (pos 9) (pos 26) (pos 0) ≡ ok 0x4fda1131
unfolding by_element
double_decodes_word = refl

csrxchg_found : lookup (codes "loong64") (codes "csrxchg") ≡ ok csrxchg
unfolding lookup
csrxchg_found = refl

lookup-all_example : lookup csrxchg.arch csrxchg.isa ≡ ok csrxchg
lookup-all_example = lookup-all 14 csrxchg csrxchg_at

abbrev empty : Builder
empty = new_func (codes "f") (layout_args [] []) 0

abbrev one : List ℤ
one = pos 12 ∷ pos 1 ∷ pos 1 ∷ []

-- The mask register 1 would encode csrwr.
emit_word_cases_example :
    ((p : Panic) × (csrxchg.encode one ≡ panic p)
      × (emit_word (codes "loong64") empty (codes "csrxchg") one ≡ panic p))
    ⊎ ((w : ℕ) × (b' : Builder) × (csrxchg.encode one ≡ ok w)
        × (emit_word (codes "loong64") empty (codes "csrxchg") one ≡ ok b')
        × (matches csrxchg w ≡ true)
        × (csrxchg.arch ≡ codes "loong64")
        × (csrxchg.isa ≡ codes "csrxchg")
        × Emits empty (word_line (arch_of csrxchg.arch) w (syntax csrxchg one)) b')
emit_word_cases_example =
    emit_word_cases (codes "loong64") empty (codes "csrxchg") one csrxchg csrxchg_found

vldrepl_d_found : lookup (codes "loong64") (codes "vldrepl.d") ≡ ok vldrepl_d
unfolding lookup
vldrepl_d_found = refl

-- The offset that cmd/asm refuses, -2048.
abbrev lowest : ℤ
lowest = negsuc 2047

ldrepl_cases_example :
    ((p : Panic) × (vldrepl_d.encode (pos 9 ∷ pos 5 ∷ lowest ∷ []) ≡ panic p)
      × (Lasx.ldrepl empty (codes "vldrepl.d") (pos 9) (pos 5) lowest ≡ panic p))
    ⊎ ((w : ℕ) × (b' : Builder) × (vldrepl_d.encode (pos 9 ∷ pos 5 ∷ lowest ∷ []) ≡ ok w)
        × (Lasx.ldrepl empty (codes "vldrepl.d") (pos 9) (pos 5) lowest ≡ ok b')
        × (matches vldrepl_d w ≡ true)
        × Emits empty (chosen vldrepl_d lowest (pos 9 ∷ pos 5 ∷ lowest ∷ []) w) b')
ldrepl_cases_example =
    ldrepl_cases empty (codes "vldrepl.d") (pos 9) (pos 5) lowest vldrepl_d vldrepl_d_found
