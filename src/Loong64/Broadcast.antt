-- ===== src/Loong64/Broadcast.antt =====
-- loong64/lasx.go, `ldrepl`: which offsets are emitted as a word, which under the mnemonic, and
-- which are refused.
use asmgen.Base.{ℕ, ◌≡◌, refl, ◌∙◌, true, List, [], ◌∷◌, if◌then◌else◌, ◌⊎◌, inl, inr}
use asmgen.Base.Int.{ℤ, negsuc, is_int}
use asmgen.Base.Text.{Bytes, codes}
use asmgen.Base.Panics.{ok, panic, Panic, ◌>>=◌}
use asmgen.Builder.{Builder, raw}
use asmgen.Builder.Frame.{Emits, raw-Emits}
use asmgen.Gap.{Insn, matches, syntax}
use asmgen.Gap.Registry.{lookup, word, word_line, arch_of}
use asmgen.Gap.Words.{lookup-ok, Result-cases}
use asmgen.Loong64.Lasx.{ldrepl}

-- What the method writes for a word that encodes the operands.
abbrev pub chosen : Insn → ℤ → List ℤ → ℕ → Bytes
chosen i off ops w =
    if is_int off (negsuc 2047) then word_line (arch_of i.arch) w (syntax i ops) else syntax i ops

module _ (b : Builder) (isa : Bytes) (d rj off : ℤ) (i : Insn) where
  ldrepl_by :
      lookup (codes "loong64") isa ≡ ok i
      → ldrepl b isa d rj off
        ≡ (i.encode (d ∷ rj ∷ off ∷ []) >>= λ w. ok (raw b (chosen i off (d ∷ rj ∷ off ∷ []) w)))
  unfolding ldrepl word
  ldrepl_by found = rw found (elim (Result-cases (i.encode (d ∷ rj ∷ off ∷ []))) [
    | inl (p, e) ↦ rw e refl
    | inr (w, e) ↦ rw e refl
  ])

  -- For a name that the registry has under loong64: when the entry's encoder refuses the operands,
  -- so does the method, with the encoder's panic, whatever the offset; otherwise it appends one
  -- line, at offset -2048 the entry's word beside the spelling and at any other offset the spelling
  -- alone, and the word passes the entry's opcode test.
  pub ldrepl_cases :
      lookup (codes "loong64") isa ≡ ok i
      → ((p : Panic) × (i.encode (d ∷ rj ∷ off ∷ []) ≡ panic p) × (ldrepl b isa d rj off ≡ panic p))
        ⊎ ((w : ℕ) × (b' : Builder) × (i.encode (d ∷ rj ∷ off ∷ []) ≡ ok w)
            × (ldrepl b isa d rj off ≡ ok b')
            × (matches i w ≡ true)
            × Emits b (chosen i off (d ∷ rj ∷ off ∷ []) w) b')
  ldrepl_cases found =
      let ops = d ∷ rj ∷ off ∷ [] in
      let (known, _, _) = lookup-ok (codes "loong64") isa i found in
      elim (Result-cases (i.encode ops)) [
        | inl (p, e) ↦ inl (p, e, ldrepl_by found ∙ rw e refl)
        | inr (w, e) ↦
            let line = chosen i off ops w in
            inr (w, raw b line, e, ldrepl_by found ∙ rw e refl, known ops w e, raw-Emits b line)
      ]
