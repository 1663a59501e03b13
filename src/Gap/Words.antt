-- ===== src/Gap/Words.antt =====
-- The helpers of arm64/elem.go, loong64/lasx.go, ppc64/vsx.go and s390x/vxe.go that emit a registry
-- entry as data: `return b.Raw("%s", gap.Lookup(ARCH, isa).Word(ops...))`, for a package's ARCH.
use asmgen.Base.{
  ℕ, ◌≡◌, refl, arith, true, beq, beq→eq, List, [], ◌∷◌, All, Bool-cases, inl, inr, ◌⊎◌, ◌∙◌, subst,
}
use asmgen.Base.Int.{ℤ}
use asmgen.Base.Text.{Bytes}
use asmgen.Base.Panics.{Result, ok, panic, Panic, ◌>>=◌}
use asmgen.Builder.{Builder, raw}
use asmgen.Builder.Frame.{Emits, raw-Emits}
use asmgen.Gap.{Insn, matches, syntax}
use asmgen.Gap.Matching.{Recognises}
use asmgen.Gap.Registry.{all, find_insn, lookup, arch_of, word, word_line}
use asmgen.Gap.Recognition.{all-Recognises}

unfoldable pub emit_word : Bytes → Builder → Bytes → List ℤ → Result Builder
unfolding lookup word raw
emit_word arch b isa ops = do i ← lookup arch isa; line ← word i ops; ok (raw b line)

-- The entry that a search finds has the names searched for and whatever holds of all entries.
module _ (P : Insn → Type 0) (arch isa : Bytes) where
  find_insn-ok :
      (insns : List Insn) (i : Insn)
      → All P insns
      → find_insn arch isa insns ≡ ok i
      → P i × (i.arch ≡ arch) × (i.isa ≡ isa)
  unfolding find_insn
  find_insn-ok [] i _ e = cc
  find_insn-ok (j ∷ later) i (here, behind) e = elim (Bool-cases (beq j.arch arch)) [
    | inl a ↦ elim (Bool-cases (beq j.isa isa)) [
      | inl s ↦
          let same : j ≡ i = ground arith in
          subst (λ k. P k × (k.arch ≡ arch) × (k.isa ≡ isa)) same
            (here, beq→eq j.arch arch a, beq→eq j.isa isa s)
      | inr s ↦
          let rest : find_insn arch isa later ≡ ok i = ground arith in
          find_insn-ok later i behind rest
    ]
    | inr a ↦
        let rest : find_insn arch isa later ≡ ok i = ground arith in
        find_insn-ok later i behind rest
  ]

pub lookup-ok :
    (arch isa : Bytes) (i : Insn)
    → lookup arch isa ≡ ok i
    → Recognises i × (i.arch ≡ arch) × (i.isa ≡ isa)
lookup-ok arch isa i e = find_insn-ok Recognises arch isa all i all-Recognises (unfold lookup in e)

pub Result-cases :
    {A : Type 0} (r : Result A) → ((p : Panic) × (r ≡ panic p)) ⊎ ((a : A) × (r ≡ ok a))
Result-cases (panic p) = inl (p, refl)
Result-cases (ok a) = inr (a, refl)

emit_word_by :
    (arch : Bytes) (b : Builder) (isa : Bytes) (ops : List ℤ) (i : Insn)
    → lookup arch isa ≡ ok i
    → emit_word arch b isa ops
      ≡ (i.encode ops >>= λ w. ok (raw b (word_line (arch_of i.arch) w (syntax i ops))))
unfolding emit_word word
emit_word_by arch b isa ops i found =
    rw found
      (elim (Result-cases (i.encode ops)) [ inl (p, e) ↦ rw e refl | inr (w, e) ↦ rw e refl ])

-- For a name that the registry has: when the entry's encoder refuses the operands, so does the
-- method, with the encoder's panic; otherwise the method appends one line, the entry's word beside
-- the proposed spelling, and that word passes the opcode test of the entry, which has the family
-- and the name asked for.
pub emit_word_cases :
    (arch : Bytes) (b : Builder) (isa : Bytes) (ops : List ℤ) (i : Insn)
    → lookup arch isa ≡ ok i
    → ((p : Panic) × (i.encode ops ≡ panic p) × (emit_word arch b isa ops ≡ panic p))
      ⊎ ((w : ℕ) × (b' : Builder) × (i.encode ops ≡ ok w)
          × (emit_word arch b isa ops ≡ ok b')
          × (matches i w ≡ true)
          × (i.arch ≡ arch)
          × (i.isa ≡ isa)
          × Emits b (word_line (arch_of i.arch) w (syntax i ops)) b')
emit_word_cases arch b isa ops i found =
    let by = emit_word_by arch b isa ops i found in
    let (known, family, name) = lookup-ok arch isa i found in
    elim (Result-cases (i.encode ops)) [
      | inl (p, e) ↦ inl (p, e, by ∙ rw e refl)
      | inr (w, e) ↦
          let line = word_line (arch_of i.arch) w (syntax i ops) in
          inr (w, raw b line, e, by ∙ rw e refl, known ops w e, family, name, raw-Emits b line)
    ]
