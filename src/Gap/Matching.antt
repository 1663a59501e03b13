-- ===== src/Gap/Matching.antt =====
-- internal/gap/gap.go, `Matches`: when an entry's test recognises the words of its encoder.
use asmgen.Base.{ℕ, ◌≡◌, ◌≢◌, refl, bit_and, true, List, ==_iff, arith}
use asmgen.Base.Int.{ℤ}
use asmgen.Base.Panics.{ok}
use asmgen.Gap.{Insn, matches}

-- Every word that the entry's encoder returns passes the entry's test.
abbrev pub Recognises : Insn → Type 0
Recognises i = (ops : List ℤ) (w : ℕ) → i.encode ops ≡ ok w → matches i w ≡ true

-- An entry with no second mask passes a word whose masked bits are its opcode.
pub matches_masked :
    (i : Insn) (w : ℕ) → i.not_mask ≡ 0 → bit_and w i.mask ≡ i.bits → matches i w ≡ true
unfolding matches
matches_masked i w hn hm = rw (hn, (==_iff (bit_and w i.mask) i.bits).1 hm) refl

-- An entry with a second mask passes a word that also fails that one.
pub matches_second :
    (i : Insn) (w : ℕ)
    → bit_and w i.mask ≡ i.bits
    → bit_and w i.not_mask ≢ i.not_bits
    → matches i w ≡ true
unfolding matches
matches_second i w hm hn =
    ground (arith, ==_iff (bit_and w i.mask) i.bits, ==_iff (bit_and w i.not_mask) i.not_bits)
