-- ===== src/Gap/Golden.antt =====
-- internal/gap: the reference encodings of every entry against the entry's encoder.
use asmgen.Base.{
  ℕ, ◌≡◌, refl, ap, Bool, true, false, ◌&&◌, List, [], ◌∷◌, some, get_elem?, All, All-get, ◌==◌,
  ==_iff,
}
use asmgen.Base.Int.{ℤ}
use asmgen.Base.Panics.{Result, ok, panic}
use asmgen.Gap.{Insn, Case}
use asmgen.Gap.Registry.{all}
use asmgen.Gap.Arm64.Format.{encode_element}
use asmgen.Gap.Loong64.Format.{encode_r4, encode_ldrepl, encode_csr, encode_csrxchg}
use asmgen.Gap.Ppc64.Format.{encode_xx3, encode_xx2}
use asmgen.Gap.S390x.Format.{encode_vrrc, encode_vrre, encode_vrra}

returns : Result ℕ → ℕ → Bool
returns (ok w) want = w == want
returns (panic e) want = false

reproduced : (List ℤ → Result ℕ) → List Case → Bool
reproduced encode [] = true
reproduced encode (c ∷ cases) = returns (encode c.ops) c.want && reproduced encode cases

all_reproduced : List Insn → Bool
all_reproduced [] = true
all_reproduced (i ∷ insns) = reproduced i.encode i.golden && all_reproduced insns

all_reproduced-all : all_reproduced all ≡ true
unfolding all_reproduced reproduced returns all encode_element encode_r4 encode_ldrepl encode_csr
    encode_csrxchg encode_xx3 encode_xx2 encode_vrrc encode_vrre encode_vrra
all_reproduced-all = refl

returns-eq : (r : Result ℕ) (want : ℕ) → returns r want ≡ true → r ≡ ok want
unfolding returns
returns-eq (ok w) want h = ap ok ((==_iff w want).0 h)
returns-eq (panic e) want h = cc

both : (b c : Bool) → (b && c) ≡ true → (b ≡ true) × (c ≡ true)
both true c h = (refl, h)
both false c h = cc

-- The encoder makes the reference word from the operands beside it.
abbrev pub Reproduces : (List ℤ → Result ℕ) → Case → Type 0
Reproduces encode c = encode c.ops ≡ ok c.want

reproduced-All :
    (encode : List ℤ → Result ℕ) (cases : List Case)
    → reproduced encode cases ≡ true
    → All (Reproduces encode) cases
unfolding reproduced
reproduced-All encode [] h = tt
reproduced-All encode (c ∷ cases) h =
    let (first, rest) = both (returns (encode c.ops) c.want) (reproduced encode cases) h in
    (returns-eq (encode c.ops) c.want first, reproduced-All encode cases rest)

all_reproduced-All :
    (insns : List Insn)
    → all_reproduced insns ≡ true
    → All (λ i. All (Reproduces i.encode) i.golden) insns
unfolding all_reproduced
all_reproduced-All [] h = tt
all_reproduced-All (i ∷ insns) h =
    let (first, rest) = both (reproduced i.encode i.golden) (all_reproduced insns) h in
    (reproduced-All i.encode i.golden first, all_reproduced-All insns rest)

-- Every reference encoding of every entry of the registry is what the entry's encoder makes of
-- the reference operands.
pub encode-golden :
    (k j : ℕ) (i : Insn) (c : Case)
    → get_elem? all k ≡ some i
    → get_elem? i.golden j ≡ some c
    → i.encode c.ops ≡ ok c.want
encode-golden k j i c entry reference =
    let table = all_reproduced-All all all_reproduced-all in
    let cases = All-get (λ (e : Insn). All (Reproduces e.encode) e.golden) all k i table entry in
    All-get (Reproduces i.encode) i.golden j c cases reference
