-- ===== src/Abi/Lookup.antt =====
-- `Signature.Slot`: the first slot of the arguments and then the results that has the name.
use asmgen.Base.{
  ℕ, zero, suc, ◌<◌, ◌≡◌, ◌≢◌, refl, sym, subst, ◌∙◌, arith, true, false, none, some, List, [], ◌∷◌,
  ◌++◌, get_elem?, beq, beq→eq, beq_refl, Bool-cases, inl, inr, ◌⊎◌, Option-cases, All,
  All-tabulate,
}
use asmgen.Base.Text.{Bytes}
use asmgen.Abi.{Param, Signature, find_param, slot}

find_param-append :
    (name : Bytes) (ps qs : List Param)
    → find_param name (ps ++ qs)
      ≡ elim (find_param name ps) [ some p ↦ some p | none ↦ find_param name qs ]
unfolding find_param
find_param-append name [] qs = refl
find_param-append name (p ∷ ps) qs = ground (arith, find_param-append name ps qs)

slot-find_param : (s : Signature) (name : Bytes) → slot s name ≡ find_param name (s.args ++ s.rets)
unfolding slot
slot-find_param s name = sym (find_param-append name s.args s.rets)

-- `p` stands at place `i` of the slots, and no slot before it has the name.
pub record IsFirstNamed (name : Bytes) (ps : List Param) (p : Param) : Type 0 where
  pub place : ℕ
  pub stands : get_elem? ps place ≡ some p
  pub named : p.name ≡ name
  pub first : (j : ℕ) (q : Param) → j < place → get_elem? ps j ≡ some q → q.name ≢ name

other_name : (p : Param) (name : Bytes) → beq p.name name ≡ false → p.name ≢ name
other_name p name e same = let hit : beq p.name name ≡ true = rw same (beq_refl name) in cc

find_param_hit :
    (name : Bytes) (q : Param) (ps : List Param)
    → beq q.name name ≡ true
    → find_param name (q ∷ ps) ≡ some q
unfolding find_param
find_param_hit name q ps hit = rw hit

find_param_miss :
    (name : Bytes) (q : Param) (ps : List Param)
    → beq q.name name ≡ false
    → find_param name (q ∷ ps) ≡ find_param name ps
unfolding find_param
find_param_miss name q ps miss = rw miss

first_behind :
    (name : Bytes) (q : Param) (ps : List Param) (place : ℕ)
    → q.name ≢ name
    → ((j : ℕ) (r : Param) → j < place → get_elem? ps j ≡ some r → r.name ≢ name)
    → (j : ℕ) (r : Param) → j < suc place
    → get_elem? (q ∷ ps) j ≡ some r
    → r.name ≢ name
first_behind name q ps place other before zero r lt at =
    let same : q ≡ r = cc in subst (λ s. s.name ≢ name) same other
first_behind name q ps place other before (suc j) r lt at = before j r (omega arith) at

pub find_param_sound :
    (name : Bytes) (ps : List Param) (p : Param)
    → find_param name ps ≡ some p
    → IsFirstNamed name ps p
find_param_sound name [] p e = unfold find_param in cc
find_param_sound name (q ∷ ps) p e = elim (Bool-cases (beq q.name name)) [
  | inl hit ↦ subst (IsFirstNamed name (q ∷ ps)) (cc (find_param_hit name q ps hit)) (record {
    place = 0;
    stands = refl;
    named = beq→eq _ _ hit;
    first = λ j r lt at. absurd (omega arith);
  })
  | inr miss ↦
      let later = find_param_sound name ps p (sym (find_param_miss name q ps miss) ∙ e) in
      record {
        place = suc later.place;
        stands = later.stands;
        named = later.named;
        first = first_behind name q ps later.place (other_name q name miss) later.first;
      }
]

find_param-none :
    (name : Bytes) (ps : List Param)
    → find_param name ps ≡ none
    → (i : ℕ) (q : Param) → get_elem? ps i ≡ some q
    → q.name ≢ name
find_param-none name [] e i q at = cc
find_param-none name (p ∷ ps) e i q at = elim (Bool-cases (beq p.name name)) [
  | inl hit ↦ cc (find_param_hit name p ps hit)
  | inr miss ↦
      first_behind name p ps (suc i) (other_name p name miss)
        (λ j r lt. find_param-none name ps (sym (find_param_miss name p ps miss) ∙ e) j r) i q
        (omega arith) at
]

-- No slot of the list has the name.
abbrev pub Unnamed : Bytes → List Param → Type 0
Unnamed name ps = All (λ (q : Param). q.name ≢ name) ps

pub find_param-Unnamed :
    (name : Bytes) (ps : List Param) → find_param name ps ≡ none → Unnamed name ps
find_param-Unnamed name ps e =
    All-tabulate (λ (q : Param). q.name ≢ name) ps (find_param-none name ps e)

-- `Slot` returns the first slot with the name, in the order of the arguments and then the results,
-- or reports nothing found, and then no slot has the name.
pub slot_first :
    (s : Signature) (name : Bytes)
    → ((p : Param) × (slot s name ≡ some p) × IsFirstNamed name (s.args ++ s.rets) p)
      ⊎ ((slot s name ≡ none) × Unnamed name (s.args ++ s.rets))
slot_first s name =
    let same = slot-find_param s name in
    elim (Option-cases (find_param name (s.args ++ s.rets))) [
      | inl miss ↦ inr (same ∙ miss, find_param-Unnamed name _ miss)
      | inr (p, hit) ↦ inl (p, same ∙ hit, find_param_sound name _ p hit)
    ]
