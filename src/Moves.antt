-- ===== src/Moves.antt =====
-- The six move tables together: which types share a load, and which share a store.
use asmgen.Base.{
  ℕ, ◌≤◌, ◌≡◌, ◌↔◌, ◌⊎◌, inl, inr, refl, sym, ◌∙◌, arith, Bool, true, false, not, ◌&&◌, ◌||◌, List,
  [], ◌∷◌, beq, beq_iff, ◌==◌,
}
use asmgen.Abi.{ScalarType, int8, int16, int32, int64, uint8, uint16, uint32, uint64}
use asmgen.Abi.Align.{IsScalarSize}
use asmgen.Builder.{Backend}
use asmgen.Amd64
use asmgen.Arm64
use asmgen.Riscv64
use asmgen.Loong64
use asmgen.Ppc64
use asmgen.S390x

pub data Target : Type 0 where
  amd64 arm64 riscv64 loong64 ppc64 s390x : Target

abbrev pub backend_of : Target → Backend
backend_of amd64 = Amd64.backend
backend_of arm64 = Arm64.backend
backend_of riscv64 = Riscv64.backend
backend_of loong64 = Loong64.backend
backend_of ppc64 = Ppc64.backend
backend_of s390x = S390x.backend

-- The scalar types of Go: integers of 1, 2, 4 or 8 bytes, and floats of 4 or 8.
abbrev pub IsGoType : ScalarType → Type 0
IsGoType t = IsScalarSize t.size × (t.float ≡ true → 4 ≤ t.size)

abbrev same_bool : Bool → Bool → Bool
same_bool true b = b
same_bool false b = not b

-- One register file and one width.
abbrev pub same_store : ScalarType → ScalarType → Bool
same_store t u = same_bool t.float u.float && (t.size == u.size)

-- For integers below 8 bytes the extension counts too.
abbrev pub same_load : ScalarType → ScalarType → Bool
same_load t u = same_store t u && ((t.float || (t.size == 8)) || same_bool t.signed u.signed)

abbrev float_type : ℕ → Bool → ScalarType
float_type n s = record { size = n; float = true; signed = s }

abbrev go_types : List ScalarType
go_types =
    int8
    ∷ int16
    ∷ int32
    ∷ int64
    ∷ uint8
    ∷ uint16
    ∷ uint32
    ∷ uint64
    ∷ float_type 4 false
    ∷ float_type 4 true
    ∷ float_type 8 false
    ∷ float_type 8 true
    ∷ []

abbrev IsIn : ScalarType → List ScalarType → Type 0
IsIn t [] = ⊥
IsIn t (u ∷ us) = (t ≡ u) ⊎ IsIn t us

type_path : (t u : ScalarType) → t.size ≡ u.size → t.float ≡ u.float → t.signed ≡ u.signed → t ≡ u
type_path t u p q r = λ i. record { size = p i; float = q i; signed = r i }

-- A type is given by its size and two flags.
by_parts :
    (n : ℕ) (f s : Bool)
    → IsScalarSize n
    → (f ≡ true → 4 ≤ n)
    → IsIn (record { size = n; float = f; signed = s }) go_types
by_parts n false true size wide = ground arith
by_parts n false false size wide = ground arith
by_parts n true false size wide = let big : 4 ≤ n = wide refl in ground arith
by_parts n true true size wide = let big : 4 ≤ n = wide refl in ground arith

every : (ScalarType → Bool) → List ScalarType → Bool
every p [] = true
every p (u ∷ us) = p u && every p us

all_pairs : (ScalarType → ScalarType → Bool) → List ScalarType → List ScalarType → Bool
unfolding every
all_pairs p [] us = true
all_pairs p (t ∷ ts) us = every (p t) us && all_pairs p ts us

every_sound :
    (p : ScalarType → Bool) (us : List ScalarType) (u : ScalarType)
    → every p us ≡ true
    → IsIn u us
    → p u ≡ true
unfolding every
every_sound p [] u h m = elim m [ ]
every_sound p (v ∷ us) u h (inl e) = rw e (ground arith)
every_sound p (v ∷ us) u h (inr m) = every_sound p us u (ground arith) m

all_pairs_sound :
    (p : ScalarType → ScalarType → Bool) (ts us : List ScalarType) (t u : ScalarType)
    → all_pairs p ts us ≡ true
    → IsIn t ts
    → IsIn u us
    → p t u ≡ true
all_pairs_sound p [] us t u h k m = elim k [ ]
all_pairs_sound p (s ∷ ts) us t u h (inl e) m =
    let row : every (p s) us ≡ true = unfold all_pairs in ground arith in
    rw e (every_sound (p s) us u row m)
all_pairs_sound p (s ∷ ts) us t u h (inr k) m =
    let rows : all_pairs p ts us ≡ true = unfold all_pairs in ground arith in
    all_pairs_sound p ts us t u rows k m

load_agrees : Target → ScalarType → ScalarType → Bool
load_agrees a t u =
    same_bool (beq ((backend_of a).load_mnemonic t) ((backend_of a).load_mnemonic u))
      (same_load t u)

store_agrees : Target → ScalarType → ScalarType → Bool
store_agrees a t u =
    same_bool (beq ((backend_of a).store_mnemonic t) ((backend_of a).store_mnemonic u))
      (same_store t u)

load_table : (a : Target) → all_pairs (load_agrees a) go_types go_types ≡ true
unfolding all_pairs load_agrees Amd64.load_mnemonic Arm64.load_mnemonic Riscv64.load_mnemonic
    Loong64.load_mnemonic Ppc64.load_mnemonic S390x.load_mnemonic
load_table amd64 = refl
load_table arm64 = refl
load_table riscv64 = refl
load_table loong64 = refl
load_table ppc64 = refl
load_table s390x = refl

store_table : (a : Target) → all_pairs (store_agrees a) go_types go_types ≡ true
unfolding all_pairs store_agrees Amd64.store_mnemonic Arm64.store_mnemonic Riscv64.store_mnemonic
    Loong64.store_mnemonic Ppc64.store_mnemonic S390x.store_mnemonic
store_table amd64 = refl
store_table arm64 = refl
store_table riscv64 = refl
store_table loong64 = refl
store_table ppc64 = refl
store_table s390x = refl

same_bool-eq : (a b : Bool) → same_bool a b ≡ true → a ≡ b
same_bool-eq true b h = sym h
same_bool-eq false true h = cc
same_bool-eq false false h = refl

tested_iff : (x y : List ℕ) (b : Bool) → beq x y ≡ b → x ≡ y ↔ (b ≡ true)
tested_iff x y b h = (λ e. sym h ∙ (beq_iff x y).1 e, λ e. (beq_iff x y).0 (h ∙ e))

load_iff :
    (a : Target) (t u : ScalarType)
    → load_agrees a t u ≡ true
    → (backend_of a).load_mnemonic t ≡ (backend_of a).load_mnemonic u ↔ (same_load t u ≡ true)
unfolding load_agrees
load_iff a t u h = tested_iff _ _ _ (same_bool-eq _ (same_load t u) h)

store_iff :
    (a : Target) (t u : ScalarType)
    → store_agrees a t u ≡ true
    → (backend_of a).store_mnemonic t ≡ (backend_of a).store_mnemonic u ↔ (same_store t u ≡ true)
unfolding store_agrees
store_iff a t u h = tested_iff _ _ _ (same_bool-eq _ (same_store t u) h)

IsGoType-IsIn : (t : ScalarType) → IsGoType t → IsIn t go_types
IsGoType-IsIn t (size, wide) = by_parts t.size t.float t.signed size wide

-- On each of the six targets and for all scalar types of Go: two types are loaded by the same
-- mnemonic exactly when they have one register file and one width and, for integers below 8 bytes,
-- one signedness; they are stored by the same mnemonic exactly when they have one register file
-- and one width.
pub mnemonics_iff :
    (a : Target) (t u : ScalarType)
    → IsGoType t
    → IsGoType u
    → ((backend_of a).load_mnemonic t ≡ (backend_of a).load_mnemonic u ↔ (same_load t u ≡ true))
      × ((backend_of a).store_mnemonic t ≡ (backend_of a).store_mnemonic u
          ↔ (same_store t u ≡ true))
mnemonics_iff a t u ht hu =
    let mt = IsGoType-IsIn t ht in
    let mu = IsGoType-IsIn u hu in
    (
      load_iff a t u (all_pairs_sound (load_agrees a) go_types go_types t u (load_table a) mt mu),
      store_iff a t u
          (all_pairs_sound (store_agrees a) go_types go_types t u (store_table a) mt mu),
    )
