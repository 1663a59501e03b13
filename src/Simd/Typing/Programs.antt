-- ===== src/Simd/Typing/Programs.antt =====
-- The programs of examples/wasm validate.
use asmgen.Base.{
  ℕ, ◌≡◌, refl, subst, ap, get_elem?, All-get, ◌∙◌, Bool, true, false, List, [], ◌∷◌, ◌++◌, map,
  Option, some, none, beq, if◌then◌else◌, Bool-cases, inl, inr, All, ◌&◌,
}
use asmgen.Base.Text.{Bytes}
use asmgen.Wasm.{Param, i32}
use asmgen.Simd.Code.{Program}
use asmgen.Simd.Machine.{
  Value, Memory, State, Outcome, next, returned, trap, running, call, bind, zeros,
}
use asmgen.Simd.Typing.{
  Shape, word_shape, vec_shape, shape_of, Exit, falls, departs, begins_with, check,
}
use asmgen.Simd.Typing.Sound.{shapes}
use asmgen.Simd.Typing.Steps.{context}
use asmgen.Simd.Typing.Runs.{
  Fine, fine_next, fine_branch, fine_returned, fine_trap, fine_running, exec-Fine,
}
use asmgen.Simd.Isascii
use asmgen.Simd.Memchr
use asmgen.Simd.Utf8len
use asmgen.Simd.Matchlen
use asmgen.Simd.Toupper
use asmgen.Simd.Popcount
use asmgen.Simd.Hex
use asmgen.Simd.HexDecode
use asmgen.Simd.JsonClean
use asmgen.Simd.Indexany4
use asmgen.Simd.Adler32
use asmgen.Simd.Base64Encode
use asmgen.Simd.Base64Decode

abbrev shape_named : Bytes → Shape
shape_named t = if beq t i32 then word_shape else vec_shape

abbrev declared : List Param → List (Bytes × Shape)
declared [] = []
declared (p ∷ ps) = (p.name, shape_named p.type) ∷ declared ps

abbrev ends_with : List Shape → Option Exit → Bool
ends_with R none = false
ends_with R (some departs) = true
ends_with R (some (falls σ)) = begins_with R σ

-- The arguments fit the parameters.
unfoldable pub Suits : List Param → List Value → Type 0
Suits [] [] = Unit
Suits [] (v ∷ args) = ⊥
Suits (p ∷ ps) [] = ⊥
Suits (p ∷ ps) (v ∷ args) = (shape_of v ≡ shape_named p.type) × Suits ps args

abbrev pub IsValid : Program → Type 0
IsValid p =
    ends_with (map shape_named p.results)
      (check (declared p.params ++ declared p.locals) [] (map shape_named p.results) p.code [])
    ≡ true

-- What a call may come to: the results on top of the stack, a trap, or the end of its fuel.
pub data Behaves (R : List Shape) : Outcome → Type 0 where
  came_to_end : {t : State} → begins_with R (shapes t.stack) ≡ true → Behaves R (next t)
  came_back : {t : State} → begins_with R (shapes t.stack) ≡ true → Behaves R (returned t)
  trapped : Behaves R trap
  still_running : Behaves R running

context-bind :
    (ps : List Param) (args : List Value) → Suits ps args → context (bind ps args) ≡ declared ps
unfolding Suits
context-bind [] [] h = refl
context-bind [] (v ∷ args) h = absurd h
context-bind (p ∷ ps) [] h = absurd h
context-bind (p ∷ ps) (v ∷ args) h = rw (h.0, context-bind ps args h.1) refl

context-zeros : (ps : List Param) → context (zeros ps) ≡ declared ps
context-zeros [] = refl
context-zeros (p ∷ ps) = elim (Bool-cases (beq p.type i32)) [
  | inl e ↦ rw (e, context-zeros ps) refl
  | inr e ↦ rw (e, context-zeros ps) refl
]

context-append : (k l : List (Bytes × Value)) → context (k ++ l) ≡ context k ++ context l
context-append [] l = refl
context-append ((x, v) ∷ k) l = ap (λ c. (x, shape_of v) ∷ c) (context-append k l)

Fine-Behaves :
    (Γ : List (Bytes × Shape)) (R : List Shape) (e : Exit) (o : Outcome)
    → ends_with R (some e) ≡ true
    → Fine Γ [] R e o
    → Behaves R o
Fine-Behaves Γ R e o h (fine_next τ q s c) =
    came_to_end (rw s (subst (λ e'. ends_with R (some e') ≡ true) q h))
Fine-Behaves Γ R e o h (fine_branch l c) = cc
Fine-Behaves Γ R e o h (fine_returned b) = came_back b
Fine-Behaves Γ R e o h fine_trap = trapped
Fine-Behaves Γ R e o h fine_running = still_running

ends_some :
    (R : List Shape) (o : Option Exit)
    → ends_with R o ≡ true
    → (e : Exit) × (o ≡ some e) × (ends_with R (some e) ≡ true)
ends_some R none h = cc
ends_some R (some e) h = (e, refl, h)

-- A call of a valid program's function.
call-Behaves :
    (p : Program)
    → IsValid p
    → (n : ℕ) (m : Memory) (args : List Value) → Suits p.params args
    → Behaves (map shape_named p.results) (call n p m args)
call-Behaves p h n m args suits =
    let (e, checked, ends) = ends_some _ _ h in
    Fine-Behaves (declared p.params ++ declared p.locals) _ e _ ends (
      exec-Fine n p.code _ [] _ e _ checked (
        context-append (bind p.params args) (zeros p.locals)
        ∙ rw (context-bind p.params args suits, context-zeros p.locals) refl))

-- The programs, in the order of their names.
abbrev pub programs : List Program
programs =
    Adler32.program ∷ Base64Decode.program ∷ Base64Encode.program ∷ Hex.program ∷ HexDecode.program
    ∷ Indexany4.program ∷ Isascii.program ∷ JsonClean.program ∷ Matchlen.program ∷ Memchr.program
    ∷ Popcount.program ∷ Toupper.program ∷ Utf8len.program ∷ []

programs-IsValid : All IsValid programs
unfolding check
programs-IsValid =
    refl & refl & refl & refl & refl & refl & refl & refl & refl & refl & refl & refl & refl & tt

-- A call of one of the programs' functions with arguments of its parameters' types, in any memory and
-- with any fuel, ends with its results' types on top of the stack, traps, or uses up its fuel: no
-- instruction finds an operand of another type, and no branch is left over.
pub program-Behaves :
    (k : ℕ) (p : Program) (n : ℕ) (m : Memory) (args : List Value)
    → get_elem? programs k ≡ some p
    → Suits p.params args
    → Behaves (map shape_named p.results) (call n p m args)
program-Behaves k p n m args e suits =
    call-Behaves p (All-get IsValid programs k p programs-IsValid e) n m args suits
