-- ===== src/Abi/Spec.antt =====
-- The ABI0 layout as a relation, with no machine arithmetic: each slot stands at the least aligned
-- offset from the end of the one before it, and an aggregate is laid out as a Go struct is.
use asmgen.Base.{ℕ, ◌+◌, ◌≤◌, ◌≡◌, ◌⊎◌, Option, none, some, List, [], ◌∷◌, ◌++◌, All}
use asmgen.Base.Text.{Bytes, codes}
use asmgen.Abi.{Param, Signature, Field, Arg, word_size}
use asmgen.Abi.Align.{IsLeastAligned, IsScalarSize}

-- `a` is the size of the widest field, or 1 when there is no wider one.
abbrev pub HasSize : ℕ → List Field → Type 0
HasSize a [] = ⊥
HasSize a (f ∷ fs) = (f.type.size ≡ a) ⊎ HasSize a fs

pub record IsWidest (a : ℕ) (fs : List Field) : Type 0 where
  pub bounds : All (λ f. f.type.size ≤ a) fs
  pub attained : (a ≡ 1) ⊎ HasSize a fs

-- The fields of the aggregate `arg` that begins at `base`, from the relative offset `at` to `end`.
pub data FieldsLaid (arg : Bytes) (base : ℕ) : ℕ → List Field → List Param → ℕ → Type 0 where
  done : {at end : ℕ} → at ≡ end → FieldsLaid arg base at [] [] end
  next :
      {at end o : ℕ} {f : Field} {fs : List Field} {ps : List Param}
      → IsLeastAligned at f.type.size o
      → FieldsLaid arg base (o + f.type.size) fs ps end
      → FieldsLaid arg base at
          (f ∷ fs)
          (record { name = arg ++ codes "_" ++ f.name; type = f.type; offset = base + o } ∷ ps)
          end

-- The slots of a list of arguments from the offset `at` to `end`.
pub data Laid : ℕ → List Arg → List Param → ℕ → Type 0 where
  done : {at end : ℕ} → at ≡ end → Laid at [] [] end
  scalar :
      {at end o : ℕ} {a : Arg} {later : List Arg} {ps : List Param}
      → a.fields ≡ none
      → IsLeastAligned at a.type.size o
      → Laid (o + a.type.size) later ps end
      → Laid at (a ∷ later) (record { name = a.name; type = a.type; offset = o } ∷ ps) end
  aggregate :
      {at end al o inner size : ℕ} {a : Arg} {fs : List Field} {later : List Arg}
      {ps qs : List Param}
      → a.fields ≡ some fs
      → IsWidest al fs
      → IsLeastAligned at al o
      → FieldsLaid a.name o 0 fs ps inner
      → IsLeastAligned inner al size
      → Laid (o + size) later qs end
      → Laid at (a ∷ later) (ps ++ qs) end

-- The end of the frame by the documentation: the end of the last slot, not rounded.
abbrev pub documented_end : List Arg → ℕ → ℕ → ℕ
documented_end [] args_end rets_end = args_end
documented_end (_ ∷ _) args_end rets_end = rets_end

-- The whole signature as it is documented: the arguments from the offset 0, the results from the
-- next word boundary, and the size is the end of the last slot with no further rounding.
pub record IsLayout (args rets : List Arg) (sig : Signature) : Type 0 where
  pub args_end : ℕ
  pub rets_start : ℕ
  pub rets_end : ℕ
  pub args_laid : Laid 0 args sig.args args_end
  pub word_boundary : IsLeastAligned args_end word_size rets_start
  pub rets_laid : Laid rets_start rets sig.rets rets_end
  pub not_rounded : sig.args_size ≡ documented_end rets args_end rets_end

-- The size that is computed where the documented one is `e`: the same when there is a result, and
-- the next word boundary when there is none.
abbrev pub SizeFrom : List Arg → ℕ → ℕ → Type 0
SizeFrom [] e size = IsLeastAligned e word_size size
SizeFrom (_ ∷ _) e size = size ≡ e

-- The places of the slots alone: the results begin at a word boundary behind the arguments, and
-- the size is where the results end (with no result, where they would begin).
pub record IsPlaced (args rets : List Arg) (sig : Signature) : Type 0 where
  pub args_end : ℕ
  pub rets_start : ℕ
  pub args_laid : Laid 0 args sig.args args_end
  pub word_boundary : IsLeastAligned args_end word_size rets_start
  pub rets_laid : Laid rets_start rets sig.rets sig.args_size

-- What the layout is defined for: the sizes of Go's scalars.
abbrev pub FieldsScalar : Option (List Field) → ℕ → Type 0
FieldsScalar none size = IsScalarSize size
FieldsScalar (some fs) size = All (λ f. IsScalarSize f.type.size) fs

abbrev pub IsScalarArg : Arg → Type 0
IsScalarArg a = FieldsScalar a.fields a.type.size
