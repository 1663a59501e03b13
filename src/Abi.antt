-- ===== src/Abi.antt =====
-- abi/abi.go: Go's ABI0 stack layout, shared by the six architectures.
-- An `int` is its 64-bit pattern, so that `to-1` and `off+size` wrap as they do in Go.
pub mod Align
pub mod Spec
pub mod Refine
pub mod Spacing
pub mod Lookup
pub mod Arrays
pub mod EmptyStruct
pub mod Arity
pub mod Words
use asmgen.Base.{
  ℕ, zero, suc, ◌+◌, ◌≡◌, refl, Bool, true, false, Option, none, some, List, [], ◌∷◌, ◌++◌, arith,
  if◌then◌else◌, add64, sub64, and_not, lt_int, beq,
}
use asmgen.Base.Text.{Bytes, codes, itoa}
use asmgen.Base.Panics.{Result, ok, panic, Panic, ◌>>=◌}

abbrev pub word_size : ℕ
word_size = 8

-- abi.Type: `size` in bytes; `signed` matters to loads below 8 bytes only.
pub record ScalarType : Type 0 where
  pub size : ℕ
  pub float : Bool
  pub signed : Bool

abbrev signed_int : ℕ → ScalarType
signed_int n = record { size = n; float = false; signed = true }

abbrev unsigned_int : ℕ → ScalarType
unsigned_int n = record { size = n; float = false; signed = false }

abbrev pub int8 : ScalarType
int8 = signed_int 1

abbrev pub int16 : ScalarType
int16 = signed_int 2

abbrev pub int32 : ScalarType
int32 = signed_int 4

abbrev pub int64 : ScalarType
int64 = signed_int 8

abbrev pub uint8 : ScalarType
uint8 = unsigned_int 1

abbrev pub uint16 : ScalarType
uint16 = unsigned_int 2

abbrev pub uint32 : ScalarType
uint32 = unsigned_int 4

abbrev pub uint64 : ScalarType
uint64 = unsigned_int 8

abbrev pub ptr : ScalarType
ptr = unsigned_int 8

abbrev pub float32 : ScalarType
float32 = record { size = 4; float = true; signed = false }

abbrev pub float64 : ScalarType
float64 = record { size = 8; float = true; signed = false }

-- One laid-out slot.
pub record Param : Type 0 where
  pub name : Bytes
  pub type : ScalarType
  pub offset : ℕ

pub record Signature : Type 0 where
  pub args : List Param
  pub rets : List Param
  pub args_size : ℕ

-- `(n + to - 1) &^ (to - 1)`
unfoldable pub align : ℕ → ℕ → ℕ
align n to = and_not (sub64 (add64 n to) 1) (sub64 to 1)

pub record Field : Type 0 where
  pub name : Bytes
  pub type : ScalarType

-- A scalar has a nil `Fields`, which is `none`; an aggregate has a slice, which may be empty.
pub record Arg : Type 0 where
  pub name : Bytes
  pub type : ScalarType
  pub fields : Option (List Field)

-- The zero value of abi.Type, which an aggregate leaves in its `type`.
abbrev pub no_type : ScalarType
no_type = record { size = 0; float = false; signed = false }

unfoldable pub scalar : Bytes → ScalarType → Arg
scalar name t = record { name = name; type = t; fields = none }

-- The variadic `fields` is nil when no field is given.
unfoldable pub struct : Bytes → List Field → Arg
struct name [] = record { name = name; type = no_type; fields = none }
struct name (f ∷ fs) = record { name = name; type = no_type; fields = some (f ∷ fs) }

abbrev pub header_field : Bytes → ScalarType → Field
header_field n t = record { name = n; type = t }

unfoldable pub slice : Bytes → Arg
slice name = record {
  name = name;
  type = no_type;
  fields = some (
      header_field (codes "base") ptr
      ∷ header_field (codes "len") int64
      ∷ header_field (codes "cap") int64
      ∷ []);
}

unfoldable pub string : Bytes → Arg
string name = record {
  name = name;
  type = no_type;
  fields = some (header_field (codes "base") ptr ∷ header_field (codes "len") int64 ∷ []);
}

-- `for i := range fields`, from element i on.
pub array_fields : ScalarType → ℕ → ℕ → List Field
array_fields elem i zero = []
array_fields elem i (suc n) = record { name = itoa i; type = elem } ∷ array_fields elem (i + 1) n

-- `make` gives a slice that is not nil even for n = 0. (It panics on a negative n, which this n
-- is not.)
unfoldable pub array : Bytes → ScalarType → ℕ → Arg
unfolding array_fields itoa
array name elem n = record { name = name; type = no_type; fields = some (array_fields elem 0 n) }

-- The loop of `aggregateAlign`.
pub widest : ℕ → List Field → ℕ
widest a [] = a
widest a (f ∷ fs) = widest (if lt_int a f.type.size then f.type.size else a) fs

unfoldable pub aggregate_align : List Field → ℕ
unfolding widest
aggregate_align fs = widest 1 fs

-- The loop over the fields of one aggregate that stands at `off`; it returns the last `fieldOff`.
pub place_fields : Bytes → ℕ → ℕ → List Field → List Param × ℕ
place_fields arg off field_off [] = ([], field_off)
place_fields arg off field_off (f ∷ fs) =
    let at = align field_off f.type.size in
    let rest = place_fields arg off (add64 at f.type.size) fs in
    (
      record { name = arg ++ codes "_" ++ f.name; type = f.type; offset = add64 off at } ∷ rest.0,
      rest.1,
    )

-- One round of `place`: the slots of an argument and the offset behind it.
pub place_scalar : Bytes → ScalarType → ℕ → List Param × ℕ
place_scalar name t off =
    let at = align off t.size in
    (record { name = name; type = t; offset = at } ∷ [], add64 at t.size)

pub place_aggregate : Bytes → List Field → ℕ → List Param × ℕ
unfolding place_fields
place_aggregate name fs off =
    let al = aggregate_align fs in
    let at = align off al in
    let placed = place_fields name at 0 fs in (placed.0, add64 at (align placed.1 al))

pub place_by : Bytes → ScalarType → Option (List Field) → ℕ → List Param × ℕ
place_by name t none off = place_scalar name t off
place_by name t (some fs) off = place_aggregate name fs off

-- The closure `place`, with the captured `off` passed in and out.
pub place : ℕ → List Arg → List Param × ℕ
place off [] = ([], off)
place off (a ∷ later) =
    let here = place_by a.name a.type a.fields off in
    let rest = place here.1 later in (here.0 ++ rest.0, rest.1)

unfoldable pub layout_args : List Arg → List Arg → Signature
unfolding place place_by place_scalar place_aggregate place_fields aggregate_align align
layout_args args rets =
    let a = place 0 args in
    let r = place (align a.1 word_size) rets in record { args = a.0; rets = r.0; args_size = r.1 }

-- `args[i] = Scalar(argNames[i], t)` for each type; a missing name is an index out of range.
pub scalars : List Bytes → List ScalarType → Result (List Arg)
scalars names [] = ok []
scalars [] (t ∷ ts) = panic Panic.index_out_of_range
scalars (n ∷ names) (t ∷ ts) = do rest ← scalars names ts; ok (scalar n t ∷ rest)

unfoldable pub layout :
    List Bytes → List ScalarType → List Bytes → List ScalarType → Result Signature
unfolding scalars layout_args scalar
layout arg_names arg_types ret_names ret_types = do
  args ← scalars arg_names arg_types
  rets ← scalars ret_names ret_types
  ok (layout_args args rets)

-- A loop over the slots that returns the first one with the name.
unfoldable pub find_param : Bytes → List Param → Option Param
find_param name [] = none
find_param name (p ∷ ps) = if beq p.name name then some p else find_param name ps

-- `(Param{}, false)` is `none`.
unfoldable pub slot : Signature → Bytes → Option Param
unfolding find_param
slot s name = elim (find_param name s.args) [ some p ↦ some p | none ↦ find_param name s.rets ]
