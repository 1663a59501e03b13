-- ===== src/Abi/Refine.antt =====
-- `LayoutArgs` implements the relation of Abi/Spec, and stays far below the limits of an `int`.
use asmgen.Base.{
  ℕ, ◌+◌, ◌*◌, ◌^◌, ◌≤◌, ◌<◌, ◌≡◌, ◌⊎◌, inl, inr, refl, sym, subst, ◌∙◌, arith, Option, none, some,
  List, [], ◌∷◌, ◌++◌, All, length, true, false, lt_int, Bool-cases, add64,
}
use asmgen.Base.Text.{Bytes}
use asmgen.Abi.{
  Param, Signature, Field, Arg, align, widest, aggregate_align, place_fields, place_scalar,
  place_aggregate, place_by, place, layout_args, word_size,
}
use asmgen.Abi.Align.{IsLeastAligned, IsScalarSize, align_scalar}
use asmgen.Abi.Spec.{
  HasSize, IsWidest, FieldsLaid, Laid, IsLayout, IsPlaced, SizeFrom, FieldsScalar, IsScalarArg,
}

-- An upper bound for the bytes that an argument takes, with its padding.
abbrev pub room_fields : Option (List Field) → ℕ
room_fields none = 16
room_fields (some fs) = 32 + 16 * length fs

abbrev pub room : List Arg → ℕ
room [] = 0
room (a ∷ later) = room_fields a.fields + room later

place_fields_laid :
    (arg : Bytes) (off at : ℕ) (fs : List Field)
    → All (λ f. IsScalarSize f.type.size) fs
    → at + 16 * length fs < 2 ^ 62
    → off < 2 ^ 62
    → FieldsLaid arg off at fs (place_fields arg off at fs).0 (place_fields arg off at fs).1
      × ((place_fields arg off at fs).1 ≤ at + 16 * length fs)
unfolding place_fields
place_fields_laid arg off at [] sizes fits hoff = (FieldsLaid.done refl, omega arith)
place_fields_laid arg off at (f ∷ fs) (size, sizes) fits hoff =
    let (least, below) = align_scalar at f.type.size size (omega arith) in
    let o = align at f.type.size in
    let here : add64 off o ≡ off + o = omega arith in
    let behind : add64 o f.type.size ≡ o + f.type.size = omega arith in
    let (laid, bound) = place_fields_laid arg off (o + f.type.size) fs sizes (omega arith) hoff in
    rw (here, behind) (FieldsLaid.next least laid, omega arith)

-- The signed comparison of `int` on the sizes of scalars.
lt_int-lt : (a b : ℕ) → a ≤ 8 → b ≤ 8 → lt_int a b ≡ true → a < b
lt_int-lt a b ha hb h = ground arith

lt_int-le : (a b : ℕ) → a ≤ 8 → b ≤ 8 → lt_int a b ≡ false → b ≤ a
lt_int-le a b ha hb h = ground arith

widest_wider :
    (a : ℕ) (f : Field) (fs : List Field)
    → lt_int a f.type.size ≡ true
    → widest a (f ∷ fs) ≡ widest f.type.size fs
unfolding widest
widest_wider a f fs e = rw e

widest_kept :
    (a : ℕ) (f : Field) (fs : List Field)
    → lt_int a f.type.size ≡ false
    → widest a (f ∷ fs) ≡ widest a fs
unfolding widest
widest_kept a f fs e = rw e

-- `w` is the largest of `a` and the sizes of `fs`.
abbrev IsLargest : ℕ → List Field → ℕ → Type 0
IsLargest a fs w = (a ≤ w) × All (λ f. f.type.size ≤ w) fs × ((w ≡ a) ⊎ HasSize w fs) × (w ≤ 8)

IsLargest-taken :
    (a : ℕ) (f : Field) (fs : List Field) (w : ℕ)
    → a ≤ f.type.size
    → IsLargest f.type.size fs w
    → IsLargest a (f ∷ fs) w
IsLargest-taken a f fs w le (ge, all, inl e, small) =
    (omega arith, (ge, all), inr (inl (sym e)), small)
IsLargest-taken a f fs w le (ge, all, inr h, small) = (omega arith, (ge, all), inr (inr h), small)

IsLargest-kept :
    (a : ℕ) (f : Field) (fs : List Field) (w : ℕ)
    → f.type.size ≤ a
    → IsLargest a fs w
    → IsLargest a (f ∷ fs) w
IsLargest-kept a f fs w le (ge, all, inl e, small) = (ge, (omega arith, all), inl e, small)
IsLargest-kept a f fs w le (ge, all, inr h, small) = (ge, (omega arith, all), inr (inr h), small)

widest-IsLargest :
    (a : ℕ) (fs : List Field) (w : ℕ)
    → a ≤ 8
    → All (λ f. IsScalarSize f.type.size) fs
    → widest a fs ≡ w
    → IsLargest a fs w
widest-IsLargest a [] w ha sizes e =
    let same : a ≡ w = unfold widest in e in (omega arith, tt, inl (sym same), omega arith)
widest-IsLargest a (f ∷ fs) w ha (size, sizes) e =
    let hs : f.type.size ≤ 8 = omega arith in
    elim (Bool-cases (lt_int a f.type.size)) [
      | inl t ↦
          IsLargest-taken a f fs w (omega (arith, lt_int-lt a f.type.size ha hs t))
            (widest-IsLargest f.type.size fs w hs sizes (sym (widest_wider a f fs t) ∙ e))
      | inr t ↦
          IsLargest-kept a f fs w (lt_int-le a f.type.size ha hs t)
            (widest-IsLargest a fs w ha sizes (sym (widest_kept a f fs t) ∙ e))
    ]

pub scalar_width :
    (a : ℕ) (fs : List Field)
    → (a ≡ 1) ⊎ HasSize a fs
    → All (λ f. IsScalarSize f.type.size) fs
    → IsScalarSize a
scalar_width a fs (inl e) sizes = inl e
scalar_width a [] (inr h) sizes = absurd h
scalar_width a (f ∷ fs) (inr (inl e)) (size, sizes) = omega arith
scalar_width a (f ∷ fs) (inr (inr h)) (size, sizes) = scalar_width a fs (inr h) sizes

pub aggregate_align-IsWidest :
    (fs : List Field)
    → All (λ f. IsScalarSize f.type.size) fs
    → IsWidest (aggregate_align fs) fs × IsScalarSize (aggregate_align fs)
unfolding aggregate_align
aggregate_align-IsWidest fs sizes =
    let (_, all, found, _) = widest-IsLargest 1 fs _ (omega arith) sizes refl in
    (record { bounds = all; attained = found }, scalar_width _ fs found sizes)

-- What is to be shown of the arguments `later` from every offset that leaves them room.
abbrev LaysOut : List Arg → Type 0
LaysOut later =
    (off : ℕ)
    → off + room later < 2 ^ 61
    → Laid off later (place off later).0 (place off later).1
      × ((place off later).1 ≤ off + room later)

module _ (off : ℕ) (a : Arg) (later : List Arg) (lays : LaysOut later) where
  place_scalar_laid :
      a.fields ≡ none
      → IsScalarSize a.type.size
      → off + 16 + room later < 2 ^ 61
      → (h : List Param × ℕ) → h ≡ place_scalar a.name a.type off
      → Laid off (a ∷ later) (h.0 ++ (place h.1 later).0) (place h.1 later).1
        × ((place h.1 later).1 ≤ off + (16 + room later))
  unfolding place_scalar
  place_scalar_laid nil size fits h e =
      let (least, below) = align_scalar off a.type.size size (omega arith) in
      let o = align off a.type.size in
      let behind : add64 o a.type.size ≡ o + a.type.size = omega arith in
      let (laid, bound) = lays (o + a.type.size) (omega arith) in
      rw (e, behind) (Laid.scalar nil least laid, omega arith)

  place_aggregate_laid :
      (fs : List Field)
      → a.fields ≡ some fs
      → All (λ f. IsScalarSize f.type.size) fs
      → off + (32 + 16 * length fs) + room later < 2 ^ 61
      → (h : List Param × ℕ) → h ≡ place_aggregate a.name fs off
      → Laid off (a ∷ later) (h.0 ++ (place h.1 later).0) (place h.1 later).1
        × ((place h.1 later).1 ≤ off + (32 + 16 * length fs + room later))
  unfolding place_aggregate
  place_aggregate_laid fs given sizes fits h e =
      let al = aggregate_align fs in
      let (wide, size) = aggregate_align-IsWidest fs sizes in
      let (least, below) = align_scalar off al size (omega arith) in
      let o = align off al in
      let (inside, bound) = place_fields_laid a.name o 0 fs sizes (omega arith) (omega arith) in
      let inner = (place_fields a.name o 0 fs).1 in
      let (last, padded) = align_scalar inner al size (omega arith) in
      let behind : add64 o (align inner al) ≡ o + align inner al = omega arith in
      let (laid, end) = lays (o + align inner al) (omega arith) in
      rw (e, behind) (Laid.aggregate given wide least inside last laid, omega arith)

place_cons :
    (off : ℕ) (a : Arg) (later : List Arg) (o : Option (List Field))
    → a.fields ≡ o
    → place off (a ∷ later)
      ≡ (let h = place_by a.name a.type o off in (h.0 ++ (place h.1 later).0, (place h.1 later).1))
unfolding place
place_cons off a later o e = rw (← e)

place_laid_by :
    (off : ℕ) (a : Arg) (later : List Arg) (o : Option (List Field))
    → a.fields ≡ o
    → FieldsScalar o a.type.size
    → off + (room_fields o + room later) < 2 ^ 61
    → LaysOut later
    → Laid off (a ∷ later) (place off (a ∷ later)).0 (place off (a ∷ later)).1
      × ((place off (a ∷ later)).1 ≤ off + (room_fields o + room later))
unfolding place_by
place_laid_by off a later none e size fits lays =
    rw (place_cons off a later none e)
      (place_scalar_laid off a later lays e size (omega arith) _ refl)
place_laid_by off a later (some fs) e sizes fits lays =
    rw (place_cons off a later (some fs) e)
      (place_aggregate_laid off a later lays fs e sizes (omega arith) _ refl)

place_laid : (args : List Arg) → All IsScalarArg args → LaysOut args
place_laid [] sizes off fits = unfold place in (Laid.done refl, omega arith)
place_laid (a ∷ later) (here, rest) off fits =
    place_laid_by off a later a.fields refl here fits (place_laid later rest)

Laid-none : {at end : ℕ} {ps : List Param} → Laid at [] ps end → at ≡ end
Laid-none (Laid.done e) = e

pub layout_args-IsPlaced :
    (args rets : List Arg)
    → All IsScalarArg args
    → All IsScalarArg rets
    → room args + room rets < 2 ^ 60
    → IsPlaced args rets (layout_args args rets)
      × ((layout_args args rets).args_size ≤ room args + 8 + room rets)
unfolding layout_args
layout_args-IsPlaced args rets sized sized' fits =
    let (laid, bound) = place_laid args sized 0 (omega arith) in
    let end = (place 0 args).1 in
    let (boundary, near) = align_scalar end word_size (inr (inr (inr refl))) (omega arith) in
    let (laid', bound') = place_laid rets sized' (align end word_size) (omega arith) in
    (
      record {
        args_end = end;
        rets_start = align end word_size;
        args_laid = laid;
        word_boundary = boundary;
        rets_laid = laid';
      },
      omega arith,
    )

-- Behind the slots of no result nothing is added: the size is the word boundary itself.
IsPlaced-IsLayout :
    (args rets : List Arg) (sig : Signature)
    → IsPlaced args rets sig
    → (e : ℕ) × IsLayout args rets (record sig { args_size = e }) × SizeFrom rets e sig.args_size
IsPlaced-IsLayout args [] sig placed = (
  placed.args_end,
  record {
    args_end = placed.args_end;
    rets_start = placed.rets_start;
    rets_end = sig.args_size;
    args_laid = placed.args_laid;
    word_boundary = placed.word_boundary;
    rets_laid = placed.rets_laid;
    not_rounded = refl;
  },
  subst (IsLeastAligned placed.args_end word_size) (Laid-none placed.rets_laid)
      placed.word_boundary,
)
IsPlaced-IsLayout args (r ∷ rets) sig placed = (
  sig.args_size,
  record {
    args_end = placed.args_end;
    rets_start = placed.rets_start;
    rets_end = sig.args_size;
    args_laid = placed.args_laid;
    word_boundary = placed.word_boundary;
    rets_laid = placed.rets_laid;
    not_rounded = refl;
  },
  refl,
)

-- For scalars and aggregates of scalars the slots are where the documented layout has them, at the
-- least offsets that the alignments allow. With a result the size is the documented one, the end
-- of the last result; without one it is not the end of the last argument, as documented, but the
-- next word boundary. It stays within the room of the slots. (The slots take less than 2 ^ 60
-- bytes, so that every sum is an `int`.)
pub layout_args-IsLayout :
    (args rets : List Arg)
    → All IsScalarArg args
    → All IsScalarArg rets
    → room args + room rets < 2 ^ 60
    → ((e : ℕ) × IsLayout args rets (record (layout_args args rets) { args_size = e })
        × SizeFrom rets e (layout_args args rets).args_size)
      × ((layout_args args rets).args_size ≤ room args + 8 + room rets)
layout_args-IsLayout args rets sized sized' fits =
    let (placed, bound) = layout_args-IsPlaced args rets sized sized' fits in
    (IsPlaced-IsLayout args rets (layout_args args rets) placed, bound)
