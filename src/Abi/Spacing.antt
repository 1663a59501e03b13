-- ===== src/Abi/Spacing.antt =====
-- abi/abi.go, `LayoutArgs`: where the slots stand to one another and in the frame.
use native.Mathlib.Nat.{div-add-mod, mul-mod_left, add_assoc}
use asmgen.Base.{
  ℕ, zero, suc, ◌+◌, ◌*◌, ◌/◌, ◌%◌, ◌^◌, ◌≤◌, ◌<◌, ◌≡◌, inl, inr, subst, arith, some, List, [], ◌∷◌,
  ◌++◌, All, All-tabulate, get_elem?,
}
use asmgen.Base.Text.{Bytes}
use asmgen.Abi.{Param, Signature, Field, Arg, layout_args, word_size}
use asmgen.Abi.Align.{IsScalarSize}
use asmgen.Abi.Spec.{FieldsLaid, Laid, FieldsScalar, IsScalarArg}
use asmgen.Abi.Refine.{room, scalar_width, layout_args-IsPlaced}

-- The slots stand one behind the other between `lo` and `hi`, each at a multiple of its size.
abbrev pub Spaced : ℕ → List Param → ℕ → Type 0
Spaced lo [] hi = lo ≤ hi
Spaced lo (p ∷ ps) hi =
    (lo ≤ p.offset) × (p.offset % p.type.size ≡ 0) × Spaced (p.offset + p.type.size) ps hi

-- A multiple of a scalar size is a multiple of each smaller one.
coarser : (b s a : ℕ) → IsScalarSize s → IsScalarSize a → s ≤ a → b % a ≡ 0 → b % s ≡ 0
coarser b s a (inl e) ha le eb = rw e (omega arith)
coarser b s a hs (inl e) le eb = ground arith
coarser b s a hs (inr (inl e)) le eb = ground arith
coarser b s a hs (inr (inr (inl e))) le eb = ground arith
coarser b s a hs (inr (inr (inr e))) le eb = ground arith

mod_sum : (b o s : ℕ) → b % s ≡ 0 → o % s ≡ 0 → (b + o) % s ≡ 0
mod_sum b o s eb eo =
    let whole : b + o ≡ (b / s + o / s) * s = omega (arith, div-add-mod b s, div-add-mod o s) in
    rw whole (mul-mod_left _ s)

sum_aligned :
    (b o s a : ℕ)
    → IsScalarSize s
    → IsScalarSize a
    → s ≤ a
    → b % a ≡ 0
    → o % s ≡ 0
    → (b + o) % s ≡ 0
sum_aligned b o s a hs ha le eb eo = mod_sum b o s (coarser b s a hs ha le eb) eo

Spaced-le : (lo : ℕ) (ps : List Param) (hi : ℕ) → Spaced lo ps hi → lo ≤ hi
Spaced-le lo [] hi h = h
Spaced-le lo (p ∷ ps) hi (le, _, rest) =
    omega (arith, Spaced-le (p.offset + p.type.size) ps hi rest)

Spaced-append :
    (lo mid mid' hi : ℕ) (ps qs : List Param)
    → Spaced lo ps mid
    → mid ≤ mid'
    → Spaced mid' qs hi
    → Spaced lo (ps ++ qs) hi
Spaced-append lo mid mid' hi [] [] h le h' = omega arith
Spaced-append lo mid mid' hi [] (q ∷ qs) h le (le', aligned, rest) = (omega arith, aligned, rest)
Spaced-append lo mid mid' hi (p ∷ ps) qs (le'', aligned, rest) le h' =
    (le'', aligned, Spaced-append (p.offset + p.type.size) mid mid' hi ps qs rest le h')

FieldsLaid-Spaced :
    {arg : Bytes} {base at : ℕ} {fs : List Field} {ps : List Param} {end : ℕ} (al : ℕ)
    → FieldsLaid arg base at fs ps end
    → IsScalarSize al
    → base % al ≡ 0
    → All (λ f. f.type.size ≤ al) fs
    → All (λ f. IsScalarSize f.type.size) fs
    → Spaced (base + at) ps (base + end)
FieldsLaid-Spaced al (FieldsLaid.done e) sized aligned bounds sizes = omega arith
FieldsLaid-Spaced {base = b} al (FieldsLaid.next {o = o} {f = f} (ge, multiple, _) rest) sized
      aligned bounds sizes =
    (
      omega arith,
      sum_aligned b o f.type.size al sizes.0 sized bounds.0 aligned multiple,
      rw (add_assoc b o f.type.size) (FieldsLaid-Spaced al rest sized aligned bounds.1 sizes.1),
    )

Spaced-below :
    (lo lo' : ℕ) (ps : List Param) (hi : ℕ) → lo ≤ lo' → Spaced lo' ps hi → Spaced lo ps hi
Spaced-below lo lo' [] hi le h = omega arith
Spaced-below lo lo' (p ∷ ps) hi le (ge, aligned, rest) = (omega arith, aligned, rest)

Spaced-above : (lo hi hi' : ℕ) (ps : List Param) → Spaced lo ps hi → hi ≤ hi' → Spaced lo ps hi'
Spaced-above lo hi hi' [] h le = omega arith
Spaced-above lo hi hi' (p ∷ ps) (ge, aligned, rest) le =
    (ge, aligned, Spaced-above (p.offset + p.type.size) hi hi' ps rest le)

Laid-Spaced :
    {at : ℕ} {args : List Arg} {ps : List Param} {end : ℕ}
    → Laid at args ps end
    → All IsScalarArg args
    → Spaced at ps end
Laid-Spaced (Laid.done e) sizes = omega arith
Laid-Spaced (Laid.scalar nil (ge, multiple, _) rest) sizes =
    (ge, multiple, Laid-Spaced rest sizes.1)
Laid-Spaced
      (Laid.aggregate {al = al} {o = o} {inner = inner} {size = size} {a = a} {fs = fs} {ps = ps}
        {qs = qs} given wide
        (ge, multiple, _)
        inside
        (ge', _, _)
        rest)
      sizes =
    let inner_sizes = subst (λ fields. FieldsScalar fields a.type.size) given sizes.0 in
    let sized = scalar_width al fs wide.attained inner_sizes in
    let spaced = FieldsLaid-Spaced al inside sized multiple wide.bounds inner_sizes in
    Spaced-append _ (o + inner) (o + size) _ ps qs
      (Spaced-below _ (o + 0) ps (o + inner) (omega arith) spaced) (omega arith)
      (Laid-Spaced rest sizes.1)

Spaced-get :
    (lo : ℕ) (ps : List Param) (hi j : ℕ) (q : Param)
    → Spaced lo ps hi
    → get_elem? ps j ≡ some q
    → (lo ≤ q.offset) × (q.offset % q.type.size ≡ 0) × (q.offset + q.type.size ≤ hi)
Spaced-get lo [] hi j q spaced e = cc
Spaced-get lo (p ∷ ps) hi zero q (ge, aligned, rest) e =
    let same : p ≡ q = cc in
    subst (λ r. (lo ≤ r.offset) × (r.offset % r.type.size ≡ 0) × (r.offset + r.type.size ≤ hi)) same
      (ge, aligned, Spaced-le _ ps hi rest)
Spaced-get lo (p ∷ ps) hi (suc j) q (ge, aligned, rest) e =
    let (ge', aligned', le) = Spaced-get (p.offset + p.type.size) ps hi j q rest e in
    (omega arith, aligned', le)

-- Of two slots the later one begins at or behind the end of the earlier one.
Spaced-disjoint :
    (lo : ℕ) (ps : List Param) (hi i j : ℕ) (p q : Param)
    → Spaced lo ps hi
    → i < j
    → get_elem? ps i ≡ some p
    → get_elem? ps j ≡ some q
    → p.offset + p.type.size ≤ q.offset
Spaced-disjoint lo [] hi i j p q spaced lt e e' = cc
Spaced-disjoint lo (r ∷ ps) hi i zero p q spaced lt e e' = absurd (omega arith)
Spaced-disjoint lo (r ∷ ps) hi zero (suc j) p q (ge, aligned, rest) lt e e' =
    let same : r ≡ p = cc in
    subst (λ s. s.offset + s.type.size ≤ q.offset) same (Spaced-get _ ps hi j q rest e').0
Spaced-disjoint lo (r ∷ ps) hi (suc i) (suc j) p q (ge, aligned, rest) lt e e' =
    Spaced-disjoint (r.offset + r.type.size) ps hi i j p q rest (omega arith) e e'

layout_args-Spaced :
    (args rets : List Arg)
    → All IsScalarArg args
    → All IsScalarArg rets
    → room args + room rets < 2 ^ 60
    → (start : ℕ) × (start % word_size ≡ 0)
      × Spaced 0 (layout_args args rets).args start
      × Spaced start (layout_args args rets).rets (layout_args args rets).args_size
layout_args-Spaced args rets sized sized' fits =
    let layout = (layout_args-IsPlaced args rets sized sized' fits).0 in
    let args_spaced = Laid-Spaced layout.args_laid sized in
    let sig = layout_args args rets in
    (
      layout.rets_start,
      layout.word_boundary.1,
      Spaced-above 0 layout.args_end layout.rets_start sig.args args_spaced layout.word_boundary.0,
      Laid-Spaced layout.rets_laid sized',
    )

-- A slot is at a multiple of its size and ends within the frame.
abbrev pub InFrame : Signature → Param → Type 0
InFrame sig p = (p.offset % p.type.size ≡ 0) × (p.offset + p.type.size ≤ sig.args_size)

pub args-InFrame :
    (args rets : List Arg) (i : ℕ) (p : Param)
    → All IsScalarArg args
    → All IsScalarArg rets
    → room args + room rets < 2 ^ 60
    → get_elem? (layout_args args rets).args i ≡ some p
    → InFrame (layout_args args rets) p
args-InFrame args rets i p sized sized' fits e =
    let (start, _, args_spaced, rets_spaced) = layout_args-Spaced args rets sized sized' fits in
    let (_, aligned, le) = Spaced-get 0 _ start i p args_spaced e in
    (aligned, omega (arith, Spaced-le start _ _ rets_spaced))

pub rets-InFrame :
    (args rets : List Arg) (i : ℕ) (p : Param)
    → All IsScalarArg args
    → All IsScalarArg rets
    → room args + room rets < 2 ^ 60
    → get_elem? (layout_args args rets).rets i ≡ some p
    → InFrame (layout_args args rets) p
rets-InFrame args rets i p sized sized' fits e =
    let (start, _, _, rets_spaced) = layout_args-Spaced args rets sized sized' fits in
    let (_, aligned, le) = Spaced-get start _ _ i p rets_spaced e in (aligned, le)

-- For scalars and aggregates of scalars with room below 2 ^ 60: every slot of the arguments and
-- then the results is at a multiple of its size, ends within `args_size`, and ends before each
-- later slot begins.
pub layout_args_disjoint :
    (args rets : List Arg) (i j : ℕ) (p q : Param)
    → All IsScalarArg args
    → All IsScalarArg rets
    → room args + room rets < 2 ^ 60
    → i < j
    → get_elem? ((layout_args args rets).args ++ (layout_args args rets).rets) i ≡ some p
    → get_elem? ((layout_args args rets).args ++ (layout_args args rets).rets) j ≡ some q
    → (p.offset % p.type.size ≡ 0)
      × (q.offset % q.type.size ≡ 0)
      × (p.offset + p.type.size ≤ q.offset)
      × (q.offset + q.type.size ≤ (layout_args args rets).args_size)
layout_args_disjoint args rets i j p q sized sized' fits lt e e' =
    let sig = layout_args args rets in
    let (start, _, args_spaced, rets_spaced) = layout_args-Spaced args rets sized sized' fits in
    let all =
      Spaced-append 0 start start sig.args_size sig.args sig.rets args_spaced (omega arith)
        rets_spaced in
    let here = Spaced-get 0 (sig.args ++ sig.rets) sig.args_size i p all e in
    let there = Spaced-get 0 (sig.args ++ sig.rets) sig.args_size j q all e' in
    (
      here.1,
      there.1,
      Spaced-disjoint 0 (sig.args ++ sig.rets) sig.args_size i j p q all lt e e',
      there.2,
    )

-- For scalars and aggregates of scalars with room below 2 ^ 60: every result begins at or behind a word boundary, which lies at or
-- behind the end of every argument.
pub layout_args_results :
    (args rets : List Arg)
    → All IsScalarArg args
    → All IsScalarArg rets
    → room args + room rets < 2 ^ 60
    → (start : ℕ) × (start % word_size ≡ 0)
      × All (λ (p : Param). p.offset + p.type.size ≤ start) (layout_args args rets).args
      × All (λ (p : Param). start ≤ p.offset) (layout_args args rets).rets
layout_args_results args rets sized sized' fits =
    let (start, word, args_spaced, rets_spaced) = layout_args-Spaced args rets sized sized' fits in
    (
      start,
      word,
      All-tabulate (λ (p : Param). p.offset + p.type.size ≤ start) _
          (λ i p e. (Spaced-get 0 _ start i p args_spaced e).2),
      All-tabulate (λ (p : Param). start ≤ p.offset) _
          (λ i p e. (Spaced-get start _ _ i p rets_spaced e).0),
    )
