-- ===== src/Abi/Arity.antt =====
-- `Layout`: parallel lists of names and types.
use asmgen.Base.{◌≡◌, refl, ◌∙◌, arith, List, [], ◌∷◌, length, leb, ◌&&◌, if◌then◌else◌}
use asmgen.Base.Text.{Bytes}
use asmgen.Base.Panics.{ok, panic, Panic, ◌>>=◌}
use asmgen.Abi.{Arg, ScalarType, scalar, scalars, layout, layout_args}

-- The scalars that the two lists name, as far as both reach.
abbrev pub zip_scalars : List Bytes → List ScalarType → List Arg
zip_scalars names [] = []
zip_scalars [] (t ∷ ts) = []
zip_scalars (n ∷ names) (t ∷ ts) = scalar n t ∷ zip_scalars names ts

scalars-zip_scalars :
    (names : List Bytes) (ts : List ScalarType)
    → scalars names ts ≡ (
        if leb (length ts) (length names)
        then ok (zip_scalars names ts)
        else panic Panic.index_out_of_range)
unfolding scalars
scalars-zip_scalars names [] = ground arith
scalars-zip_scalars [] (t ∷ ts) = ground arith
scalars-zip_scalars (n ∷ names) (t ∷ ts) = ground (arith, scalars-zip_scalars names ts)

layout_by :
    (an : List Bytes) (at : List ScalarType) (rn : List Bytes) (rt : List ScalarType)
    → layout an at rn rt
      ≡ (scalars an at >>= λ args. scalars rn rt >>= λ rets. ok (layout_args args rets))
unfolding layout
layout_by an at rn rt = refl

-- `Layout` lays out one scalar for each type, ignores further names, and panics on an index out of
-- range exactly when there are fewer names than types.
pub layout_arity :
    (arg_names : List Bytes) (arg_types : List ScalarType) (ret_names : List Bytes)
    (ret_types : List ScalarType)
    → layout arg_names arg_types ret_names ret_types ≡ (
        if leb (length arg_types) (length arg_names) && leb (length ret_types) (length ret_names)
        then ok (layout_args (zip_scalars arg_names arg_types) (zip_scalars ret_names ret_types))
        else panic Panic.index_out_of_range)
layout_arity an at rn rt = layout_by an at rn rt ∙ simp scalars-zip_scalars (ground arith)
