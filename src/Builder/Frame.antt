-- ===== src/Builder/Frame.antt =====
-- Where the emitted loads and stores reach: inside the frame, at an aligned offset.
use asmgen.Base.{
  ◌+◌, ◌^◌, ◌<◌, ◌≡◌, ◌⊎◌, refl, sym, subst, ◌∙◌, arith, none, some, List, [], ◌∷◌, ◌++◌, All,
  get_elem?, Option-cases, inl, inr,
}
use asmgen.Base.Text.{Bytes, tab}
use asmgen.Base.Panics.{ok, panic, Panic, ◌>>=◌}
use asmgen.Abi.{Param, Arg, find_param, layout_args}
use asmgen.Abi.Lookup.{IsFirstNamed, Unnamed, find_param_sound, find_param-Unnamed}
use asmgen.Abi.Spec.{IsScalarArg}
use asmgen.Abi.Refine.{room}
use asmgen.Abi.Spacing.{InFrame, args-InFrame, rets-InFrame}
use asmgen.Builder.{Backend, Builder, lookup, load_arg, store_ret, load_line, store_line, raw}

-- `lookup` finds what `Slot`'s loop finds, and panics where that finds nothing.
lookup-find_param :
    (be : Backend) (ps : List Param) (name : Bytes)
    → lookup be ps name ≡ elim (find_param name ps) [
      | some p ↦ ok p
      | none ↦ panic (Panic.unknown_param be.package_name name)
    ]
unfolding lookup find_param
lookup-find_param be [] name = refl
lookup-find_param be (p ∷ ps) name = ground (arith, lookup-find_param be ps name)

lookup_hit :
    (be : Backend) (ps : List Param) (name : Bytes) (p : Param)
    → find_param name ps ≡ some p
    → lookup be ps name ≡ ok p
lookup_hit be ps name p e = lookup-find_param be ps name ∙ rw e

lookup_miss :
    (be : Backend) (ps : List Param) (name : Bytes)
    → find_param name ps ≡ none
    → lookup be ps name ≡ panic (Panic.unknown_param be.package_name name)
lookup_miss be ps name e = lookup-find_param be ps name ∙ rw e

-- The builder with one more line.
abbrev pub Emits : Builder → Bytes → Builder → Type 0
Emits b line b' =
    (b'.sig ≡ b.sig) × (b'.fn ≡ record b.fn { body = b.fn.body ++ ((tab ++ line) ∷ []) })

pub raw-Emits : (b : Builder) (line : Bytes) → Emits b line (raw b line)
unfolding raw
raw-Emits b line = (refl, refl)

module _ (be : Backend) (b : Builder) (args rets : List Arg) where
  load_arg_by :
      (name reg : Bytes)
      → load_arg be b name reg ≡ (
          lookup be b.sig.args name >>= λ p.
          ok (raw b (load_line (be.load_mnemonic p.type) name p.offset reg)))
  unfolding load_arg
  load_arg_by name reg = refl

  store_ret_by :
      (reg name : Bytes)
      → store_ret be b reg name ≡ (
          lookup be b.sig.rets name >>= λ p.
          ok (raw b (store_line (be.store_mnemonic p.type) reg name p.offset)))
  unfolding store_ret
  store_ret_by reg name = refl

  -- For a signature that `LayoutArgs` made of scalars and aggregates of scalars with room below
  -- 2 ^ 60: `LoadArg` of a name that no argument slot has panics; any other appends one line, the
  -- move for the type of the first argument slot with the name, whose offset is a multiple of the
  -- size that is read and which ends within the frame. Nothing else of the builder changes.
  pub load_arg-InFrame :
      (name reg : Bytes)
      → b.sig ≡ layout_args args rets
      → All IsScalarArg args
      → All IsScalarArg rets
      → room args + room rets < 2 ^ 60
      → Unnamed name b.sig.args
          × (load_arg be b name reg ≡ panic (Panic.unknown_param be.package_name name))
        ⊎ ((p : Param) × (b' : Builder) × (load_arg be b name reg ≡ ok b')
            × IsFirstNamed name b.sig.args p
            × InFrame b.sig p
            × Emits b (load_line (be.load_mnemonic p.type) name p.offset reg) b')
  load_arg-InFrame name reg laid sized sized' fits =
      elim (Option-cases (find_param name b.sig.args)) [
        | inl miss ↦ inl (
          find_param-Unnamed name _ miss,
          load_arg_by name reg ∙ rw (lookup_miss be b.sig.args name miss),
        )
        | inr (p, hit) ↦
            let first = find_param_sound name _ p hit in
            inr (
              p,
              raw b (load_line (be.load_mnemonic p.type) name p.offset reg),
              load_arg_by name reg ∙ rw (lookup_hit be b.sig.args name p hit),
              first,
              subst (λ sig. InFrame sig p) (sym laid)
                  (args-InFrame args rets first.place p sized sized' fits
                    (subst (λ sig. get_elem? sig.args first.place ≡ some p) laid first.stands)),
              raw-Emits b _,
            )
      ]

  -- For a signature that `LayoutArgs` made of scalars and aggregates of scalars with room below
  -- 2 ^ 60: `StoreRet` to a name that no result slot has panics; any other appends one line, the
  -- move for the type of the first result slot with the name, whose offset is a multiple of the
  -- size that is written and which ends within the frame. Nothing else of the builder changes.
  pub store_ret-InFrame :
      (reg name : Bytes)
      → b.sig ≡ layout_args args rets
      → All IsScalarArg args
      → All IsScalarArg rets
      → room args + room rets < 2 ^ 60
      → Unnamed name b.sig.rets
          × (store_ret be b reg name ≡ panic (Panic.unknown_param be.package_name name))
        ⊎ ((p : Param) × (b' : Builder) × (store_ret be b reg name ≡ ok b')
            × IsFirstNamed name b.sig.rets p
            × InFrame b.sig p
            × Emits b (store_line (be.store_mnemonic p.type) reg name p.offset) b')
  store_ret-InFrame reg name laid sized sized' fits =
      elim (Option-cases (find_param name b.sig.rets)) [
        | inl miss ↦ inl (
          find_param-Unnamed name _ miss,
          store_ret_by reg name ∙ rw (lookup_miss be b.sig.rets name miss),
        )
        | inr (p, hit) ↦
            let first = find_param_sound name _ p hit in
            inr (
              p,
              raw b (store_line (be.store_mnemonic p.type) reg name p.offset),
              store_ret_by reg name ∙ rw (lookup_hit be b.sig.rets name p hit),
              first,
              subst (λ sig. InFrame sig p) (sym laid)
                  (rets-InFrame args rets first.place p sized sized' fits
                    (subst (λ sig. get_elem? sig.rets first.place ≡ some p) laid first.stands)),
              raw-Emits b _,
            )
      ]
