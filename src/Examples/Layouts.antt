-- ===== src/Examples/Layouts.antt =====
-- abi/abi.go and the Builder: the theorems at the signature of
-- `func f(a uint8, s struct{x int32; y float64}, b int16) (r int64)`.
use asmgen.Base.{
  ℕ, ◌+◌, ◌*◌, ◌%◌, ◌^◌, ◌≤◌, ◌<◌, ◌≡◌, ◌↔◌, ◌⊎◌, inl, inr, refl, arith, true, List, [], ◌∷◌, ◌++◌,
  some, none, get_elem?, All,
}
use asmgen.Base.Text.{Bytes, codes, itoa, tab}
use asmgen.Base.Panics.{ok, panic, Panic}
use asmgen.Abi.{
  Param, Field, Arg, int16, int32, int64, uint8, float32, float64, no_type, scalar, struct, array,
  layout_args, slot, word_size,
}
use asmgen.Abi.Spec.{IsLayout, SizeFrom, IsScalarArg}
use asmgen.Abi.Refine.{room, layout_args-IsLayout}
use asmgen.Abi.Spacing.{InFrame, layout_args_disjoint, layout_args_results}
use asmgen.Abi.Lookup.{IsFirstNamed, Unnamed, slot_first}
use asmgen.Abi.Arrays.{slot-array}
use asmgen.Abi.EmptyStruct.{empty_struct_resets}
use asmgen.Builder.{Builder, new_func, load_arg, store_ret, load_line, store_line}
use asmgen.Builder.Frame.{Emits, load_arg-InFrame, store_ret-InFrame}
use asmgen.Emit.{Function, new_function, insn, header, function_string}
use asmgen.Emit.Lines.{lines, lines-function_string}
use asmgen.Amd64
use asmgen.Moves.{Target, backend_of, same_load, same_store, mnemonics_iff}

abbrev a : Bytes
a = codes "a"

abbrev r : Bytes
r = codes "r"

abbrev fields : List Field
fields =
    record { name = codes "x"; type = int32 } ∷ record { name = codes "y"; type = float64 } ∷ []

abbrev args : List Arg
args = scalar a uint8 ∷ struct (codes "s") fields ∷ scalar (codes "b") int16 ∷ []

abbrev rets : List Arg
rets = scalar r int64 ∷ []

args-All : All IsScalarArg args
unfolding scalar struct
args-All = (inl refl, ((inr (inr (inl refl)), (inr (inr (inr refl)), tt)), (inr (inl refl), tt)))

rets-All : All IsScalarArg rets
unfolding scalar
rets-All = (inr (inr (inr refl)), tt)

room_lem : room args + room rets < 2 ^ 60
unfolding scalar struct
room_lem = omega arith

layout_args-IsLayout_example :
    ((e : ℕ) × IsLayout args rets (record (layout_args args rets) { args_size = e })
      × SizeFrom rets e (layout_args args rets).args_size)
    × ((layout_args args rets).args_size ≤ room args + 8 + room rets)
layout_args-IsLayout_example = layout_args-IsLayout args rets args-All rets-All room_lem

-- `func(a int16)`: the documented size is 2.
one_int16 : (layout_args (scalar a int16 ∷ []) []).args_size ≡ 8
unfolding layout_args scalar
one_int16 = refl

layout_args_results_example :
    (start : ℕ) × (start % word_size ≡ 0)
    × All (λ (p : Param). p.offset + p.type.size ≤ start) (layout_args args rets).args
    × All (λ (p : Param). start ≤ p.offset) (layout_args args rets).rets
layout_args_results_example = layout_args_results args rets args-All rets-All room_lem

-- The second field of the struct and the result.
abbrev y : Param
y = record { name = codes "s_y"; type = float64; offset = 16 }

abbrev res : Param
res = record { name = r; type = int64; offset = 32 }

abbrev slots : List Param
slots = (layout_args args rets).args ++ (layout_args args rets).rets

third : get_elem? slots 2 ≡ some y
unfolding layout_args scalar struct
third = refl

fifth : get_elem? slots 4 ≡ some res
unfolding layout_args scalar struct
fifth = refl

layout_args_disjoint_example :
    (16 % 8 ≡ 0) × (32 % 8 ≡ 0) × (16 + 8 ≤ 32) × (32 + 8 ≤ (layout_args args rets).args_size)
layout_args_disjoint_example =
    layout_args_disjoint args rets 2 4 y res args-All rets-All room_lem (omega arith) third fifth

slot_first_example :
    ((p : Param) × (slot (layout_args args rets) r ≡ some p)
      × IsFirstNamed r ((layout_args args rets).args ++ (layout_args args rets).rets) p)
    ⊎ ((slot (layout_args args rets) r ≡ none)
        × Unnamed r ((layout_args args rets).args ++ (layout_args args rets).rets))
slot_first_example = slot_first (layout_args args rets) r

slot-array_example :
    slot (layout_args (array a float32 5 ∷ []) []) (a ++ codes "_" ++ itoa 3)
    ≡ some (record { name = a ++ codes "_" ++ itoa 3; type = float32; offset = 3 * 4 })
slot-array_example = slot-array a float32 5 3 (inr (inr (inl refl))) (omega arith) (omega arith)

empty_struct_resets_example :
    (layout_args (args ++ (struct (codes "e") [] ∷ scalar (codes "c") int32 ∷ [])) []).args
    ≡ (layout_args args []).args
      ++ (record { name = codes "e"; type = no_type; offset = 0 }
          ∷ record { name = codes "c"; type = int32; offset = 0 }
          ∷ [])
empty_struct_resets_example =
    empty_struct_resets args (codes "e") (codes "c") int32 (inr (inr (inl refl)))

abbrev builder : Builder
builder = new_func (codes "f") (layout_args args rets) 0

builder-sig : builder.sig ≡ layout_args args rets
unfolding new_func
builder-sig = refl

load_arg-InFrame_example :
    Unnamed a builder.sig.args
      × (load_arg Amd64.backend builder a (codes "AX")
          ≡ panic (Panic.unknown_param (codes "amd64") a))
    ⊎ ((p : Param) × (b' : Builder) × (load_arg Amd64.backend builder a (codes "AX") ≡ ok b')
        × IsFirstNamed a builder.sig.args p
        × InFrame builder.sig p
        × Emits builder (load_line (Amd64.load_mnemonic p.type) a p.offset (codes "AX")) b')
load_arg-InFrame_example =
    load_arg-InFrame Amd64.backend builder args rets a (codes "AX") builder-sig args-All rets-All
      room_lem

store_ret-InFrame_example :
    Unnamed r builder.sig.rets
      × (store_ret Amd64.backend builder (codes "AX") r
          ≡ panic (Panic.unknown_param (codes "amd64") r))
    ⊎ ((p : Param) × (b' : Builder) × (store_ret Amd64.backend builder (codes "AX") r ≡ ok b')
        × IsFirstNamed r builder.sig.rets p
        × InFrame builder.sig p
        × Emits builder (store_line (Amd64.store_mnemonic p.type) (codes "AX") r p.offset) b')
store_ret-InFrame_example =
    store_ret-InFrame Amd64.backend builder args rets (codes "AX") r builder-sig args-All rets-All
      room_lem

mnemonics_iff_example :
    ((backend_of Target.amd64).load_mnemonic int32 ≡ (backend_of Target.amd64).load_mnemonic float32
      ↔ (same_load int32 float32 ≡ true))
    × ((backend_of Target.amd64).store_mnemonic int32
          ≡ (backend_of Target.amd64).store_mnemonic float32
        ↔ (same_store int32 float32 ≡ true))
mnemonics_iff_example =
    mnemonics_iff Target.amd64 int32 float32 (inr (inr (inl refl)), λ e. cc)
      (inr (inr (inl refl)), λ e. omega arith)

abbrev function : Function
function = insn (insn (new_function a (codes "NOSPLIT") 0 16) (codes "NOP")) (codes "RET")

lines-function_string_example :
    lines (function_string function)
    ≡ header function ∷ (tab ++ codes "NOP") ∷ (tab ++ codes "RET") ∷ []
unfolding insn new_function
lines-function_string_example =
    lines-function_string function (omega arith) (omega arith) (omega arith)
