-- ===== src/Amd64.antt =====
-- amd64/amd64.go: the move table, and the Builder's methods over it.
pub mod Machine
pub mod Feature
pub mod Vendor
use asmgen.Base.{ℕ, List, ◌==◌, if◌then◌else◌}
use asmgen.Base.Text.{Bytes, codes}
use asmgen.Base.Panics.{Result}
use asmgen.Abi.{ScalarType, Param, Signature}
use asmgen.Builder
use asmgen.Builder.{Backend, Builder}

unfoldable pub load_mnemonic : ScalarType → Bytes
load_mnemonic t =
    if t.float
    then (if t.size == 4 then codes "MOVSS" else codes "MOVSD")
    else if t.size == 1
    then (if t.signed then codes "MOVBQSX" else codes "MOVBQZX")
    else if t.size == 2
    then (if t.signed then codes "MOVWQSX" else codes "MOVWQZX")
    else if t.size == 4
    then (if t.signed then codes "MOVLQSX" else codes "MOVLQZX")
    else codes "MOVQ"

unfoldable pub store_mnemonic : ScalarType → Bytes
store_mnemonic t =
    if t.float
    then (if t.size == 4 then codes "MOVSS" else codes "MOVSD")
    else if t.size == 1
    then codes "MOVB"
    else if t.size == 2
    then codes "MOVW"
    else if t.size == 4
    then codes "MOVL"
    else codes "MOVQ"

abbrev pub backend : Backend
backend = record {
  package_name = codes "amd64";
  load_mnemonic = load_mnemonic;
  store_mnemonic = store_mnemonic;
}

unfoldable pub load_arg : Builder → Bytes → Bytes → Result Builder
unfolding Builder.load_arg load_mnemonic
load_arg = Builder.load_arg backend

unfoldable pub store_ret : Builder → Bytes → Bytes → Result Builder
unfolding Builder.store_ret store_mnemonic
store_ret = Builder.store_ret backend

unfoldable pub load_indirect : Builder → Bytes → ScalarType → Bytes → Builder
unfolding Builder.load_indirect load_mnemonic
load_indirect = Builder.load_indirect backend

unfoldable pub store_indirect : Builder → Bytes → Bytes → ScalarType → Builder
unfolding Builder.store_indirect store_mnemonic
store_indirect = Builder.store_indirect backend

-- The methods in which the packages do not differ.
unfoldable pub lookup : List Param → Bytes → Result Param
unfolding Builder.lookup
lookup = Builder.lookup backend

unfoldable pub new_func_flags : Bytes → Signature → ℕ → Bytes → Builder
unfolding Builder.new_func_flags
new_func_flags = Builder.new_func_flags

unfoldable pub new_func : Bytes → Signature → ℕ → Builder
unfolding new_func_flags
new_func name sig frame_size = new_func_flags name sig frame_size (codes "NOSPLIT")

unfoldable pub raw : Builder → Bytes → Builder
unfolding Builder.raw
raw = Builder.raw

unfoldable pub add_label : Builder → Bytes → Builder
unfolding Builder.add_label
add_label = Builder.add_label

unfoldable pub ret : Builder → Builder
unfolding raw
ret b = raw b (codes "RET")
