-- ===== src/Builder.antt =====
-- The Builder that the six architecture packages share up to their move tables (arm64/arm64.go,
-- amd64/amd64.go, riscv64/riscv64.go, loong64/loong64.go, ppc64/ppc64.go, s390x/s390x.go): each
-- package spells the same methods over its own `loadMnemonic` and `storeMnemonic`.
pub mod Frame
use asmgen.Base.{ℕ, ◌≡◌, refl, List, [], ◌∷◌, ◌++◌, Option, none, some, beq, if◌then◌else◌}
use asmgen.Base.Text.{Bytes, codes, fmt_int}
use asmgen.Base.Panics.{Result, ok, panic, Panic, ◌>>=◌}
use asmgen.Abi.{Param, ScalarType, Signature}
use asmgen.Emit.{Function, new_function, insn, label}

-- What differs between the packages.
pub record Backend : Type 0 where
  pub package_name : Bytes
  pub load_mnemonic : ScalarType → Bytes
  pub store_mnemonic : ScalarType → Bytes

pub record Builder : Type 0 where
  pub fn : Function
  pub sig : Signature

unfoldable pub new_func_flags : Bytes → Signature → ℕ → Bytes → Builder
unfolding new_function
new_func_flags name sig frame_size flags = record {
  fn = new_function name flags frame_size sig.args_size;
  sig = sig;
}

unfoldable pub new_func : Bytes → Signature → ℕ → Builder
unfolding new_func_flags
new_func name sig frame_size = new_func_flags name sig frame_size (codes "NOSPLIT")

-- Every method that emits one line goes through this.
unfoldable pub raw : Builder → Bytes → Builder
unfolding insn
raw b line = record b { fn = insn b.fn line }

unfoldable pub add_label : Builder → Bytes → Builder
unfolding label
add_label b name = record b { fn = label b.fn name }

unfoldable pub ret : Builder → Builder
unfolding raw
ret b = raw b (codes "RET")

-- "MNEMONIC name+offset(FP), reg" and "MNEMONIC reg, name+offset(FP)".
pub load_line : Bytes → Bytes → ℕ → Bytes → Bytes
load_line mnemonic name offset reg =
    mnemonic ++ (codes " " ++ (name ++ (codes "+" ++ (fmt_int offset ++ (codes "(FP), " ++ reg)))))

pub store_line : Bytes → Bytes → Bytes → ℕ → Bytes
store_line mnemonic reg name offset =
    mnemonic
    ++ (codes " "
        ++ (reg ++ (codes ", " ++ (name ++ (codes "+" ++ (fmt_int offset ++ codes "(FP)"))))))

module _ (be : Backend) where
  -- The loop of `lookup`; a name that no slot has is a panic.
  unfoldable pub lookup : List Param → Bytes → Result Param
  lookup [] name = panic (Panic.unknown_param be.package_name name)
  lookup (p ∷ ps) name = if beq p.name name then ok p else lookup ps name

  unfoldable pub load_arg : Builder → Bytes → Bytes → Result Builder
  unfolding lookup load_line raw fmt_int
  load_arg b name reg = do
    p ← lookup b.sig.args name
    ok (raw b (load_line (be.load_mnemonic p.type) name p.offset reg))

  unfoldable pub store_ret : Builder → Bytes → Bytes → Result Builder
  unfolding lookup store_line raw fmt_int
  store_ret b reg name = do
    p ← lookup b.sig.rets name
    ok (raw b (store_line (be.store_mnemonic p.type) reg name p.offset))

  unfoldable pub load_indirect : Builder → Bytes → ScalarType → Bytes → Builder
  unfolding raw
  load_indirect b ptr_reg t reg =
      raw b (be.load_mnemonic t ++ (codes " (" ++ (ptr_reg ++ (codes "), " ++ reg))))

  unfoldable pub store_indirect : Builder → Bytes → Bytes → ScalarType → Builder
  unfolding raw
  store_indirect b reg ptr_reg t =
      raw b (be.store_mnemonic t ++ (codes " " ++ (reg ++ (codes ", (" ++ (ptr_reg ++ codes ")")))))
