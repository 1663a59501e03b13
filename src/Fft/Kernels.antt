-- ===== src/Fft/Kernels.antt =====
-- fft/amd64/kernels.go: the tables' layouts, and the helpers of the kernels' builders.
pub mod Slots
use asmgen.Base.{
  ℕ, zero, suc, ◌*◌, ◌+◌, Bool, true, false, ◌||◌, List, [], ◌∷◌, ◌++◌, Option, none, some, beq,
  if◌then◌else◌,
}
use asmgen.Base.Int.{ℤ, is_int}
use asmgen.Base.Text.{Bytes, codes, fmt_int}
use asmgen.Base.Panics.{Result, ok, panic, Panic}

-- Byte offsets of rows.
pub record Consts : Type 0 where
  pub sign : ℤ
  pub half : ℤ
  pub sin120 : ℤ
  pub c51 : ℤ
  pub c52 : ℤ
  pub s51 : ℤ
  pub s52 : ℤ
  pub h : ℤ
  pub add_sub : ℤ
  pub r16c1 : ℤ
  pub r16s1 : ℤ
  pub r16nh : ℤ
  pub r16nc1 : ℤ
  pub r16ss1 : ℤ
  pub r16ssh : ℤ
  pub r16ssc1 : ℤ
  pub r16ssn1 : ℤ
  pub r9c1 : ℤ
  pub r9s1 : ℤ
  pub r9c2 : ℤ
  pub r9s2 : ℤ
  pub r9c4 : ℤ
  pub r9s4 : ℤ
  pub r32 : ℤ

pub record SplitConsts : Type 0 where
  pub h : ℤ
  pub neg : ℤ
  pub half : ℤ
  pub sin120 : ℤ
  pub c51 : ℤ
  pub c52 : ℤ
  pub s51 : ℤ
  pub s52 : ℤ
  pub r32 : ℤ

pub record Kernels : Type 0 where
  pub k : Consts
  pub split_k : SplitConsts
  pub fma : Bool

-- slices.Contains
contains : List ℤ → ℤ → Bool
contains [] r = false
contains (x ∷ xs) r = is_int x r || contains xs r

-- The value is what the builder goes on with.
pub check : Bytes → ℤ → List ℤ → Result ℤ
unfolding contains
check builder r radices =
    if contains radices r then ok r else panic (Panic.bad_radix builder r radices)

-- slices.Index
unfoldable pub index_of : List Bytes → Bytes → Option ℕ
index_of [] name = none
index_of (n ∷ names) name =
    let rest : Option ℕ = elim (index_of names name) [ none ↦ none | some i ↦ some (suc i) ] in
    if beq n name then some 0 else rest

-- `name+8*i(FP)`
abbrev pub slot_text : Bytes → ℕ → Bytes
slot_text name offset = name ++ (codes "+" ++ (fmt_int offset ++ codes "(FP)"))

unfoldable pub fp : List Bytes → Bytes → Result Bytes
unfolding index_of
fp names name = elim (index_of names name) [
  | none ↦ panic (Panic.no_argument name names)
  | some i ↦ ok (slot_text name (8 * i))
]
