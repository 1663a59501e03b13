-- ===== src/Amd64/Machine.antt =====
-- What amd64/feature.go's probes are written in: the few amd64 instructions in Plan 9 spelling, and
-- what the processor's manual says that they do. The processor is a parameter of the meaning.
use asmgen.Base.{
  ℕ, ◌+◌, ◌/◌, ◌%◌, ◌^◌, Bool, ◌&&◌, Option, none, some, List, [], ◌∷◌, ◌++◌, beq, ltb, ◌==◌,
  if◌then◌else◌, bit_and,
}
use asmgen.Base.Text.{Bytes, codes, parse_uint}
use asmgen.Builder.{Builder, raw, add_label, ret}

pub data Reg : Type 0 where
  ax bx cx dx : Reg

-- An immediate is kept as it is spelled, and so is a comment behind an instruction.
pub data Ins : Type 0 where
  movl : Bytes → Reg → Ins
  xorl : Reg → Ins
  andl : Bytes → Reg → Option Bytes → Ins
  testl : Bytes → Reg → Option Bytes → Ins
  cmpl : Reg → Bytes → Option Bytes → Ins
  cpuid : Ins
  xgetbv : Ins
  jl : Bytes → Ins
  jz : Bytes → Ins
  jne : Bytes → Ins
  set_ret : Bytes → Ins
  mark : Bytes → Ins
  return : Ins

abbrev pub reg_name : Reg → Bytes
reg_name ax = codes "AX"
reg_name bx = codes "BX"
reg_name cx = codes "CX"
reg_name dx = codes "DX"

abbrev commented : Option Bytes → Bytes
commented none = []
commented (some text) = codes " // " ++ text

-- The line of an instruction, without the tab.
abbrev pub spell : Ins → Bytes
spell (movl i r) = codes "MOVL $" ++ (i ++ (codes ", " ++ reg_name r))
spell (xorl r) = codes "XORL " ++ (reg_name r ++ (codes ", " ++ reg_name r))
spell (andl i r c) = codes "ANDL $" ++ (i ++ (codes ", " ++ (reg_name r ++ commented c)))
spell (testl i r c) = codes "TESTL $" ++ (i ++ (codes ", " ++ (reg_name r ++ commented c)))
spell (cmpl r i c) = codes "CMPL " ++ (reg_name r ++ (codes ", $" ++ (i ++ commented c)))
spell cpuid = codes "CPUID"
spell xgetbv = codes "XGETBV"
spell (jl l) = codes "JL " ++ l
spell (jz l) = codes "JZ " ++ l
spell (jne l) = codes "JNE " ++ l
spell (set_ret i) = codes "MOVB $" ++ (i ++ codes ", ret+0(FP)")
spell (mark l) = l ++ codes ":"
spell return = codes "RET"

-- The Builder call that emits it.
abbrev pub write_ins : Builder → Ins → Builder
write_ins b (mark l) = add_label b l
write_ins b return = ret b
write_ins b i = raw b (spell i)

unfoldable pub write_code : Builder → List Ins → Builder
unfolding raw add_label ret
write_code b [] = b
write_code b (i ∷ code) = write_code (write_ins b i) code

hex_digits : Bytes → Option Bytes
hex_digits [] = none
hex_digits (c ∷ []) = none
hex_digits (c ∷ d ∷ s) = if (c == b'0') && (d == b'x') then some s else none

-- The value that an immediate spells, in decimal or behind "0x".
unfoldable pub imm : Bytes → Option ℕ
unfolding hex_digits
imm s = elim (hex_digits s) [ some t ↦ parse_uint 16 t | none ↦ parse_uint 10 s ]

pub record Quad : Type 0 where
  pub eax : ℕ
  pub ebx : ℕ
  pub ecx : ℕ
  pub edx : ℕ

-- A processor under an operating system: what CPUID answers at leaf 0 and at leaf 1, where the
-- subleaf does not count, and at any other leaf, and the control register XCR0.
pub record Cpu : Type 0 where
  pub leaf0 : Quad
  pub leaf1 : Quad
  pub leaf : ℕ → ℕ → Quad
  pub xcr0 : ℕ

abbrev pub answer : Cpu → ℕ → ℕ → Quad
answer c l sub = if l == 0 then c.leaf0 else if l == 1 then c.leaf1 else c.leaf l sub

pub record State : Type 0 where
  pub ax_value : ℕ
  pub bx_value : ℕ
  pub cx_value : ℕ
  pub dx_value : ℕ
  pub zero_flag : Bool
  pub less : Bool
  pub slot : Option ℕ

abbrev pub get : State → Reg → ℕ
get s ax = s.ax_value
get s bx = s.bx_value
get s cx = s.cx_value
get s dx = s.dx_value

abbrev pub put : State → Reg → ℕ → State
put s ax v = record s { ax_value = v }
put s bx v = record s { bx_value = v }
put s cx v = record s { cx_value = v }
put s dx v = record s { dx_value = v }

-- a < b for the signed values of 32-bit patterns.
abbrev pub lt32 : ℕ → ℕ → Bool
lt32 a b = ltb ((a + 2 ^ 31) % 2 ^ 32) ((b + 2 ^ 31) % 2 ^ 32)

abbrev pub compared : State → ℕ → ℕ → State
compared s a b = record s { zero_flag = a == b; less = lt32 a b }

-- Bit n of x.
abbrev pub bit : ℕ → ℕ → Bool
bit n x = (x / 2 ^ n % 2) == 1

-- `none` is a fault: an immediate that is no number, or XGETBV where CPUID does not report OSXSAVE
-- (bit 27 of ECX at leaf 1) or for another register than XCR0.
abbrev pub step : Cpu → Ins → State → Option State
step c (movl i r) s = elim (imm i) [ some v ↦ some (put s r v) | none ↦ none ]
step c (xorl r) s = some (compared (put s r 0) 0 0)
step c (andl i r _) s = elim (imm i) [
  | some v ↦ some (compared (put s r (bit_and (get s r) v)) (bit_and (get s r) v) 0)
  | none ↦ none
]
step c (testl i r _) s = elim (imm i) [
  | some v ↦ some (compared s (bit_and (get s r) v) 0)
  | none ↦ none
]
step c (cmpl r i _) s = elim (imm i) [ some v ↦ some (compared s (get s r) v) | none ↦ none ]
step c cpuid s =
    let q = answer c s.ax_value s.cx_value in
    some (record s { ax_value = q.eax; bx_value = q.ebx; cx_value = q.ecx; dx_value = q.edx })
step c xgetbv s =
    if bit 27 c.leaf1.ecx && (s.cx_value == 0)
    then some (record s { ax_value = c.xcr0 % 2 ^ 32; dx_value = c.xcr0 / 2 ^ 32 % 2 ^ 32 })
    else none
step c (set_ret i) s = elim (imm i) [ some v ↦ some (record s { slot = some v }) | none ↦ none ]
step c i s = some s

pub data Outcome : Type 0 where
  -- RET, with the byte that the result slot holds
  returned : Option ℕ → Outcome
  fault : Outcome
  -- the code ended with no RET, or a label was not found ahead
  lost : Outcome

abbrev pub go_on : (State → Outcome) → Option State → Outcome
go_on k none = fault
go_on k (some s) = k s

-- Labels are looked for ahead: `target` is the label that a jump has taken, and instructions
-- are passed over until it comes.
unfoldable pub run : Cpu → List Ins → Option Bytes → State → Outcome
run c [] target s = lost
run c (mark l ∷ code) none s = run c code none s
run c (mark l ∷ code) (some t) s = run c code (if beq l t then none else some t) s
run c (return ∷ code) none s = returned s.slot
run c (jl l ∷ code) none s = run c code (if s.less then some l else none) s
run c (jz l ∷ code) none s = run c code (if s.zero_flag then some l else none) s
run c (jne l ∷ code) none s = run c code (if s.zero_flag then none else some l) s
run c (i ∷ code) none s = go_on (λ s'. run c code none s') (step c i s)
run c (i ∷ code) (some t) s = run c code (some t) s
