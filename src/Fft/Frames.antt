-- ===== src/Fft/Frames.antt =====
-- fft/amd64/frames.go: the functions that run two or three passes on a buffer in their own frame.
pub mod Fits
pub mod Trampoline
use asmgen.Base.{
  ℕ, zero, suc, length, ◌+◌, ◌*◌, List, [], ◌∷◌, ◌++◌, Bool, true, false, if◌then◌else◌, add64,
  sub64, and_not,
}
use asmgen.Base.Int.{ℤ, pos, negsuc}
use asmgen.Base.Text.{Bytes, codes, newline, fmt_int, fmt_ℤ, itoa}
use asmgen.Base.Panics.{Result, ok, panic, Panic, ◌>>=◌}
use asmgen.Abi.{Signature, ScalarType, layout, ptr, int64, uint64}
use asmgen.Emit.{File, Function, add, middle_dot}
use asmgen.Builder.{Builder, new_func, new_func_flags, raw, add_label, ret}
use asmgen.Amd64.{load_arg}
use asmgen.Gap.{has_prefix}

-- One call of a Builder method.
pub data Call : Type 0 where
  text : Bytes → Call
  arg : Bytes → Bytes → Call
  mark : Bytes → Call

abbrev emit_call : Builder → Call → Result Builder
emit_call b (Call.text line) = ok (raw b line)
emit_call b (Call.arg name reg) = load_arg b name reg
emit_call b (Call.mark name) = ok (add_label b name)

unfoldable pub emit_calls : Builder → List Call → Result Builder
unfolding raw load_arg add_label
emit_calls b [] = ok b
emit_calls b (c ∷ calls) = do b' ← emit_call b c; emit_calls b' calls

-- Where the closures `buf` begin: 63 bytes above the place from which on the buffer may lie.
abbrev pub two_pass_place : ℕ
two_pass_place = 111

abbrev pub three_pass_place : ℕ
three_pass_place = 119

-- The closures `buf`: the last 64-byte boundary at or below a place in the frame.
buf : ℕ → Bytes → List Call
unfolding itoa
buf place reg =
    Call.text (codes "LEAQ " ++ (itoa place ++ (codes "(SP), " ++ reg)))
    ∷ Call.text (codes "ANDQ $-64, " ++ reg)
    ∷ []

-- `(n + 7) &^ 7`
abbrev pub round8 : ℕ → ℕ
round8 n = and_not (add64 n 7) 7

abbrev pub two_pass_frame : ℕ → ℕ
two_pass_frame max = round8 (48 + 63 + 16 * max)

-- LoadArg into a register and a move of it to a slot of the callee.
abbrev pass_on : Bytes → Bytes → Bytes → List Call
pass_on name reg slot =
    Call.arg name reg
    ∷ Call.text (codes "MOVQ " ++ (reg ++ (codes ", " ++ (slot ++ codes "(SP)"))))
    ∷ []

two_pass_calls : List Call
unfolding buf
two_pass_calls =
    Call.text (codes "NO_LOCAL_POINTERS")
    ∷ (pass_on (codes "cc") (codes "AX") (codes "0")
        ++ (buf two_pass_place (codes "AX")
            ++ (Call.text (codes "MOVQ AX, 8(SP)")
                ∷ (pass_on (codes "tw") (codes "AX") (codes "16")
                    ++ (pass_on (codes "k0") (codes "AX") (codes "24")
                        ++ (pass_on (codes "ido") (codes "AX") (codes "32")
                            ++ (Call.text (codes "MOVQ $1, 40(SP)")
                                ∷ Call.arg (codes "pass") (codes "AX")
                                ∷ Call.text (codes "CALL AX")
                                ∷ (buf two_pass_place (codes "AX")
                                    ++ (Call.text (codes "MOVQ AX, 0(SP)")
                                        ∷ (pass_on (codes "ch") (codes "AX") (codes "8")
                                            ++ (pass_on (codes "k1") (codes "AX") (codes "16")
                                                ++ (pass_on (codes "l1") (codes "AX") (codes "24")
                                                    ++ (Call.arg (codes "last") (codes "AX")
                                                        ∷ Call.text (codes "CALL AX")
                                                        ∷ [])))))))))))))

abbrev two_pass_names : List Bytes
two_pass_names =
    codes "cc"
    ∷ codes "ch"
    ∷ codes "tw"
    ∷ codes "k0"
    ∷ codes "k1"
    ∷ codes "ido"
    ∷ codes "l1"
    ∷ codes "pass"
    ∷ codes "last"
    ∷ []

abbrev two_pass_types : List ScalarType
two_pass_types = ptr ∷ ptr ∷ ptr ∷ ptr ∷ ptr ∷ int64 ∷ int64 ∷ uint64 ∷ uint64 ∷ []

-- A function that the calls make, in the file.
unfoldable pub add_calls : File → Bytes → List Bytes → List ScalarType → ℕ → List Call → Result File
unfolding layout new_func_flags emit_calls ret add
add_calls f name names types frame calls = do
  sig ← layout names types [] []
  b ← emit_calls (new_func_flags name sig frame []) calls
  ok (add f (ret b).fn)

unfoldable pub two_pass : File → Bytes → ℕ → Result File
unfolding add_calls two_pass_calls
two_pass f name max =
    add_calls f name two_pass_names two_pass_types (two_pass_frame max) two_pass_calls

pub record Addr : Type 0 where
  pub sym : Bytes
  pub slot : ℤ

-- `8*e.Slot`
abbrev eight_times : ℤ → ℤ
eight_times (pos n) = pos (8 * n)
eight_times (negsuc n) = negsuc (8 * n + 7)

-- The loop over the entries.
addr_calls : List Addr → List Call
unfolding fmt_ℤ
addr_calls [] = []
addr_calls (e ∷ entries) =
    Call.text (codes "LEAQ " ++ (middle_dot ++ (e.sym ++ codes "(SB), AX")))
    ∷ Call.text (codes "MOVQ AX, " ++ (fmt_ℤ (eight_times e.slot) ++ codes "(DI)"))
    ∷ addr_calls entries

unfoldable pub addr_table : File → Bytes → List Addr → Result File
unfolding layout new_func emit_calls addr_calls ret add
addr_table f name entries = do
  sig ← layout (codes "t" ∷ []) (ptr ∷ []) [] []
  b ← emit_calls (new_func name sig 0) (Call.arg (codes "t") (codes "DI") ∷ addr_calls entries)
  ok (add f (ret b).fn)

abbrev textflag : Bytes
textflag = codes "#include \"textflag.h\"" ++ newline

-- What strings.Replace with a count of 1 leaves: `skip` bytes of the match are still passed over.
drop_bytes : ℕ → Bytes → Bytes
drop_bytes zero s = s
drop_bytes (suc n) [] = []
drop_bytes (suc n) (c ∷ s) = drop_bytes n s

replace_first : Bytes → Bytes → Bytes → Bytes
unfolding has_prefix drop_bytes
replace_first old new [] = []
replace_first old new (c ∷ s) =
    let rest = replace_first old new s in
    if has_prefix old (c ∷ s) then new ++ drop_bytes (length old) (c ∷ s) else c ∷ rest

unfoldable pub funcdata : Bytes → Bytes
unfolding replace_first
funcdata src = replace_first textflag (textflag ++ (codes "#include \"funcdata.h\"" ++ newline)) src

abbrev pub three_pass_frame : ℕ → ℕ
three_pass_frame max = round8 (56 + 63 + 2 * (16 * max))

-- x, or the second buffer when x is nil, and pass 0.
three_pass_first : ℕ → List Call
unfolding fmt_int buf
three_pass_first b2 =
    Call.text (codes "NO_LOCAL_POINTERS")
      ∷ Call.arg (codes "x") (codes "AX")
      ∷ Call.text (codes "TESTQ AX, AX")
      ∷ Call.text (codes "JNZ havex")
      ∷ buf three_pass_place (codes "AX")
    ++ (Call.text (codes "ADDQ $" ++ (fmt_int b2 ++ codes ", AX"))
          ∷ Call.mark (codes "havex")
          ∷ Call.text (codes "MOVQ AX, 48(SP)")
          ∷ pass_on (codes "cc") (codes "BX") (codes "0")
        ++ (Call.text (codes "MOVQ AX, 8(SP)") ∷ pass_on (codes "tw0") (codes "BX") (codes "16")
            ++ (pass_on (codes "k0") (codes "BX") (codes "24")
                ++ (pass_on (codes "ido0") (codes "BX") (codes "32")
                    ++ (Call.text (codes "MOVQ $1, 40(SP)")
                        ∷ Call.arg (codes "p0") (codes "AX")
                        ∷ Call.text (codes "CALL AX")
                        ∷ [])))))

three_pass_second : List Call
unfolding buf
three_pass_second =
    Call.text (codes "MOVQ 48(SP), AX")
      ∷ Call.text (codes "MOVQ AX, 0(SP)")
      ∷ buf three_pass_place (codes "AX")
    ++ (Call.text (codes "MOVQ AX, 8(SP)") ∷ pass_on (codes "tw1") (codes "AX") (codes "16")
        ++ (pass_on (codes "k1") (codes "AX") (codes "24")
            ++ (pass_on (codes "ido1") (codes "AX") (codes "32")
                ++ (pass_on (codes "l1b") (codes "AX") (codes "40")
                    ++ (Call.arg (codes "p1") (codes "AX") ∷ Call.text (codes "CALL AX") ∷ [])))))

three_pass_last : List Call
unfolding buf
three_pass_last =
    buf three_pass_place (codes "AX")
    ++ (Call.text (codes "MOVQ AX, 0(SP)") ∷ pass_on (codes "ch") (codes "AX") (codes "8")
        ++ (pass_on (codes "k2") (codes "AX") (codes "16")
            ++ (pass_on (codes "l1c") (codes "AX") (codes "24")
                ++ (Call.arg (codes "p2") (codes "AX") ∷ Call.text (codes "CALL AX") ∷ []))))

abbrev three_pass_names : List Bytes
three_pass_names =
    codes "cc"
    ∷ codes "ch"
    ∷ codes "x"
    ∷ codes "tw0"
    ∷ codes "tw1"
    ∷ codes "k0"
    ∷ codes "k1"
    ∷ codes "k2"
    ∷ codes "ido0"
    ∷ codes "ido1"
    ∷ codes "l1b"
    ∷ codes "l1c"
    ∷ codes "p0"
    ∷ codes "p1"
    ∷ codes "p2"
    ∷ []

abbrev three_pass_types : List ScalarType
three_pass_types =
    ptr ∷ ptr ∷ ptr ∷ ptr ∷ ptr ∷ ptr ∷ ptr ∷ ptr ∷ int64 ∷ int64 ∷ int64 ∷ int64 ∷ uint64 ∷ uint64
    ∷ uint64 ∷ []

unfoldable pub three_pass : File → Bytes → ℕ → Result File
unfolding add_calls three_pass_first three_pass_second three_pass_last
three_pass f name max =
    add_calls f name three_pass_names three_pass_types (three_pass_frame max)
      (three_pass_first (16 * max) ++ (three_pass_second ++ three_pass_last))
