-- ===== src/Gap/Arm64/Format.antt =====
-- internal/gap/arm64.go: multiply by element; the index is H:L for .S and H for .D.
use asmgen.Base.{ℕ, Bool, true, false, ◌||◌, List, ◌++◌, if◌then◌else◌, ◌<<<◌, ◌>>>◌, ◌&&&◌, ◌|||◌}
use asmgen.Base.Int.{ℤ, pos, pos_part, ltb_ℤ}
use asmgen.Base.Text.{Bytes, codes}
use asmgen.Base.Panics.{Result, ok, panic, Panic, ◌>>=◌}
use asmgen.Gap.{Insn, Case, operand, reg}

unfoldable pub vector : ℤ → Result ℕ
unfolding reg
vector r = reg (codes "arm64") (codes "vector") r 31

abbrev pub max_index : Bool → ℕ
max_index d = if d then 1 else 3

-- The word that byElement returns, of operands that it does not refuse.
unfoldable pub element_word : ℕ → Bool → ℕ → ℕ → ℕ → ℕ → ℕ
element_word base d vd vn m index =
    let w = base ||| m <<< 16 ||| vn <<< 5 ||| vd in
    if d then w ||| index <<< 11 else w ||| index >>> 1 <<< 11 ||| index &&& 1 <<< 21

unfoldable pub by_element : ℕ → Bool → ℤ → ℤ → ℤ → ℤ → Result ℕ
unfolding vector element_word
by_element base d vd vn vm index =
    if ltb_ℤ index (pos 0) || ltb_ℤ (pos (max_index d)) index
    then panic (Panic.bad_index index (max_index d))
    else (vector vm >>= λ m.
        vector vn >>= λ n. vector vd >>= λ v. ok (element_word base d v n m (pos_part index)))

unfoldable pub encode_element : ℕ → Bool → List ℤ → Result ℕ
unfolding by_element operand
encode_element base d ops = do
  vd ← operand ops 0
  vn ← operand ops 1
  vm ← operand ops 2
  index ← operand ops 3
  by_element base d vd vn vm index

-- The opcode is in bits 12 to 15.
abbrev pub base_s : ℕ → ℕ
base_s opcode = 0x4f800000 ||| opcode <<< 12

abbrev pub base_d : ℕ → ℕ
base_d opcode = base_s opcode ||| 1 <<< 22

abbrev pub elem_insn_s : Bytes → Bytes → ℕ → List Case → Insn
elem_insn_s isa plan9 opcode golden = record {
  arch = codes "arm64";
  isa = isa ++ codes ".elem.4s";
  plan9 = plan9 ++ codes " V{2}.S[{3}], V{1}.S4, V{0}.S4";
  mask = 0xffc0f400;
  bits = base_s opcode;
  not_mask = 0;
  not_bits = 0;
  encode = encode_element (base_s opcode) false;
  golden = golden;
}

abbrev pub elem_insn_d : Bytes → Bytes → ℕ → List Case → Insn
elem_insn_d isa plan9 opcode golden = record {
  arch = codes "arm64";
  isa = isa ++ codes ".elem.2d";
  plan9 = plan9 ++ codes " V{2}.D[{3}], V{1}.D2, V{0}.D2";
  mask = 0xffc0f400 ||| 1 <<< 21;
  bits = base_d opcode;
  not_mask = 0;
  not_bits = 0;
  encode = encode_element (base_d opcode) true;
  golden = golden;
}

-- `elemInsn`, which branches on `d`; the golden cases are looked up by the name that it makes.
abbrev pub elem_insn : Bytes → Bytes → ℕ → Bool → List Case → Insn
elem_insn isa plan9 opcode d golden =
    if d then elem_insn_d isa plan9 opcode golden else elem_insn_s isa plan9 opcode golden
