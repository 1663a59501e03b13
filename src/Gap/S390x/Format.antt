-- ===== src/Gap/S390x/Format.antt =====
-- internal/gap/s390x.go: the VRR-c, VRR-e and VRR-a formats, 48 bits each, and the entries'
-- constructors.
use asmgen.Base.{ℕ, List, ◌<<<◌, ◌>>>◌, ◌&&&◌, ◌|||◌}
use asmgen.Base.Int.{ℤ}
use asmgen.Base.Text.{Bytes, codes}
use asmgen.Base.Panics.{Result, ok, ◌>>=◌}
use asmgen.Gap.{Insn, Case, operand, reg}

unfoldable pub vreg : ℤ → Result ℕ
unfolding reg
vreg r = reg (codes "s390x") (codes "vector") r 31

unfoldable pub rxb : ℕ → ℕ → ℕ → ℕ → ℕ
rxb v1 v2 v3 v4 = v1 >>> 4 <<< 3 ||| v2 >>> 4 <<< 2 ||| v3 >>> 4 <<< 1 ||| v4 >>> 4

unfoldable pub vrrc_word : ℕ → ℕ → ℕ → ℕ → ℕ → ℕ → ℕ
unfolding rxb
vrrc_word op m4 m5 v1 v2 v3 =
    0xe7 <<< 40
    ||| v1 &&& 15 <<< 36
    ||| v2 &&& 15 <<< 32
    ||| v3 &&& 15 <<< 28
    ||| m5 <<< 16
    ||| m4 <<< 12
    ||| rxb v1 v2 v3 0 <<< 8
    ||| op

unfoldable pub vrrc : ℕ → ℕ → ℕ → ℤ → ℤ → ℤ → Result ℕ
unfolding vreg vrrc_word
vrrc op m4 m5 v1 v2 v3 = do
  v1' ← vreg v1
  v2' ← vreg v2
  v3' ← vreg v3
  ok (vrrc_word op m4 m5 v1' v2' v3')

unfoldable pub vrre_word : ℕ → ℕ → ℕ → ℕ → ℕ → ℕ → ℕ → ℕ
unfolding rxb
vrre_word op m6 m5 v1 v2 v3 v4 =
    0xe7 <<< 40
    ||| v1 &&& 15 <<< 36
    ||| v2 &&& 15 <<< 32
    ||| v3 &&& 15 <<< 28
    ||| m6 <<< 24
    ||| m5 <<< 16
    ||| v4 &&& 15 <<< 12
    ||| rxb v1 v2 v3 v4 <<< 8
    ||| op

unfoldable pub vrre : ℕ → ℕ → ℕ → ℤ → ℤ → ℤ → ℤ → Result ℕ
unfolding vreg vrre_word
vrre op m6 m5 v1 v2 v3 v4 = do
  v1' ← vreg v1
  v2' ← vreg v2
  v3' ← vreg v3
  v4' ← vreg v4
  ok (vrre_word op m6 m5 v1' v2' v3' v4')

unfoldable pub vrra_word : ℕ → ℕ → ℕ → ℕ → ℕ → ℕ
unfolding rxb
vrra_word op m3 m4 v1 v2 =
    0xe7 <<< 40
    ||| v1 &&& 15 <<< 36
    ||| v2 &&& 15 <<< 32
    ||| m4 <<< 16
    ||| m3 <<< 12
    ||| rxb v1 v2 0 0 <<< 8
    ||| op

unfoldable pub vrra : ℕ → ℕ → ℕ → ℤ → ℤ → Result ℕ
unfolding vreg vrra_word
vrra op m3 m4 v1 v2 = do v1' ← vreg v1; v2' ← vreg v2; ok (vrra_word op m3 m4 v1' v2')

unfoldable pub encode_vrrc : ℕ → ℕ → List ℤ → Result ℕ
unfolding vrrc operand
encode_vrrc op m5 ops = do
  v1 ← operand ops 0
  v2 ← operand ops 1
  v3 ← operand ops 2
  vrrc op 2 m5 v1 v2 v3

unfoldable pub encode_vrre : ℕ → ℕ → List ℤ → Result ℕ
unfolding vrre operand
encode_vrre op m5 ops = do
  v1 ← operand ops 0
  v2 ← operand ops 1
  v3 ← operand ops 2
  v4 ← operand ops 3
  vrre op 2 m5 v1 v2 v3 v4

unfoldable pub encode_vrra : ℕ → ℕ → List ℤ → Result ℕ
unfolding vrra operand
encode_vrra op m4 ops = do v1 ← operand ops 0; v2 ← operand ops 1; vrra op 2 m4 v1 v2

-- The closures `vrrcEntry`, `vrreEntry` and `vrraEntry`.
abbrev pub vrrc_entry : Bytes → Bytes → ℕ → ℕ → List Case → Insn
vrrc_entry isa plan9 op m5 golden = record {
  arch = codes "s390x";
  isa = isa;
  plan9 = plan9;
  mask = 0xff000ffff0ff;
  bits = 0xe7 <<< 40 ||| m5 <<< 16 ||| 2 <<< 12 ||| op;
  not_mask = 0;
  not_bits = 0;
  encode = encode_vrrc op m5;
  golden = golden;
}

abbrev pub vrre_entry : Bytes → Bytes → ℕ → ℕ → List Case → Insn
vrre_entry isa plan9 op m5 golden = record {
  arch = codes "s390x";
  isa = isa;
  plan9 = plan9;
  mask = 0xff000fff00ff;
  bits = 0xe7 <<< 40 ||| 2 <<< 24 ||| m5 <<< 16 ||| op;
  not_mask = 0;
  not_bits = 0;
  encode = encode_vrre op m5;
  golden = golden;
}

abbrev pub vrra_entry : Bytes → Bytes → ℕ → ℕ → List Case → Insn
vrra_entry isa plan9 op m4 golden = record {
  arch = codes "s390x";
  isa = isa;
  plan9 = plan9;
  mask = 0xff00fffff0ff;
  bits = 0xe7 <<< 40 ||| m4 <<< 16 ||| 2 <<< 12 ||| op;
  not_mask = 0;
  not_bits = 0;
  encode = encode_vrra op m4;
  golden = golden;
}
