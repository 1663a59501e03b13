-- ===== src/Amd64/Vendor/Decides.antt =====
-- amd64/feature.go: VendorProbe against the bytes that CPUID puts into three registers.
use asmgen.Base.{
  ℕ, ◌+◌, ◌*◌, ◌<◌, ◌^◌, ◌%◌, ◌/◌, ◌≡◌, refl, ap, true, false, ◌&&◌, ◌∷◌, ◌++◌, [], List, none,
  some, ◌==◌, arith, bit_or, beq, All, length, Bool-cases, inl, inr, ◌≢◌, ◌∙◌, if◌then◌else◌,
}
use asmgen.Base.Bits.{bit_or_field}
use native.Mathlib.Nat.{mod-eq_of_lt, div-eq_of_lt}
use asmgen.Base.Text.{Bytes, codes, parse_uint}
use asmgen.Base.Text.Digits.{parse_uint-fmt_hex}
use asmgen.Base.Panics.{ok, panic, Panic}
use asmgen.Builder.{new_func}
use asmgen.Amd64.Machine.{
  set_ret, mark, return, bx, cx, dx, Reg, cmpl, jne, get, compared, go_on, Cpu, State, Ins,
  returned, run, write_code, imm,
}
use asmgen.Amd64.Feature.{framed}
use asmgen.Amd64.Feature.Runs.{byte, ends}
use asmgen.Amd64.Feature.Correct.{probe_sig}
use asmgen.Amd64.Vendor.{join, hex32, vendor_code, vendor_probe, other_label}

abbrev pub IsByte : ℕ → Type 0
IsByte c = c < 256

or_byte :
    (k a m : ℕ)
    → a < 2 ^ k
    → m < 256
    → m * 2 ^ k < 2 ^ 32
    → bit_or a (m * 2 ^ k % 2 ^ 32) ≡ a + m * 2 ^ k
or_byte k a m ha hm small =
    rw (mod-eq_of_lt small) (bit_or_field k 8 a m (rw (div-eq_of_lt ha) refl) hm)

join_value :
    (a b c d : ℕ)
    → a < 256
    → b < 256
    → c < 256
    → d < 256
    → join a b c d ≡ a + b * 2 ^ 8 + c * 2 ^ 16 + d * 2 ^ 24
join_value a b c d ha hb hc hd =
    rw
      (
        or_byte 8 a b ha hb (omega arith),
        or_byte 16 (a + b * 2 ^ 8) c (omega arith) hc (omega arith),
      )
      (or_byte 24 (a + b * 2 ^ 8 + c * 2 ^ 16) d (omega arith) hd (omega arith))

join_small : (a b c d : ℕ) → a < 256 → b < 256 → c < 256 → d < 256 → join a b c d < 2 ^ 64
join_small a b c d ha hb hc hd = omega (arith, join_value a b c d ha hb hc hd)

-- The bytes of a register, the lowest first.
abbrev pub bytes_of : ℕ → Bytes
bytes_of x = x % 256 ∷ x / 2 ^ 8 % 256 ∷ x / 2 ^ 16 % 256 ∷ x / 2 ^ 24 % 256 ∷ []

imm-hex32 : (w : ℕ) → w < 2 ^ 64 → imm (hex32 w) ≡ some w
unfolding imm
imm-hex32 w h = parse_uint-fmt_hex 8 w h

-- A comparison and the jump behind it.
compare_run :
    (c : Cpu) (r : Reg) (i q l : Bytes) (w : ℕ) (code : List Ins) (s : State)
    → imm i ≡ some w
    → run c (cmpl r i (some q) ∷ jne l ∷ code) none s
      ≡ run c code (if get s r == w then none else some l) (compared s (get s r) w)
unfolding run
compare_run c r i q l w code s e =
    ap
      (λ o.
        go_on (λ s'. run c (jne l ∷ code) none s')
          (elim o [ some v ↦ some (compared s (get s r) v) | none ↦ none ]))
      e

-- What the probe does once CPUID has answered.
tests_run :
    (l : Bytes) (c : Cpu) (s : State) (i0 i4 i8 : Bytes) (w0 w4 w8 : ℕ) (c0 c4 c8 : Bytes)
    → imm i0 ≡ some w0
    → imm i4 ≡ some w4
    → imm i8 ≡ some w8
    → s.slot ≡ some 0
    → run c
        (cmpl bx i0 (some c0)
          ∷ jne l
          ∷ cmpl dx i4 (some c4)
          ∷ jne l
          ∷ cmpl cx i8 (some c8)
          ∷ jne l
          ∷ set_ret (codes "1")
          ∷ mark l
          ∷ return
          ∷ [])
        none
        s
      ≡ returned (some (byte ((s.bx_value == w0) && ((s.dx_value == w4) && (s.cx_value == w8)))))
unfolding run imm parse_uint
tests_run l c s i0 i4 i8 w0 w4 w8 c0 c4 c8 h0 h4 h8 z =
    let s0 = compared s s.bx_value w0 in
    let s4 = compared s0 s.dx_value w4 in
    let s8 = compared s4 s.cx_value w8 in
    compare_run c bx i0 c0 l w0
      (cmpl dx i4 (some c4)
        ∷ jne l
        ∷ cmpl cx i8 (some c8)
        ∷ jne l
        ∷ set_ret (codes "1")
        ∷ mark l
        ∷ return
        ∷ [])
      s h0
    ∙ (elim (Bool-cases (s.bx_value == w0)) [
      | inr e ↦ rw e (ends l c (record s0 { zero_flag = false }) ∙ ap returned z)
      | inl e ↦ rw e (
          compare_run c dx i4 c4 l w4
            (cmpl cx i8 (some c8) ∷ jne l ∷ set_ret (codes "1") ∷ mark l ∷ return ∷ []) s0 h4
          ∙ (elim (Bool-cases (s.dx_value == w4)) [
            | inr f ↦ rw f (ends l c (record s4 { zero_flag = false }) ∙ ap returned z)
            | inl f ↦ rw f (
                compare_run c cx i8 c8 l w8 (set_ret (codes "1") ∷ mark l ∷ return ∷ []) s4 h8
                ∙ (elim (Bool-cases (s.cx_value == w8)) [
                  | inr g ↦ rw g (ends l c (record s8 { zero_flag = false }) ∙ ap returned z)
                  | inl g ↦ rw g refl
                ]))
          ]))
    ])

vendor_run :
    (l : Bytes) (c : Cpu) (s : State) (i0 i4 i8 : Bytes) (w0 w4 w8 : ℕ) (c0 c4 c8 : Bytes)
    → imm i0 ≡ some w0
    → imm i4 ≡ some w4
    → imm i8 ≡ some w8
    → run c (framed l (vendor_code l i0 c0 i4 c4 i8 c8)) none s
      ≡ returned (some (byte ((c.leaf0.ebx == w0) && ((c.leaf0.edx == w4) && (c.leaf0.ecx == w8)))))
unfolding run imm parse_uint
vendor_run l c s i0 i4 i8 w0 w4 w8 c0 c4 c8 h0 h4 h8 =
    tests_run l c
      (record {
        ax_value = c.leaf0.eax;
        bx_value = c.leaf0.ebx;
        cx_value = c.leaf0.ecx;
        dx_value = c.leaf0.edx;
        zero_flag = true;
        less = false;
        slot = some 0;
      })
      i0 i4 i8 w0 w4 w8 c0 c4 c8 h0 h4 h8 refl

-- Three registers, byte by byte.
beq-join :
    (a b c d x : ℕ) (s t : Bytes)
    → a < 256
    → b < 256
    → c < 256
    → d < 256
    → x < 2 ^ 32
    → ((x == join a b c d) && beq s t) ≡ beq (a ∷ b ∷ c ∷ d ∷ s) (bytes_of x ++ t)
beq-join a b c d x s t ha hb hc hd hx = ground (arith, join_value a b c d ha hb hc hd)

-- A vendor of another length is a panic that holds it, whatever the name of the probe is.
pub vendor_probe-length :
    (quote : Bytes → Bytes) (name vendor : Bytes)
    → length vendor ≢ 12
    → vendor_probe quote name vendor ≡ panic (Panic.bad_vendor vendor (length vendor))
unfolding vendor_probe
vendor_probe-length quote name vendor h = ground arith

join-bytes_of :
    (a b c d x : ℕ)
    → a < 256
    → b < 256
    → c < 256
    → d < 256
    → x < 2 ^ 32
    → (x == join a b c d) ≡ beq (a ∷ b ∷ c ∷ d ∷ []) (bytes_of x)
join-bytes_of a b c d x ha hb hc hd hx = ground (arith, join_value a b c d ha hb hc hd)

-- For a vendor of twelve bytes, on a processor whose leaf 0 holds 32-bit numbers: VendorProbe emits
-- code that runs to its RET whatever the registers hold and returns true exactly when the bytes of
-- EBX, EDX and ECX at leaf 0, in that order and each from the lowest on, are the vendor.
pub vendor_probe-Decides :
    (quote : Bytes → Bytes) (name vendor : Bytes) (c : Cpu) (s : State)
    → length vendor ≡ 12
    → All IsByte vendor
    → c.leaf0.ebx < 2 ^ 32
    → c.leaf0.edx < 2 ^ 32
    → c.leaf0.ecx < 2 ^ 32
    → (code : List Ins) × (vendor_probe quote name vendor
        ≡ ok (write_code (new_func name probe_sig 0) code).fn)
      × (run c code none s
          ≡ returned (
              some (
                byte (
                  beq vendor
                    (bytes_of c.leaf0.ebx ++ (bytes_of c.leaf0.edx ++ bytes_of c.leaf0.ecx))))))
unfolding vendor_probe
vendor_probe-Decides quote name (v0 ∷ v1 ∷ v2 ∷ v3 ∷ v4 ∷ v5 ∷ v6 ∷ v7 ∷ v8 ∷ v9 ∷ va ∷ vb ∷ []) c s
      n (b0, (b1, (b2, (b3, (b4, (b5, (b6, (b7, (b8, (b9, (ba, (bb, _)))))))))))) hb hd hc =
    let w0 = join v0 v1 v2 v3 in
    let w4 = join v4 v5 v6 v7 in
    let w8 = join v8 v9 va vb in
    (
      framed (other_label name) (
          vendor_code (other_label name) (hex32 (join v0 v1 v2 v3)) (quote (v0 ∷ v1 ∷ v2 ∷ v3 ∷ []))
            (hex32 (join v4 v5 v6 v7)) (quote (v4 ∷ v5 ∷ v6 ∷ v7 ∷ [])) (hex32 (join v8 v9 va vb))
            (quote (v8 ∷ v9 ∷ va ∷ vb ∷ []))),
      refl,
      vendor_run (other_label name) c s (hex32 w0) (hex32 w4) (hex32 w8) w0 w4 w8
            (quote (v0 ∷ v1 ∷ v2 ∷ v3 ∷ [])) (quote (v4 ∷ v5 ∷ v6 ∷ v7 ∷ []))
            (quote (v8 ∷ v9 ∷ va ∷ vb ∷ [])) (imm-hex32 w0 (join_small v0 v1 v2 v3 b0 b1 b2 b3))
            (imm-hex32 w4 (join_small v4 v5 v6 v7 b4 b5 b6 b7))
            (imm-hex32 w8 (join_small v8 v9 va vb b8 b9 ba bb))
          ∙ ap (λ b. returned (some (byte b)))
              (ap (λ t. (c.leaf0.ebx == w0) && ((c.leaf0.edx == w4) && t))
                  (join-bytes_of v8 v9 va vb c.leaf0.ecx b8 b9 ba bb hc)
                ∙ (ap (λ t. (c.leaf0.ebx == w0) && t)
                      (beq-join v4 v5 v6 v7 c.leaf0.edx (v8 ∷ v9 ∷ va ∷ vb ∷ [])
                        (bytes_of c.leaf0.ecx) b4 b5 b6 b7 hd)
                    ∙ beq-join v0 v1 v2 v3 c.leaf0.ebx (v4 ∷ v5 ∷ v6 ∷ v7 ∷ v8 ∷ v9 ∷ va ∷ vb ∷ [])
                        (bytes_of c.leaf0.edx ++ bytes_of c.leaf0.ecx) b0 b1 b2 b3 hb)),
    )
vendor_probe-Decides quote name vendor c s n hs hb hd hc = absurd (omega arith)
