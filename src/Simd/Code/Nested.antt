-- ===== src/Simd/Code/Nested.antt =====
-- The function that a program builds has its blocks nested, and its text its parentheses.
use asmgen.Base.{
  ℕ, suc, ◌≡◌, refl, subst, arith, [], ◌∷◌, ◌++◌, some, All, Bool, true, false, ◌&&◌, not, ◌==◌,
  get_elem?, All-append,
}
use asmgen.Base.Int.{ℤ, pos, negsuc}
use asmgen.Base.Text.{Bytes, codes, itoa, fmt_ℤ}
use asmgen.Base.Text.HexBytes.{IsHexDigit, itoa-hex}
use asmgen.Base.Panics.{ok, passed}
use asmgen.Wasm
use asmgen.Wasm.{Function, Param, signed_bytes, unsigned_bytes, int8}
use asmgen.Wasm.Nesting.{
  depth, Step, IsPlain, Takes, Takes-plain, Takes-append, end-closes, pair-closes,
}
use asmgen.Wasm.Methods.{methods, method-Step}
use asmgen.Simd.Code.{Op, write_op}

digits-IsPlain : (s : Bytes) → All IsHexDigit s → IsPlain s
digits-IsPlain [] h = tt
digits-IsPlain (c ∷ s) h = ((ground (arith, h.0), ground (arith, h.0)), digits-IsPlain s h.1)

fmt_ℤ-IsPlain : (v : ℤ) → IsPlain (fmt_ℤ v)
unfolding fmt_ℤ
fmt_ℤ-IsPlain (pos n) = digits-IsPlain (itoa n) (itoa-hex n)
fmt_ℤ-IsPlain (negsuc n) =
    ((omega arith, omega arith), digits-IsPlain (itoa (suc n)) (itoa-hex (suc n)))

-- One operand behind the word that opens the parenthesis.
enclosed :
    (opening s : Bytes)
    → ((d : ℕ) → Takes d opening (suc d))
    → IsPlain s
    → (d : ℕ) → Takes d (opening ++ (s ++ codes ")")) d
enclosed opening s h plain d =
    Takes-append d (suc d) d opening (s ++ codes ")") (h d)
      (Takes-append (suc d) (suc d) d s (codes ")") (Takes-plain (suc d) s plain) (end-closes d))

-- Two operands.
enclosed_pair :
    (opening s t : Bytes)
    → ((d : ℕ) → Takes d opening (suc d))
    → IsPlain s
    → IsPlain t
    → (d : ℕ) → Takes d (opening ++ (s ++ (codes " " ++ (t ++ codes ")")))) d
enclosed_pair opening s t h plain plain' d =
    Takes-append d (suc d) d opening (s ++ (codes " " ++ (t ++ codes ")"))) (h d) (
      Takes-append (suc d) (suc d) d s (codes " " ++ (t ++ codes ")")) (Takes-plain (suc d) s plain)
        (pair-closes d t plain'))

signed_bytes-IsPlain : (b : Bytes) → IsPlain (signed_bytes b)
unfolding signed_bytes
signed_bytes-IsPlain [] = tt
signed_bytes-IsPlain (v ∷ b) = (
  (omega arith, omega arith),
  All-append _ (fmt_ℤ (int8 v)) (signed_bytes b) (fmt_ℤ-IsPlain (int8 v)) (signed_bytes-IsPlain b),
)

unsigned_bytes-IsPlain : (b : Bytes) → IsPlain (unsigned_bytes b)
unfolding unsigned_bytes
unsigned_bytes-IsPlain [] = tt
unsigned_bytes-IsPlain (v ∷ b) = (
  (omega arith, omega arith),
  All-append _ (itoa v) (unsigned_bytes b) (digits-IsPlain (itoa v) (itoa-hex v))
      (unsigned_bytes-IsPlain b),
)

pub ok_inj : {f g : Function} → ok f ≡ ok g → f ≡ g
ok_inj h = cc

-- A method without an argument.
fixed :
    (k : ℕ) (method : Function → Function) (f g : Function) (d : ℕ)
    → get_elem? methods k ≡ some method
    → ok (method f) ≡ ok g
    → Step f d g d
fixed k method f g d at h = subst (λ t. Step f d t d) (ok_inj h) (method-Step k method f d at)

-- A method with operands.
line :
    (text : Bytes) (f g : Function) (d : ℕ)
    → ((e : ℕ) → Takes (suc e) text (suc e))
    → ok (Wasm.raw f text) ≡ ok g
    → Step f d g d
line text f g d takes h = subst (λ t. Step f d t d) (ok_inj h) (Step.line_op text takes)

pub one_operand :
    (opening s : Bytes) (f g : Function) (d : ℕ)
    → ((e : ℕ) → Takes e opening (suc e))
    → IsPlain s
    → ok (Wasm.raw f (opening ++ (s ++ codes ")"))) ≡ ok g
    → Step f d g d
one_operand opening s f g d takes plain h =
    line (opening ++ (s ++ codes ")")) f g d (λ e. enclosed opening s takes plain (suc e)) h

abbrev pub plain : Bytes → Bool
plain [] = true
plain (c ∷ s) = (not (c == b'(') && not (c == b')')) && plain s

pub both : (a b : Bool) → (a && b) ≡ true → (a ≡ true) × (b ≡ true)
both true b h = (refl, h)
both false b h = cc

pub plain-IsPlain : (s : Bytes) → plain s ≡ true → IsPlain s
plain-IsPlain [] h = tt
plain-IsPlain (c ∷ s) h =
    let (here, later) = both (not (c == b'(') && not (c == b')')) (plain s) h in
    let (o, p) = both (not (c == b'(')) (not (c == b')')) here in
    ((ground arith, ground arith), plain-IsPlain s later)

-- The name of a local has no parenthesis.
abbrev pub op_plain : Op → Bool
op_plain (Op.local_get x) = plain x
op_plain (Op.local_set x) = plain x
op_plain (Op.local_tee x) = plain x
op_plain _ = true

pub write_op-Step :
    (op : Op) (f g : Function) (d : ℕ) → write_op f op ≡ ok g → op_plain op ≡ true → Step f d g d
unfolding write_op Wasm.i32_const Wasm.i32_store Wasm.v128_load Wasm.v128_store
    Wasm.v128_store64_lane Wasm.v128_const16 Wasm.i8x16_shuffle Wasm.i32x4_extract_lane depth
write_op-Step (Op.local_get x) f g d h p =
    one_operand (codes "(local.get $") x f g d (λ e t. refl) (plain-IsPlain x p) h
write_op-Step (Op.local_set x) f g d h p =
    one_operand (codes "(local.set $") x f g d (λ e t. refl) (plain-IsPlain x p) h
write_op-Step (Op.local_tee x) f g d h p =
    one_operand (codes "(local.tee $") x f g d (λ e t. refl) (plain-IsPlain x p) h
write_op-Step (Op.i32_const v) f g d h p =
    one_operand (codes "(i32.const ") (fmt_ℤ v) f g d (λ e t. refl) (fmt_ℤ-IsPlain v) h
write_op-Step (Op.i32_store v) f g d h p =
    one_operand (codes "(i32.store offset=") (fmt_ℤ v) f g d (λ e t. refl) (fmt_ℤ-IsPlain v) h
write_op-Step (Op.v128_load v) f g d h p =
    one_operand (codes "(v128.load offset=") (fmt_ℤ v) f g d (λ e t. refl) (fmt_ℤ-IsPlain v) h
write_op-Step (Op.v128_store v) f g d h p =
    one_operand (codes "(v128.store offset=") (fmt_ℤ v) f g d (λ e t. refl) (fmt_ℤ-IsPlain v) h
write_op-Step (Op.v128_store64_lane o k) f g d h p =
    line (codes "(v128.store64_lane offset=" ++ (fmt_ℤ o ++ (codes " " ++ (fmt_ℤ k ++ codes ")"))))
      f g d
      (λ e.
        enclosed_pair (codes "(v128.store64_lane offset=") (fmt_ℤ o) (fmt_ℤ k) (λ e t. refl)
          (fmt_ℤ-IsPlain o) (fmt_ℤ-IsPlain k) (suc e))
      (passed _ _ _ g h).1
write_op-Step (Op.i32x4_extract_lane k) f g d h p =
    one_operand (codes "(i32x4.extract_lane ") (fmt_ℤ k) f g d (λ e t. refl) (fmt_ℤ-IsPlain k)
      (passed _ _ _ g h).1
write_op-Step (Op.v128_const16 b) f g d h p =
    one_operand (codes "(v128.const i8x16") (signed_bytes b) f g d (λ e t. refl)
      (signed_bytes-IsPlain b) (passed _ _ _ g h).1
write_op-Step (Op.i8x16_shuffle b) f g d h p =
    one_operand (codes "(i8x16.shuffle") (unsigned_bytes b) f g d (λ e t. refl)
      (unsigned_bytes-IsPlain b) (passed _ _ _ g h).1
write_op-Step Op.i32_add f g d h p = fixed 32 _ f g d refl h
write_op-Step Op.i32_sub f g d h p = fixed 10 _ f g d refl h
write_op-Step Op.i32_mul f g d h p = fixed 33 _ f g d refl h
write_op-Step Op.i32_eqz f g d h p = fixed 31 _ f g d refl h
write_op-Step Op.i32_ne f g d h p = fixed 37 _ f g d refl h
write_op-Step Op.i32_gt_s f g d h p = fixed 35 _ f g d refl h
write_op-Step Op.i32_ge_s f g d h p = fixed 36 _ f g d refl h
write_op-Step Op.i32_ctz f g d h p = fixed 9 _ f g d refl h
write_op-Step Op.i32_popcnt f g d h p = fixed 11 _ f g d refl h
write_op-Step Op.i32_load8_u f g d h p = fixed 34 _ f g d refl h
write_op-Step Op.v128_zero f g d h p = fixed 30 _ f g d refl h
write_op-Step Op.v128_and f g d h p = fixed 0 _ f g d refl h
write_op-Step Op.v128_or f g d h p = fixed 1 _ f g d refl h
write_op-Step Op.i8x16_eq f g d h p = fixed 3 _ f g d refl h
write_op-Step Op.i8x16_gt_u f g d h p = fixed 26 _ f g d refl h
write_op-Step Op.i8x16_ge_s f g d h p = fixed 4 _ f g d refl h
write_op-Step Op.i8x16_le_s f g d h p = fixed 5 _ f g d refl h
write_op-Step Op.i8x16_add f g d h p = fixed 28 _ f g d refl h
write_op-Step Op.i8x16_sub f g d h p = fixed 6 _ f g d refl h
write_op-Step Op.i8x16_splat f g d h p = fixed 7 _ f g d refl h
write_op-Step Op.i8x16_bitmask f g d h p = fixed 8 _ f g d refl h
write_op-Step Op.i8x16_all_true f g d h p = fixed 12 _ f g d refl h
write_op-Step Op.i8x16_popcnt f g d h p = fixed 16 _ f g d refl h
write_op-Step Op.i8x16_swizzle f g d h p = fixed 13 _ f g d refl h
write_op-Step Op.i8x16_shl f g d h p = fixed 15 _ f g d refl h
write_op-Step Op.i8x16_shr_u f g d h p = fixed 14 _ f g d refl h
write_op-Step Op.i16x8_mul f g d h p = fixed 21 _ f g d refl h
write_op-Step Op.i16x8_narrow_i32x4_u f g d h p = fixed 25 _ f g d refl h
write_op-Step Op.i16x8_extadd_pairwise_i8x16_u f g d h p = fixed 17 _ f g d refl h
write_op-Step Op.i16x8_extmul_low_i8x16_u f g d h p = fixed 19 _ f g d refl h
write_op-Step Op.i16x8_extmul_high_i8x16_u f g d h p = fixed 20 _ f g d refl h
write_op-Step Op.i32x4_add f g d h p = fixed 29 _ f g d refl h
write_op-Step Op.i32x4_shr_u f g d h p = fixed 24 _ f g d refl h
write_op-Step Op.i32x4_extadd_pairwise_i16x8_u f g d h p = fixed 18 _ f g d refl h
write_op-Step Op.i32x4_extmul_low_i16x8_u f g d h p = fixed 22 _ f g d refl h
write_op-Step Op.i32x4_extmul_high_i16x8_u f g d h p = fixed 23 _ f g d refl h
