-- ===== src/Amd64/Vendor.antt =====
-- amd64/feature.go: the probe for the processor's vendor.
pub mod Decides
use asmgen.Base.{
  ℕ, zero, suc, ◌+◌, ◌*◌, ◌%◌, ◌^◌, not, List, [], ◌∷◌, ◌++◌, Option, none, some, length, get_elem?,
  ◌==◌, if◌then◌else◌, bit_or,
}
use asmgen.Base.Text.{Bytes, codes, fmt_hex}
use asmgen.Base.Panics.{Result, ok, panic, Panic, ◌>>=◌}
use asmgen.Abi.{layout, uint8}
use asmgen.Emit.{Function}
use asmgen.Builder.{new_func}
use asmgen.Amd64.Machine.{Ins, ax, bx, cx, dx, xorl, cmpl, cpuid, jne, write_code}
use asmgen.Amd64.Feature.{framed}

index : Bytes → ℕ → Result ℕ
index s i = elim (get_elem? s i) [ none ↦ panic Panic.index_out_of_range | some c ↦ ok c ]

-- `uint32(a) << k`
abbrev shl32 : ℕ → ℕ → ℕ
shl32 a k = a * 2 ^ k % 2 ^ 32

-- Four bytes in little-endian order, by `|` and `<<`.
abbrev pub join : ℕ → ℕ → ℕ → ℕ → ℕ
join a b c d = bit_or (bit_or (bit_or a (shl32 b 8)) (shl32 c 16)) (shl32 d 24)

-- The closure `word`.
word : Bytes → ℕ → Result ℕ
unfolding index
word vendor i = do
  a ← index vendor i
  b ← index vendor (i + 1)
  c ← index vendor (i + 2)
  d ← index vendor (i + 3)
  ok (join a b c d)

-- `vendor[i : i+4]`
quarter : Bytes → ℕ → Result Bytes
unfolding index
quarter vendor i = do
  a ← index vendor i
  b ← index vendor (i + 1)
  c ← index vendor (i + 2)
  d ← index vendor (i + 3)
  ok (a ∷ b ∷ c ∷ d ∷ [])

abbrev pub other_label : Bytes → Bytes
other_label name = name ++ codes "_other"

-- `0x%08x`
abbrev pub hex32 : ℕ → Bytes
hex32 w = codes "0x" ++ fmt_hex 8 w

abbrev pub vendor_code : Bytes → Bytes → Bytes → Bytes → Bytes → Bytes → Bytes → List Ins
vendor_code done i0 c0 i4 c4 i8 c8 =
    xorl ax
    ∷ cpuid
    ∷ cmpl bx i0 (some c0)
    ∷ jne done
    ∷ cmpl dx i4 (some c4)
    ∷ jne done
    ∷ cmpl cx i8 (some c8)
    ∷ jne done
    ∷ []

-- `quote` is what `%q` makes of a string.
module _ (quote : Bytes → Bytes) where
  vendor_lines : Bytes → Bytes → Result (List Ins)
  unfolding word quarter
  vendor_lines done vendor = do
    w0 ← word vendor 0
    q0 ← quarter vendor 0
    w4 ← word vendor 4
    q4 ← quarter vendor 4
    w8 ← word vendor 8
    q8 ← quarter vendor 8
    ok (vendor_code done (hex32 w0) (quote q0) (hex32 w4) (quote q4) (hex32 w8) (quote q8))

  unfoldable pub vendor_probe : Bytes → Bytes → Result Function
  unfolding vendor_lines layout new_func write_code
  vendor_probe name vendor =
      if length vendor == 12
      then (do
        sig ← layout [] [] (codes "ret" ∷ []) (uint8 ∷ [])
        code ← vendor_lines (other_label name) vendor
        ok (write_code (new_func name sig 0) (framed (other_label name) code)).fn)
      else panic (Panic.bad_vendor vendor (length vendor))
