-- ===== src/Base/Panics.antt =====
-- Go panics as values. A panic keeps what its message is formatted from: the text that `fmt` makes
-- of it is not modelled.
use mathlib.Core.Path.{◌≡◌, refl}
use Prim.Native.Nat.{ℕ}
use mathlib.Core.Bool.{Bool, true, false}
use mathlib.Core.List.{List}
use asmgen.Base.Tests.{if◌then◌else◌}
use asmgen.Base.Int.{ℤ}
use asmgen.Base.Text.{Bytes}

pub data Panic : Type 0 where
  -- the runtime's panic on an index past the end of a slice
  index_out_of_range : Panic
  -- "PKG: unknown param NAME"
  unknown_param : Bytes → Bytes → Panic
  -- "ARCH: KIND register R does not exist"
  no_register : Bytes → Bytes → ℤ → Panic
  -- "arm64: element index I is not in [0, MAX]"
  bad_index : ℤ → ℕ → Panic
  -- "loong64: CSR number N is not in [0, 0x3fff]"
  bad_csr : ℤ → Panic
  -- "loong64: csrxchg mask register R would encode csrrd or csrwr"
  bad_mask_register : ℤ → Panic
  -- "loong64: broadcast-load offset OFF is not a multiple of 8 in [-2048, 2040]"
  bad_offset : ℤ → Panic
  -- "gap: no entry ARCH ISA"
  no_entry : Bytes → Bytes → Panic
  -- "amd64.FeatureProbe: unknown Feature(N)"
  unknown_feature : ℤ → Panic
  -- "amd64.VendorProbe: vendor V is N bytes, CPUID leaf 0 holds exactly 12"
  bad_vendor : Bytes → ℕ → Panic
  -- "fft/amd64: BUILDER: radix R not in RADICES"
  bad_radix : Bytes → ℤ → List ℤ → Panic
  -- "fft/amd64: no argument NAME in NAMES"
  no_argument : Bytes → List Bytes → Panic
  -- a panic with a fixed text
  message : Bytes → Panic

pub data Result {ℓ} (A : Type ℓ) : Type ℓ where
  ok : A → Result A
  panic : Panic → Result A

infixl 5 ◌>>=◌
abbrev pub ◌>>=◌ {ℓ κ} : {X : Type ℓ} {Y : Type κ} → Result X → (X → Result Y) → Result Y
panic p >>= next = panic p
ok x >>= next = next x

-- What a step that succeeds in the end has done first.
pub >>=-eq-ok {ℓ κ} :
    {X : Type ℓ} {Y : Type κ} (step : Result X) (next : X → Result Y) {y : Y}
    → (step >>= next) ≡ ok y
    → (x : X) × (step ≡ ok x) × (next x ≡ ok y)
>>=-eq-ok (panic p) next h = cc
>>=-eq-ok (ok x) next h = (x, refl, h)

-- What a test that did not panic was.
pub passed :
    {A : Type 0} (b : Bool) (p : Panic) (m : Result A) (x : A)
    → (if b then panic p else m) ≡ ok x
    → (b ≡ false) × (m ≡ ok x)
passed true p m x e = cc
passed false p m x e = (refl, e)
