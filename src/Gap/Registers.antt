-- ===== src/Gap/Registers.antt =====
-- What a register or an operand that is not refused is.
use asmgen.Base.{ℕ, ◌≤◌, ◌≡◌, arith}
use asmgen.Base.Int.{ℤ, pos, negsuc}
use asmgen.Base.Text.{Bytes}
use asmgen.Base.Panics.{ok}
use asmgen.Gap.{reg}

-- A register number that exists, and the field that it is encoded in.
abbrev pub IsRegister : ℕ → ℤ → ℕ → Type 0
IsRegister max r n = (r ≡ pos n) × (n ≤ max)

pub reg-ok :
    (arch kind : Bytes) (r : ℤ) (max n : ℕ) → reg arch kind r max ≡ ok n → IsRegister max r n
unfolding reg
reg-ok arch kind (pos k) max n e = ground arith
reg-ok arch kind (negsuc k) max n e = ground arith

pub reg_of : (arch kind : Bytes) (max n : ℕ) → n ≤ max → reg arch kind (pos n) max ≡ ok n
unfolding reg
reg_of arch kind max n h = ground arith
