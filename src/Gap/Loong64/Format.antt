-- ===== src/Gap/Loong64/Format.antt =====
-- internal/gap/loong64.go: the four-register form, the broadcast load and the CSR access.
use asmgen.Base.{
  ℕ, ◌+◌, ◌-◌, ◌/◌, ◌%◌, ◌^◌, Bool, not, ◌||◌, List, ◌==◌, if◌then◌else◌, ◌<<<◌, ◌&&&◌, ◌|||◌,
}
use asmgen.Base.Int.{ℤ, pos, negsuc, pos_part, ltb_ℤ}
use asmgen.Base.Text.{codes}
use asmgen.Base.Panics.{Result, ok, panic, Panic, ◌>>=◌}
use asmgen.Gap.{operand, reg}

unfoldable pub vec : ℤ → Result ℕ
unfolding reg
vec r = reg (codes "loong64") (codes "vector") r 31

unfoldable pub general : ℤ → Result ℕ
unfolding reg
general r = reg (codes "loong64") (codes "general") r 31

unfoldable pub r4_word : ℕ → ℕ → ℕ → ℕ → ℕ → ℕ
r4_word base d j k a = base ||| a <<< 15 ||| k <<< 10 ||| j <<< 5 ||| d

unfoldable pub r4 : ℕ → ℤ → ℤ → ℤ → ℤ → Result ℕ
unfolding vec r4_word
r4 base d j k a = do a' ← vec a; k' ← vec k; j' ← vec j; d' ← vec d; ok (r4_word base d' j' k' a')

-- `uint64(off/8)`: Go's division rounds towards zero, and the conversion wraps.
unfoldable pub eighth : ℤ → ℕ
eighth (pos n) = n / 8
eighth (negsuc n) = (2 ^ 64 - (n + 1) / 8) % 2 ^ 64

-- `off%8 != 0`: Go's remainder has the sign of `off`.
abbrev pub uneven : ℤ → Bool
uneven (pos n) = not (n % 8 == 0)
uneven (negsuc n) = not ((n + 1) % 8 == 0)

unfoldable pub ldrepl_word : ℕ → ℕ → ℕ → ℕ → ℕ
ldrepl_word base d rj units = base ||| units &&& 0x1ff <<< 10 ||| rj <<< 5 ||| d

-- The bounds are -2048 and 2040.
unfoldable pub ldrepl : ℕ → ℤ → ℤ → ℤ → Result ℕ
unfolding general vec ldrepl_word eighth
ldrepl base d rj off =
    if uneven off || (ltb_ℤ off (negsuc 2047) || ltb_ℤ (pos 2040) off)
    then panic (Panic.bad_offset off)
    else (general rj >>= λ rj'. vec d >>= λ d'. ok (ldrepl_word base d' rj' (eighth off)))

unfoldable pub csr_word : ℕ → ℕ → ℕ → ℕ → ℕ
csr_word base rd rj num = base ||| num <<< 10 ||| rj <<< 5 ||| rd

unfoldable pub csr : ℕ → ℤ → ℤ → ℤ → Result ℕ
unfolding general csr_word
csr base rd rj num =
    if ltb_ℤ num (pos 0) || ltb_ℤ (pos 0x3fff) num
    then panic (Panic.bad_csr num)
    else (general rj >>= λ rj'. general rd >>= λ rd'. ok (csr_word base rd' rj' (pos_part num)))

-- The `Encode` functions of the entries.
unfoldable pub encode_r4 : ℕ → List ℤ → Result ℕ
unfolding r4 operand
encode_r4 base ops = do
  d ← operand ops 0
  j ← operand ops 1
  k ← operand ops 2
  a ← operand ops 3
  r4 base d j k a

unfoldable pub encode_ldrepl : ℕ → List ℤ → Result ℕ
unfolding ldrepl operand
encode_ldrepl base ops = do
  d ← operand ops 0
  rj ← operand ops 1
  off ← operand ops 2
  ldrepl base d rj off

unfoldable pub encode_csr : ℕ → List ℤ → Result ℕ
unfolding csr operand
encode_csr base ops = do rd ← operand ops 0; num ← operand ops 1; csr base rd (pos 0) num

-- csrxchg refuses rj 0 and 1 (and any below), which are the other two instructions.
unfoldable pub encode_csrxchg : List ℤ → Result ℕ
unfolding csr operand
encode_csrxchg ops = operand ops 1 >>= λ rj.
    if ltb_ℤ rj (pos 2)
    then panic (Panic.bad_mask_register rj)
    else (operand ops 0 >>= λ rd. operand ops 2 >>= λ num. csr 0x04000000 rd rj num)
