-- ===== src/Simd/Lanes.antt =====
-- What WebAssembly's vector instructions do, on a vector as its 16 bytes from the lowest address up.
-- A lane of 16 or of 32 bits is made of 2 or 4 of them, the lowest first.
use asmgen.Base.{
  ℕ, zero, suc, ◌+◌, ◌-◌, ◌*◌, ◌/◌, ◌%◌, ◌^◌, Bool, true, ◌&&◌, not, List, [], ◌∷◌, map, ltb, leb,
  ◌==◌, if◌then◌else◌, none, some, get_elem?,
}
use asmgen.Base.Text.{Bytes}

-- Byte by byte, up to the shorter one's length.
unfoldable pub zip : (ℕ → ℕ → ℕ) → Bytes → Bytes → Bytes
zip f [] ys = []
zip f (x ∷ xs) [] = []
zip f (x ∷ xs) (y ∷ ys) = f x y ∷ zip f xs ys

-- A lane that is all ones, or zero.
abbrev pub mask : Bool → ℕ
mask b = if b then 255 else 0

-- x as a signed byte, moved up by 128 so that it is a natural number.
abbrev pub signed : ℕ → ℕ
signed x = (x + 128) % 256

abbrev pub eq_lane : ℕ → ℕ → ℕ
eq_lane x y = mask (x == y)

abbrev pub gt_u_lane : ℕ → ℕ → ℕ
gt_u_lane x y = mask (ltb y x)

abbrev pub ge_s_lane : ℕ → ℕ → ℕ
ge_s_lane x y = mask (leb (signed y) (signed x))

abbrev pub le_s_lane : ℕ → ℕ → ℕ
le_s_lane x y = mask (leb (signed x) (signed y))

abbrev pub add_lane : ℕ → ℕ → ℕ
add_lane x y = (x + y) % 256

abbrev pub sub_lane : ℕ → ℕ → ℕ
sub_lane x y = (x + 256 - y) % 256

unfoldable pub repeat : ℕ → ℕ → Bytes
repeat zero x = []
repeat (suc n) x = x ∷ repeat n x

-- Bit k is the top bit of lane k.
unfoldable pub bitmask : Bytes → ℕ
bitmask [] = 0
bitmask (x ∷ xs) = x / 128 + 2 * bitmask xs

unfoldable pub all_true : Bytes → Bool
all_true [] = true
all_true (x ∷ xs) = not (x == 0) && all_true xs

-- The number of ones in the low n bits of x.
unfoldable pub ones : ℕ → ℕ → ℕ
ones zero x = 0
ones (suc n) x = x % 2 + ones n (x / 2)

-- The number of zeros below the lowest one, of n bits.
unfoldable pub trailing : ℕ → ℕ → ℕ
trailing zero x = 0
trailing (suc n) x = if (x % 2) == 1 then 0 else suc (trailing n (x / 2))

-- Byte k of the result is the byte of `table` that byte k of the indices names, or 0.
abbrev pub byte_at : Bytes → ℕ → ℕ
byte_at table i = elim (get_elem? table i) [ some x ↦ x | none ↦ 0 ]

unfoldable pub swizzle : Bytes → Bytes → Bytes
swizzle table indices = map (byte_at table) indices

-- The shift count is taken modulo the lane's width.
unfoldable pub shl : ℕ → Bytes → Bytes
shl n v = map (λ x. x * 2 ^ (n % 8) % 256) v

unfoldable pub shr_u : ℕ → Bytes → Bytes
shr_u n v = map (λ x. x / 2 ^ (n % 8)) v

-- The lanes of 16 bits, and back.
unfoldable pub lanes16 : Bytes → List ℕ
lanes16 [] = []
lanes16 (a ∷ []) = []
lanes16 (a ∷ b ∷ v) = (a + 256 * b) ∷ lanes16 v

unfoldable pub bytes16 : List ℕ → Bytes
bytes16 [] = []
bytes16 (x ∷ xs) = x % 256 ∷ x / 256 % 256 ∷ bytes16 xs

-- The lanes of 32 bits, and back.
unfoldable pub lanes32 : Bytes → List ℕ
lanes32 (a ∷ b ∷ c ∷ d ∷ v) = (a + 256 * b + 65536 * c + 16777216 * d) ∷ lanes32 v
lanes32 _ = []

unfoldable pub bytes32 : List ℕ → Bytes
bytes32 [] = []
bytes32 (x ∷ xs) = x % 256 ∷ x / 256 % 256 ∷ x / 65536 % 256 ∷ x / 16777216 % 256 ∷ bytes32 xs

-- The sums of neighbours.
unfoldable pub pairwise : List ℕ → List ℕ
pairwise [] = []
pairwise (a ∷ []) = []
pairwise (a ∷ b ∷ xs) = (a + b) ∷ pairwise xs

-- A signed 32-bit pattern as an unsigned 16-bit one, cut off at both ends.
abbrev pub saturated : ℕ → ℕ
saturated x = if leb (2 ^ 31) x then 0 else if ltb x 65536 then x else 65535

unfoldable pub take : ℕ → List ℕ → List ℕ
take zero xs = []
take (suc n) [] = []
take (suc n) (x ∷ xs) = x ∷ take n xs

unfoldable pub drop : ℕ → List ℕ → List ℕ
drop zero xs = xs
drop (suc n) [] = []
drop (suc n) (x ∷ xs) = drop n xs
