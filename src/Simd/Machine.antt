-- ===== src/Simd/Machine.antt =====
-- What WebAssembly's core specification says that the instructions do: a stack of values, the
-- function's locals, and a linear memory. A 32-bit integer is its pattern, a number below 2 ^ 32.
mod Values
pub use Values.{
  Value, word, vec, Memory, write_byte, pattern32, immediate, signed32, truth, on_word, on_words,
  on_vec, on_vecs, on_vec_word, compute, first_byte,
}
unfoldable pub use Values.{bytes_at, write_bytes}
use asmgen.Base.{
  ℕ, zero, suc, ◌+◌, ◌-◌, ◌*◌, ◌/◌, ◌%◌, ◌^◌, Bool, true, false, not, List, [], ◌∷◌, ◌++◌, map, ltb,
  leb, ◌==◌, if◌then◌else◌, bit_and, bit_or, Option, none, some, beq,
}
use asmgen.Base.Int.{ℤ, pos, negsuc}
use asmgen.Base.Text.{Bytes}
use asmgen.Wasm.{Param, i32}
use asmgen.Simd.Code.{Op, Code, close, ◌▸◌, br, br_if, return, block, loop, Program}
use asmgen.Simd.Lanes.{
  zip, eq_lane, gt_u_lane, ge_s_lane, le_s_lane, add_lane, sub_lane, repeat, bitmask, all_true,
  ones, trailing, byte_at, swizzle, shl, shr_u, lanes16, bytes16, lanes32, bytes32, pairwise,
  saturated, take, drop,
}

pub record State : Type 0 where
  pub stack : List Value
  pub locals : List (Bytes × Value)
  pub memory : Memory

pub data Outcome : Type 0 where
  -- the instructions were run to their end
  next : State → Outcome
  branch : Bytes → State → Outcome
  returned : State → Outcome
  -- an access outside the memory
  trap : Outcome
  -- code that does not validate
  invalid : Outcome
  -- the fuel was used up
  running : Outcome

abbrev pub lookup : Bytes → List (Bytes × Value) → Option Value
lookup x [] = none
lookup x ((y, v) ∷ l) = if beq x y then some v else lookup x l

abbrev pub assign : Bytes → Value → List (Bytes × Value) → List (Bytes × Value)
assign x v [] = []
assign x v ((y, w) ∷ l) = if beq x y then (y, v) ∷ l else (y, w) ∷ assign x v l

abbrev pub with_stack : State → Option (List Value) → Outcome
with_stack s (some st) = next (record s { stack = st })
with_stack s none = invalid

abbrev pub read_local : State → Option Value → Outcome
read_local s (some v) = next (record s { stack = v ∷ s.stack })
read_local s none = invalid

-- A load of n bytes, of which `f` makes the value.
abbrev pub load : State → ℕ → ℤ → (Bytes → Value) → List Value → Outcome
load s n offset f (word a ∷ st) =
    let b = a + immediate offset in
    if ltb s.memory.size (b + n)
    then trap
    else next (record s { stack = f (bytes_at s.memory b n) ∷ st })
load s n offset f _ = invalid

abbrev pub store : State → ℤ → ℕ → Bytes → List Value → Outcome
store s offset n v (word a ∷ st) =
    let b = a + immediate offset in
    if ltb s.memory.size (b + n)
    then trap
    else next (record s {
      stack = st;
      memory = record { size = s.memory.size; byte = write_bytes s.memory.byte b v };
    })
store s offset n v _ = invalid

abbrev pub set_local : State → Bytes → List Value → Outcome
set_local s x (v ∷ st) = next (record s { stack = st; locals = assign x v s.locals })
set_local s x [] = invalid

abbrev pub tee_local : State → Bytes → List Value → Outcome
tee_local s x (v ∷ st) = next (record s { locals = assign x v s.locals })
tee_local s x [] = invalid

-- The stores take the value off the stack first.
abbrev pub store_vec : State → ℤ → ℕ → (Bytes → Bytes) → List Value → Outcome
store_vec s offset n f (vec v ∷ st) = store s offset n (f v) st
store_vec s offset n f _ = invalid

abbrev pub store_word : State → ℤ → List Value → Outcome
store_word s offset (word x ∷ st) = store s offset 4 (bytes32 (x ∷ [])) st
store_word s offset _ = invalid

abbrev pub step : Op → State → Outcome
step (Op.local_get x) s = read_local s (lookup x s.locals)
step (Op.local_set x) s = set_local s x s.stack
step (Op.local_tee x) s = tee_local s x s.stack
step Op.i32_load8_u s = load s 1 (pos 0) (λ v. word (first_byte v)) s.stack
step (Op.v128_load offset) s = load s 16 offset (λ v. vec v) s.stack
step (Op.i32_store offset) s = store_word s offset s.stack
step (Op.v128_store offset) s = store_vec s offset 16 (λ v. v) s.stack
step (Op.v128_store64_lane offset lane) s =
    store_vec s offset 8 (λ v. take 8 (drop (8 * immediate lane) v)) s.stack
step op s = with_stack s (compute op s.stack)

abbrev pub and_then : Outcome → (State → Outcome) → Outcome
and_then (next s) k = k s
and_then (branch l s) k = branch l s
and_then (returned s) k = returned s
and_then trap k = trap
and_then invalid k = invalid
and_then running k = running

-- The condition that `br_if` takes off the stack.
abbrev pub on_condition : State → (ℕ → State → Outcome) → List Value → Outcome
on_condition s k (word a ∷ st) = k a (record s { stack = st })
on_condition s k _ = invalid

-- All blocks have the type [] → []: the body starts on an empty stack and ends on one, and a branch
-- out of it drops what is there.
abbrev pub inside : State → State
inside s = record s { stack = [] }

abbrev pub outside : State → State → State
outside s t = record t { stack = s.stack }

abbrev pub ended : State → State → List Value → Outcome
ended s t [] = next (outside s t)
ended s t (v ∷ st) = invalid

-- The end of a block's body; a branch to the block's label goes on behind its `End`.
abbrev pub leave : Bytes → State → Outcome → Outcome
leave l s (next t) = ended s t t.stack
leave l s (branch m t) = if beq m l then next (outside s t) else branch m t
leave l s r = r

-- The end of a loop's body; a branch to the loop's label starts it again.
abbrev pub repeat_loop : Bytes → State → Outcome → (State → Outcome) → Outcome
repeat_loop l s (next t) again = ended s t t.stack
repeat_loop l s (branch m t) again = elim (beq m l) [
  | true ↦ again (outside s t)
  | false ↦ branch m t
]
repeat_loop l s r again = r

-- Each start of a loop's body takes one unit of fuel.
unfoldable pub exec : ℕ → Code → State → Outcome
exec n close s = next s
exec n (op ▸ rest) s = and_then (step op s) (λ t. exec n rest t)
exec n (br l rest) s = branch l s
exec n (br_if l rest) s =
    on_condition s (λ a t. elim (a == 0) [ true ↦ exec n rest t | false ↦ branch l t ]) s.stack
exec n (return rest) s = returned s
exec n (block l body rest) s = and_then (leave l s (exec n body (inside s))) (λ t. exec n rest t)
exec zero (loop l body rest) s = running
exec (suc n) (loop l body rest) s =
    and_then (repeat_loop l s (exec n body (inside s)) (λ t. exec n (loop l body close) t))
      (λ t. exec (suc n) rest t)

-- The locals of a call: the arguments, and zeros.
abbrev pub bind : List Param → List Value → List (Bytes × Value)
bind [] args = []
bind (p ∷ ps) [] = []
bind (p ∷ ps) (v ∷ args) = (p.name, v) ∷ bind ps args

abbrev pub zeros : List Param → List (Bytes × Value)
zeros [] = []
zeros (p ∷ ps) = (p.name, if beq p.type i32 then word 0 else vec (repeat 16 0)) ∷ zeros ps

-- A call of a program's function.
abbrev pub call : ℕ → Program → Memory → List Value → Outcome
call n p m args =
    exec n p.code (record { stack = []; locals = bind p.params args ++ zeros p.locals; memory = m })

-- The value that a call gives back, when it comes to its end.
abbrev pub top : List Value → Option Value
top [] = none
top (v ∷ st) = some v

abbrev pub result : Outcome → Option Value
result (next s) = top s.stack
result (returned s) = top s.stack
result _ = none

-- The memory that a call leaves.
abbrev pub left : Outcome → Option Memory
left (next s) = some s.memory
left (returned s) = some s.memory
left _ = none
