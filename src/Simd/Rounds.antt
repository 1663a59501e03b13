-- ===== src/Simd/Rounds.antt =====
-- Loops of the machine: a rule for loops that count up and may be left early.
use asmgen.Base.{ℕ, zero, suc, ◌+◌, ◌<◌, ◌≡◌, refl, arith}
use asmgen.Base.Text.{Bytes}
use asmgen.Simd.Code.{Code, loop, close}
use asmgen.Simd.Machine.{
  State, Outcome, next, branch, returned, trap, invalid, running, exec, inside, repeat_loop,
  and_then,
}

and_then-next : (o : Outcome) → and_then o (λ t. next t) ≡ o
and_then-next (next s) = refl
and_then-next (branch l s) = refl
and_then-next (returned s) = refl
and_then-next trap = refl
and_then-next invalid = refl
and_then-next running = refl

module _ (l : Bytes) (body : Code) (state : ℕ → State) where
  -- Round j leaves the loop with this outcome.
  pub record Exits (j : ℕ) (o : Outcome) : Type 0 where
    pub runs : (f : ℕ) → exec f body (inside (state j)) ≡ o
    pub ends : (again : State → Outcome) → repeat_loop l (state j) o again ≡ o

  -- Round j goes on to the next one.
  pub record Repeats (j : ℕ) : Type 0 where
    pub reached : State
    pub runs : (f : ℕ) → exec f body (inside (state j)) ≡ branch l reached
    pub meets :
        (again : State → Outcome)
        → repeat_loop l (state j) (branch l reached) again ≡ again (state (suc j))

  loop-Exits : (f j : ℕ) (o : Outcome) → Exits j o → exec (suc f) (loop l body close) (state j) ≡ o
  unfolding exec
  loop-Exits f j o x = rw (x.runs f, x.ends _) (and_then-next o)

  loop-Repeats :
      (f j : ℕ)
      → Repeats j
      → exec (suc f) (loop l body close) (state j) ≡ exec f (loop l body close) (state (suc j))
  unfolding exec
  loop-Repeats f j x = rw (x.runs f, x.meets _) (and_then-next _)

module _ (l : Bytes) (body : Code) (state : ℕ → State) (P : ℕ → Outcome → Type 0) where
  -- What a round does for `P`, which speaks of the loop's outcome from a round on.
  pub data Round (j : ℕ) : Type 0 where
    exits : {o : Outcome} → Exits l body state j o → P j o → Round j
    repeats : Repeats l body state j → ((o : Outcome) → P (suc j) o → P j o) → Round j

  pub loop_ends :
      (n : ℕ)
      → ((j : ℕ) → j < n → Round j)
      → (o : Outcome) → Exits l body state n o
      → P n o
      → (r f i : ℕ) → i + r ≡ n
      → r < f
      → P i (exec f (loop l body close) (state i))
  loop_ends n round o stop p r zero i e h = absurd (omega arith)
  loop_ends n round o stop p zero (suc f) i e h =
      let i_n : i ≡ n = omega arith in rw i_n (rw (loop-Exits l body state f n o stop) p)
  loop_ends n round o stop p (suc r) (suc f) i e h = elim (round i (omega arith)) [
    | exits x q ↦ rw (loop-Exits l body state f i _ x) q
    | repeats x keep ↦
        rw (loop-Repeats l body state f i x)
          (keep _ (loop_ends n round o stop p r f (suc i) (omega arith) (omega arith)))
  ]

-- A loop whose rounds all go on but the last.
pub loop_runs :
    (l : Bytes) (body : Code) (state : ℕ → State) (n : ℕ)
    → ((j : ℕ) → j < n → Repeats l body state j)
    → (o : Outcome) → Exits l body state n o
    → (f : ℕ) → n < f
    → exec f (loop l body close) (state 0) ≡ o
loop_runs l body state n rounds o stop f h =
    loop_ends l body state (λ _ o'. o' ≡ o) n (λ j j_n. repeats (rounds j j_n) (λ o' e. e)) o stop
      refl n f 0 (omega arith) h
