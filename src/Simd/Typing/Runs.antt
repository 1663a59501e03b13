-- ===== src/Simd/Typing/Runs.antt =====
-- Code that validates does not go wrong, however long it runs.
use asmgen.Base.{
  ℕ, zero, suc, ◌≡◌, refl, ap, ◌∙◌, sym, subst, Bool, true, false, ◌⊎◌, inl, inr, List, [], ◌∷◌,
  Option, some, none, beq, if◌then◌else◌, Bool-cases, ◌==◌,
}
use mathlib.Core.Option.{some_inj}
use asmgen.Base.Text.{Bytes}
use asmgen.Simd.Code.{Op, Code, close, ◌▸◌, br, br_if, return, block, loop}
use asmgen.Simd.Machine.{
  Value, word, vec, State, Outcome, next, branch, returned, trap, running, step, exec, and_then,
  leave, repeat_loop, on_condition, inside, outside, ended,
}
use asmgen.Simd.Typing.{
  Shape, op_flow, Exit, falls, departs, has_label, begins_with, after_body, flow_then, condition,
  check,
}
use asmgen.Simd.Typing.Sound.{shapes}
use asmgen.Simd.Typing.Steps.{context, Goes, goes, traps, step-Sound}

-- What code of this exit may come to.
pub data Fine (Γ : List (Bytes × Shape)) (ls : List Bytes) (R : List Shape) (e : Exit)
    : Outcome → Type 0 where
  fine_next :
      {t : State} (τ : List Shape)
      → e ≡ falls τ
      → shapes t.stack ≡ τ
      → context t.locals ≡ Γ
      → Fine Γ ls R e (next t)
  fine_branch :
      {l : Bytes} {t : State}
      → has_label l ls ≡ true
      → context t.locals ≡ Γ
      → Fine Γ ls R e (branch l t)
  fine_returned : {t : State} → begins_with R (shapes t.stack) ≡ true → Fine Γ ls R e (returned t)
  fine_trap : Fine Γ ls R e trap
  fine_running : Fine Γ ls R e running

module _ {Γ : List (Bytes × Shape)} {ls : List Bytes} {R : List Shape} where
  -- One part behind another.
  Fine-and_then :
      {d e : Exit} {o : Outcome} {k : State → Outcome}
      → Fine Γ ls R d o
      → ((t : State) (τ : List Shape)
          → d ≡ falls τ
          → shapes t.stack ≡ τ
          → context t.locals ≡ Γ
          → Fine Γ ls R e (k t))
      → Fine Γ ls R e (and_then o k)
  Fine-and_then (fine_next {t} τ h s c) f = f t τ h s c
  Fine-and_then (fine_branch h c) f = fine_branch h c
  Fine-and_then (fine_returned h) f = fine_returned h
  Fine-and_then fine_trap f = fine_trap
  Fine-and_then fine_running f = fine_running

  Fine-step :
      {e : Exit} {o : Outcome} {k : State → Outcome} {τ : List Shape}
      → Goes Γ τ o
      → ((t : State) → shapes t.stack ≡ τ → context t.locals ≡ Γ → Fine Γ ls R e (k t))
      → Fine Γ ls R e (and_then o k)
  Fine-step (goes {t} h c) f = f t h c
  Fine-step traps f = fine_trap

  Fine-condition :
      {e : Exit} (s : State) (st : List Value) (K : ℕ → State → Outcome)
      (k : List Shape → Option Exit)
      → context s.locals ≡ Γ
      → condition (shapes st) k ≡ some e
      → ((a : ℕ) (t : State)
          → context t.locals ≡ Γ
          → k (shapes t.stack) ≡ some e
          → Fine Γ ls R e (K a t))
      → Fine Γ ls R e (on_condition s K st)
  Fine-condition s [] K k c h f = cc
  Fine-condition s (word a ∷ st) K k c h f = f a _ c h
  Fine-condition s (vec v ∷ st) K k c h f = cc

  Fine-branch_or :
      {e : Exit} {o : Outcome} (b : Bool) (l : Bytes) (t : State)
      → has_label l ls ≡ true
      → context t.locals ≡ Γ
      → Fine Γ ls R e o
      → Fine Γ ls R e (elim b [ true ↦ o | false ↦ branch l t ])
  Fine-branch_or true l t h c f = f
  Fine-branch_or false l t h c f = fine_branch h c

  -- A block's body, ended or left.
  Fine-ended :
      (s t : State) (st : List Value) (σ : List Shape)
      → shapes st ≡ []
      → shapes s.stack ≡ σ
      → context t.locals ≡ Γ
      → Fine Γ ls R (falls σ) (ended s t st)
  Fine-ended s t [] σ h k c = fine_next σ refl k c
  Fine-ended s t (v ∷ st) σ h k c = cc

-- The exits that a block's body may have.
IsBody : Exit → Type 0
IsBody d = (d ≡ departs) ⊎ (d ≡ falls [])

body_stack : (d : Exit) (τ : List Shape) → IsBody d → d ≡ falls τ → τ ≡ []
unfolding IsBody
body_stack d τ (inl e) h = cc
body_stack d τ (inr e) h = cc

module _ {Γ : List (Bytes × Shape)} {ls : List Bytes} {R : List Shape} (l : Bytes) (s : State) where
  Fine-leave :
      {d : Exit} {o : Outcome} (σ : List Shape)
      → Fine Γ (l ∷ ls) R d o
      → IsBody d
      → shapes s.stack ≡ σ
      → Fine Γ ls R (falls σ) (leave l s o)
  Fine-leave σ (fine_next {t} τ h q c) b k = Fine-ended s t t.stack σ (q ∙ body_stack _ τ b h) k c
  Fine-leave σ (fine_branch {l = m} {t = t} h c) b k = elim (Bool-cases (beq m l)) [
    | inl e ↦ rw e (fine_next σ refl k c)
    | inr e ↦ let h' : has_label m ls ≡ true = rw e at h in rw e (fine_branch h' c)
  ]
  Fine-leave σ (fine_returned h) b k = fine_returned h
  Fine-leave σ fine_trap b k = fine_trap
  Fine-leave σ fine_running b k = fine_running

  Fine-repeat_loop :
      {d : Exit} {o : Outcome} (σ : List Shape) (again : State → Outcome)
      → Fine Γ (l ∷ ls) R d o
      → IsBody d
      → shapes s.stack ≡ σ
      → ((t : State) → shapes t.stack ≡ σ → context t.locals ≡ Γ → Fine Γ ls R (falls σ) (again t))
      → Fine Γ ls R (falls σ) (repeat_loop l s o again)
  Fine-repeat_loop σ again (fine_next {t} τ h q c) b k f =
      Fine-ended s t t.stack σ (q ∙ body_stack _ τ b h) k c
  Fine-repeat_loop σ again (fine_branch {l = m} {t = t} h c) b k f = elim (Bool-cases (beq m l)) [
    | inl e ↦ rw (e, repeat_loop) (f (outside s t) k c)
    | inr e ↦ let h' : has_label m ls ≡ true = rw e at h in rw (e, repeat_loop) (fine_branch h' c)
  ]
  Fine-repeat_loop σ again (fine_returned h) b k f = fine_returned h
  Fine-repeat_loop σ again fine_trap b k f = fine_trap
  Fine-repeat_loop σ again fine_running b k f = fine_running

flow_then-some :
    (o : Option (List Shape)) (k : List Shape → Option Exit) (e : Exit)
    → flow_then o k ≡ some e
    → (τ : List Shape) × (o ≡ some τ) × (k τ ≡ some e)
flow_then-some none k e h = cc
flow_then-some (some τ) k e h = (τ, refl, h)

after_body-some :
    (b r : Option Exit) (e : Exit)
    → after_body b r ≡ some e
    → (d : Exit) × (b ≡ some d) × IsBody d × (r ≡ some e)
unfolding IsBody
after_body-some none r e h = cc
after_body-some (some departs) r e h = (departs, refl, inl refl, h)
after_body-some (some (falls [])) r e h = (falls [], refl, inr refl, h)
after_body-some (some (falls (s ∷ σ))) r e h = cc

after_body_ok :
    {b : Option Exit} {d : Exit} {r : Option Exit} → b ≡ some d → IsBody d → after_body b r ≡ r
unfolding IsBody
after_body_ok h (inl e) = rw (h, e) refl
after_body_ok h (inr e) = rw (h, e) refl

same_stack : (a b c : List Shape) → falls a ≡ falls b → c ≡ b → c ≡ a
same_stack a b c h k = cc

guard_some :
    (b : Bool) (r : Option Exit) (e : Exit)
    → (if b then r else none) ≡ some e
    → (b ≡ true) × (r ≡ some e)
guard_some true r e h = (refl, h)
guard_some false r e h = cc

typed_step :
    (op : Op) (s : State) (Γ : List (Bytes × Shape)) (τ : List Shape)
    → op_flow Γ op (shapes s.stack) ≡ some τ
    → context s.locals ≡ Γ
    → Goes Γ τ (step op s)
typed_step op s Γ τ f c = subst (λ g. Goes g τ (step op s)) c (step-Sound op s τ (rw c f))

-- Code in which every operation finds the operands that its type asks for, every branch a label around
-- it, and every return the function's results, comes to no `invalid`: it goes on with the stack that
-- its exit says and the locals' types as they were, branches to a label around it, returns with the
-- results on top of the stack, traps, or has used up its fuel.
pub exec-Fine :
    (n : ℕ) (code : Code) (Γ : List (Bytes × Shape)) (ls : List Bytes) (R : List Shape) (e : Exit)
    (s : State)
    → check Γ ls R code (shapes s.stack) ≡ some e
    → context s.locals ≡ Γ
    → Fine Γ ls R e (exec n code s)
unfolding exec check
exec-Fine n close Γ ls R e s h c = fine_next _ (sym (some_inj.0 h)) refl c
exec-Fine n (op ▸ rest) Γ ls R e s h c =
    let (τ, f, h') = flow_then-some (op_flow Γ op (shapes s.stack)) _ e h in
    Fine-step (typed_step op s Γ τ f c) (λ t q c'. exec-Fine n rest Γ ls R e t (rw q h') c')
exec-Fine n (br l rest) Γ ls R e s h c = fine_branch (guard_some (has_label l ls) _ e h).0 c
exec-Fine n (br_if l rest) Γ ls R e s h c = Fine-condition s s.stack _ _ c h (λ a t c' k.
    let g = guard_some (has_label l ls) _ e k in
    Fine-branch_or (a == 0) l t g.0 c' (exec-Fine n rest Γ ls R e t g.1 c'))
exec-Fine n (return rest) Γ ls R e s h c =
    fine_returned (guard_some (begins_with R (shapes s.stack)) _ e h).0
exec-Fine n (block l body rest) Γ ls R e s h c =
    let (d, b, w, r) = after_body-some (check Γ (l ∷ ls) R body []) _ e h in
    Fine-and_then
      (Fine-leave l s (shapes s.stack) (exec-Fine n body Γ (l ∷ ls) R d (inside s) b c) w refl)
      (λ t τ f q c'. exec-Fine n rest Γ ls R e t (rw (same_stack _ τ _ f q) r) c')
exec-Fine zero (loop l body rest) Γ ls R e s h c = fine_running
exec-Fine (suc n) (loop l body rest) Γ ls R e s h c =
    let (d, b, w, r) = after_body-some (check Γ (l ∷ ls) R body []) _ e h in
    Fine-and_then
      (Fine-repeat_loop l s (shapes s.stack) _ (exec-Fine n body Γ (l ∷ ls) R d (inside s) b c) w
        refl
        (λ t q c'.
          exec-Fine n (loop l body close) Γ ls R _ t
            (after_body_ok b w ∙ ap (λ σ. some (falls σ)) q) c'))
      (λ t τ f q c'. exec-Fine (suc n) rest Γ ls R e t (rw (same_stack _ τ _ f q) r) c')
