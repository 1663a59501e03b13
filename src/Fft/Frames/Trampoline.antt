-- ===== src/Fft/Frames/Trampoline.antt =====
-- fft/amd64/frames.go: what the instructions of the function that TwoPass emits do. The stack
-- pointer and the words of the function's own arguments do not change; a kernel that is called may
-- leave any word in AX and in the slots of its arguments.
use asmgen.Base.{
  ℕ, ◌+◌, ◌*◌, ◌/◌, ◌%◌, ◌^◌, ◌<◌, ◌≡◌, refl, arith, List, [], ◌∷◌, ◌++◌, Option, none, some, map,
  ◌==◌, if◌then◌else◌,
}
use asmgen.Base.Text.{Bytes, codes, itoa, tab}

pub data Ins : Type 0 where
  no_local_pointers : Ins
  load : Bytes → ℕ → Ins
  lea : ℕ → Ins
  and_minus_64 : Ins
  store : ℕ → Ins
  store_one : ℕ → Ins
  call : Ins
  return : Ins

-- The line of an instruction in the text of a function.
unfoldable pub spell : Ins → Bytes
unfolding itoa
spell Ins.no_local_pointers = tab ++ codes "NO_LOCAL_POINTERS"
spell (Ins.load name n) =
    tab ++ (codes "MOVQ " ++ (name ++ (codes "+" ++ (itoa n ++ codes "(FP), AX"))))
spell (Ins.lea n) = tab ++ (codes "LEAQ " ++ (itoa n ++ codes "(SP), AX"))
spell Ins.and_minus_64 = tab ++ codes "ANDQ $-64, AX"
spell (Ins.store n) = tab ++ (codes "MOVQ AX, " ++ (itoa n ++ codes "(SP)"))
spell (Ins.store_one n) = tab ++ (codes "MOVQ $1, " ++ (itoa n ++ codes "(SP)"))
spell Ins.call = tab ++ codes "CALL AX"
spell Ins.return = tab ++ codes "RET"

-- AX, and the words of the frame by their distance from the stack pointer.
pub record Machine : Type 0 where
  pub ax : ℕ
  pub slots : ℕ → ℕ

-- A call: the entry point, and the words at 0, 8, 16, 24, 32 and 40 from the stack pointer.
pub record Called : Type 0 where
  pub entry : ℕ
  pub words : List ℕ

-- The last 64-byte boundary at or below a place.
abbrev pub clear_low_six : ℕ → ℕ
clear_low_six n = n / 64 * 64

-- `sp` is the stack pointer and `fp` gives the words of the arguments by their offset.
module _ (sp : ℕ) (fp : ℕ → ℕ) where
  abbrev put : ℕ → ℕ → Machine → Machine
  put n v m = record m { slots = λ k. if k == n then v else m.slots k }

  -- An instruction that neither calls nor returns.
  step : Ins → Machine → Machine
  step Ins.no_local_pointers m = m
  step (Ins.load name n) m = record m { ax = fp n }
  step (Ins.lea n) m = record m { ax = (sp + n) % 2 ^ 64 }
  step Ins.and_minus_64 m = record m { ax = clear_low_six m.ax }
  step (Ins.store n) m = put n m.ax m
  step (Ins.store_one n) m = put n 1 m
  step Ins.call m = m
  step Ins.return m = m

  call_of : Machine → Called
  call_of m = record { entry = m.ax; words = map m.slots (0 ∷ 8 ∷ 16 ∷ 24 ∷ 32 ∷ 40 ∷ []) }

  also : Called → Option (List Called) → Option (List Called)
  also c none = none
  also c (some cs) = some (c ∷ cs)

  -- The calls until the return, and nothing for a code that does not return. `after i` is what is
  -- found when the call number i comes back.
  unfoldable pub run : (after : ℕ → Machine) → ℕ → Machine → List Ins → Option (List Called)
  unfolding step call_of also
  run after i m [] = none
  run after i m (Ins.return ∷ code) = some []
  run after i m (Ins.call ∷ code) = also (call_of m) (run after (i + 1) (after i) code)
  run after i m (ins ∷ code) = run after i (step ins m) code

-- An argument that is passed on in a slot.
abbrev pass : Bytes → ℕ → ℕ → List Ins → List Ins
pass name n slot code = Ins.load name n ∷ Ins.store slot ∷ code

abbrev buffer : ℕ → ℕ → List Ins → List Ins
buffer place slot code = Ins.lea place ∷ Ins.and_minus_64 ∷ Ins.store slot ∷ code

abbrev enter : Bytes → ℕ → List Ins → List Ins
enter name n code = Ins.load name n ∷ Ins.call ∷ code

unfoldable pub trampoline : ℕ → List Ins
trampoline place =
    Ins.no_local_pointers
    ∷ pass (codes "cc") 0 0 (
        buffer place 8 (
          pass (codes "tw") 16 16 (
            pass (codes "k0") 24 24 (
              pass (codes "ido") 40 32 (
                Ins.store_one 40
                ∷ enter (codes "pass") 56 (
                    buffer place 0 (
                      pass (codes "ch") 8 8 (
                        pass (codes "k1") 32 16 (
                          pass (codes "l1") 48 24
                            (enter (codes "last") 64 (Ins.return ∷ [])))))))))))

-- The first pass from `cc` into the buffer at `b`, the last one from the buffer into `ch`; of the
-- last call's six words the kernel reads four, and the others are what the first one has left.
abbrev pub two_calls : (ℕ → ℕ) → (ℕ → Machine) → ℕ → List Called
two_calls fp after b =
    record { entry = fp 56; words = fp 0 ∷ b ∷ fp 16 ∷ fp 24 ∷ fp 40 ∷ 1 ∷ [] }
    ∷ record {
      entry = fp 64;
      words = b ∷ fp 8 ∷ fp 32 ∷ fp 48 ∷ (after 0).slots 32 ∷ (after 0).slots 40 ∷ [];
    }
    ∷ []

run-trampoline_wrapped :
    (sp place : ℕ) (fp : ℕ → ℕ) (after : ℕ → Machine) (m : Machine)
    → run sp fp after 0 m (trampoline place)
      ≡ some (two_calls fp after (clear_low_six ((sp + place) % 2 ^ 64)))
unfolding run trampoline
run-trampoline_wrapped sp place fp after m = refl

pub run-trampoline :
    (sp place : ℕ) (fp : ℕ → ℕ) (after : ℕ → Machine) (m : Machine)
    → sp + place < 2 ^ 64
    → run sp fp after 0 m (trampoline place)
      ≡ some (two_calls fp after (clear_low_six (sp + place)))
run-trampoline sp place fp after m h =
    let same : (sp + place) % 2 ^ 64 ≡ sp + place = omega arith in
    rw (run-trampoline_wrapped sp place fp after m, same) refl
