-- ===== src/Fft/Frames/Fits.antt =====
-- fft/amd64/frames.go: the buffers in the frame.
use asmgen.Base.{
  ℕ, ◌+◌, ◌*◌, ◌/◌, ◌%◌, ◌^◌, ◌≤◌, ◌<◌, ◌≡◌, refl, arith, List, ◌∷◌, [], ◌++◌, map, some,
}
use asmgen.Base.Bits.{bit_and_ones}
use asmgen.Base.Text.{Bytes}
use asmgen.Base.Panics.{ok}
use asmgen.Emit.{File}
use asmgen.Fft.Frames.Trampoline.{
  Machine, spell, run, trampoline, clear_low_six, two_calls, run-trampoline,
}
use asmgen.Fft.Frames.{
  two_pass_place, three_pass_place, round8, two_pass_frame, three_pass_frame, two_pass, three_pass,
}

-- What `LEAQ place(SP)` and `ANDQ $-64` leave where the sum does not wrap: the low six bits are cleared.
abbrev pub buffer_at : ℕ → ℕ → ℕ
buffer_at sp place = clear_low_six (sp + place)

round8_value : (n : ℕ) → n < 2 ^ 60 → round8 n ≡ (n + 7) / 8 * 8
round8_value n h = omega (arith, bit_and_ones 3 ((n + 7) % 2 ^ 64))

-- For at most 2 ^ 50 points and a frame that does not wrap around the 64-bit addresses: TwoPass
-- panics on no name and adds one function, with no flags, 72 bytes of arguments and a body that is
-- the text of `trampoline`. Run on any registers and stack, that code returns after two calls, in
-- this order: the kernel at `pass` with the words cc, B, tw, k0, ido, 1, and the kernel at `last`
-- with the words B, ch, k1, l1, whatever the first kernel leaves in AX and in the slots. The buffer
-- B begins behind the callees' arguments, on a 64-byte boundary, and ends with its last point in
-- the frame.
pub two_pass_fits :
    (f : File) (name : Bytes) (max sp : ℕ) (fp : ℕ → ℕ) (after : ℕ → Machine) (m : Machine)
    → max < 2 ^ 50
    → sp + two_pass_frame max < 2 ^ 64
    → (two_pass f name max
        ≡ ok (record f {
          funcs =
              f.funcs
              ++ (record {
                name = name;
                flags = [];
                frame_size = two_pass_frame max;
                args_size = 72;
                body = map spell (trampoline two_pass_place);
              }
                  ∷ []);
        }))
      × (run sp fp after 0 m (trampoline two_pass_place)
          ≡ some (two_calls fp after (buffer_at sp two_pass_place)))
      × (sp + 48 ≤ buffer_at sp two_pass_place)
      × (buffer_at sp two_pass_place % 64 ≡ 0)
      × (buffer_at sp two_pass_place + 16 * max ≤ sp + two_pass_frame max)
unfolding two_pass spell trampoline
two_pass_fits f name max sp fp after m h room =
    let rounded = round8_value (48 + 63 + 16 * max) (omega arith) in
    (
      refl,
      run-trampoline sp two_pass_place fp after m (omega (arith, rounded)),
      omega arith,
      omega arith,
      omega (arith, rounded),
    )

-- For at most 2 ^ 50 points: ThreePass panics on no name and adds one function, with no flags and 120
-- bytes of arguments. Of the sizes: at any stack pointer the last 64-byte boundary at or below the
-- place is behind x, and two buffers from there, one behind the other, end in the frame.
pub three_pass_fits :
    (f : File) (name : Bytes) (max sp : ℕ)
    → max < 2 ^ 50
    → (body : List Bytes) × (three_pass f name max
        ≡ ok (record f {
          funcs =
              f.funcs
              ++ (record {
                name = name;
                flags = [];
                frame_size = three_pass_frame max;
                args_size = 120;
                body = body;
              }
                  ∷ []);
        }))
      × (sp + 56 ≤ buffer_at sp three_pass_place)
      × (buffer_at sp three_pass_place % 64 ≡ 0)
      × (buffer_at sp three_pass_place + 16 * max + 16 * max ≤ sp + three_pass_frame max)
unfolding three_pass
three_pass_fits f name max sp h = (
  _,
  refl,
  omega arith,
  omega arith,
  omega (arith, round8_value (56 + 63 + 2 * (16 * max)) (omega arith)),
)
