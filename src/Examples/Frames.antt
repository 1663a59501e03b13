-- ===== src/Examples/Frames.antt =====
-- fft/amd64/frames.go at 64 points, and the arguments of a kernel.
use asmgen.Base.{ℕ, map, some, ◌+◌, ◌*◌, ◌%◌, ◌≤◌, ◌≡◌, refl, arith, List, ◌∷◌, [], ◌++◌}
use asmgen.Base.Text.{Bytes, codes, newline}
use asmgen.Base.Panics.{ok}
use asmgen.Emit.{File}
use asmgen.Abi.{Signature, ScalarType, ptr, int64, layout}
use asmgen.Fft.Frames.{two_pass, two_pass_frame, two_pass_place, funcdata}
use asmgen.Fft.Frames.Trampoline.{Machine, spell, run, trampoline, two_calls}
use asmgen.Fft.Frames.Fits.{buffer_at, two_pass_fits}

abbrev file : File
file = record { build = codes "amd64"; funcs = []; datas = [] }

-- The arguments' words are 100 and their offset; the first kernel leaves its own number behind.
abbrev words_at : ℕ → ℕ
words_at n = 100 + n

abbrev at_start : Machine
at_start = record { ax = 5; slots = λ k. 0 }

abbrev behind : ℕ → Machine
behind n = record { ax = n; slots = λ k. 7 }

two_pass_fits_example :
    (two_pass file (codes "twoPass64") 64
      ≡ ok (record file {
        funcs =
            record {
              name = codes "twoPass64";
              flags = [];
              frame_size = two_pass_frame 64;
              args_size = 72;
              body = map spell (trampoline two_pass_place);
            }
            ∷ [];
      }))
    × (run 1000 words_at behind 0 at_start (trampoline two_pass_place)
        ≡ some (two_calls words_at behind (buffer_at 1000 two_pass_place)))
    × (1000 + 48 ≤ buffer_at 1000 two_pass_place)
    × (buffer_at 1000 two_pass_place % 64 ≡ 0)
    × (buffer_at 1000 two_pass_place + 16 * 64 ≤ 1000 + two_pass_frame 64)
two_pass_fits_example =
    two_pass_fits file (codes "twoPass64") 64 1000 words_at behind at_start (omega arith)
      (omega arith)

buffer_at_1000 : buffer_at 1000 two_pass_place ≡ 1088
buffer_at_1000 = refl

two_pass_64 : two_pass_frame 64 ≡ 1136
two_pass_64 = refl

funcdata_run :
    funcdata (codes "#include \"textflag.h\"" ++ (newline ++ codes "TEXT"))
    ≡ codes "#include \"textflag.h\""
      ++ (newline ++ (codes "#include \"funcdata.h\"" ++ (newline ++ codes "TEXT")))
unfolding funcdata
funcdata_run = refl

abbrev names : List Bytes
names = codes "cc" ∷ codes "ch" ∷ codes "ido" ∷ []

abbrev types : List ScalarType
types = ptr ∷ ptr ∷ int64 ∷ []

abbrev kernel_sig : Signature
kernel_sig = record {
  args =
      record { name = codes "cc"; type = ptr; offset = 0 }
      ∷ record { name = codes "ch"; type = ptr; offset = 8 }
      ∷ record { name = codes "ido"; type = int64; offset = 16 }
      ∷ [];
  rets = [];
  args_size = 24;
}

kernel_layout : layout names types [] [] ≡ ok kernel_sig
unfolding layout
kernel_layout = refl
