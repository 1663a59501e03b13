-- ===== src/Examples/Kernels.antt =====
-- wasm/emit.go: a function with a block, and its module.
use asmgen.Base.{ℕ, suc, ◌≡◌, refl, arith, some, [], ◌∷◌, All, ◌&◌}
use asmgen.Base.Text.{codes}
use asmgen.Emit.Lines.{lines, IsLine}
use asmgen.Wasm.{
  Function, new_function, i32, function_string, block, end, local_get, Module, new_module,
  import_memory, add, module_string, header,
}
use asmgen.Wasm.Ops.{i32_ctz}
use asmgen.Wasm.Nesting.{depth, Step, Steps, IsPlain, Takes}
use asmgen.Wasm.Balance.{function_string-Balanced}
use asmgen.Wasm.Lines.{IsLineByLine, module_lines, lines-module_string}

abbrev empty : Function
empty = new_function (codes "ctz") (codes "ctz") [] (i32 ∷ [])

-- (block $b, local.get, i32.ctz, ")".
abbrev opened : Function
opened = (block empty (codes "b")).0

abbrev ctz : Function
ctz = end (i32_ctz (local_get opened (codes "x")))

plain_x : (e : ℕ) → Takes (suc e) (codes "(local.get $x)") (suc e)
unfolding depth
plain_x e t = refl

plain_ctz : (e : ℕ) → Takes (suc e) (codes "(i32.ctz)") (suc e)
unfolding depth
plain_ctz e t = refl

ctz-Steps : Steps empty 0 ctz 0
ctz-Steps =
    Steps.then
      (Steps.then
        (Steps.then
          (Steps.then Steps.start (Step.block_op (codes "b") ((omega arith, omega arith), tt)))
          (Step.line_op (codes "(local.get $x)") plain_x))
        (Step.line_op (codes "(i32.ctz)") plain_ctz))
      Step.end_op

ctz-IsPlain : IsPlain (codes "ctz")
ctz-IsPlain =
    (omega arith, omega arith) & (omega arith, omega arith) & (omega arith, omega arith) & tt

i32-IsPlain : IsPlain i32
i32-IsPlain =
    (omega arith, omega arith) & (omega arith, omega arith) & (omega arith, omega arith) & tt

function_string-Balanced_example : depth 0 (function_string ctz) ≡ some 0
function_string-Balanced_example =
    function_string-Balanced (codes "ctz") (codes "ctz") [] (i32 ∷ []) ctz ctz-IsPlain ctz-IsPlain
      tt (i32-IsPlain & tt) ctz-Steps

abbrev host : Module
host = add (import_memory new_module (codes "env") (codes "mem")) ctz

import_line : All IsLine host.imports
import_line = omega arith & tt

ctz_lines : IsLineByLine ctz
unfolding header
ctz_lines = (omega arith, tt, omega arith & omega arith & omega arith & omega arith & tt)

lines-module_string_example : lines (module_string host) ≡ module_lines host
lines-module_string_example = lines-module_string host import_line (ctz_lines & tt)
