-- ===== src/Examples/Texts.antt =====
-- Base/Text and emit/emit.go: small runs.
use asmgen.Base.{◌^◌, ◌-◌, ◌≡◌, refl, some, ◌++◌}
use asmgen.Base.Text.{codes, itoa, fmt_int, fmt_hex, parse_uint}
use asmgen.Emit.{function_string, insn, new_function, middle_dot}

itoa_run : itoa 2048 ≡ codes "2048"
unfolding itoa
itoa_run = refl

fmt_int_run : fmt_int (2 ^ 64 - 8) ≡ codes "-8"
unfolding fmt_int
fmt_int_run = refl

fmt_hex_run : fmt_hex 8 0xf0300 ≡ codes "000f0300"
unfolding fmt_hex
fmt_hex_run = refl

parse_uint_run : parse_uint 16 (codes "000f0300") ≡ some 0xf0300
unfolding parse_uint
parse_uint_run = refl

function_string_run :
    function_string (insn (new_function (codes "f") (codes "NOSPLIT") 0 16) (codes "RET"))
    ≡ codes "TEXT " ++ (middle_dot ++ codes "f(SB), NOSPLIT, $0-16\n\tRET\n")
unfolding function_string insn new_function
function_string_run = refl
