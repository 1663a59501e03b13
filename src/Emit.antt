-- ===== src/Emit.antt =====
-- emit/emit.go: the text of Plan 9 functions and files.
pub mod Lines
use asmgen.Base.{ℕ, ◌+◌, ◌≡◌, refl, List, [], ◌∷◌, ◌++◌, length, if◌then◌else◌, beq}
use asmgen.Base.Text.{Bytes, codes, newline, tab, itoa, fmt_int, fmt_hex}

pub record Function : Type 0 where
  pub name : Bytes
  pub flags : Bytes
  pub frame_size : ℕ
  pub args_size : ℕ
  pub body : List Bytes

unfoldable pub new_function : Bytes → Bytes → ℕ → ℕ → Function
new_function name flags frame_size args_size = record {
  name = name;
  flags = flags;
  frame_size = frame_size;
  args_size = args_size;
  body = [];
}

-- `Insn`, of the line that `fmt.Sprintf` has made of the format and its arguments.
unfoldable pub insn : Function → Bytes → Function
insn f line = record f { body = f.body ++ ((tab ++ line) ∷ []) }

unfoldable pub label : Function → Bytes → Function
label f name = record f { body = f.body ++ ((name ++ codes ":") ∷ []) }

-- "·", U+00B7, in UTF-8.
abbrev pub middle_dot : Bytes
middle_dot = 0xc2 ∷ 0xb7 ∷ []

pub header : Function → Bytes
header f =
    codes "TEXT "
    ++ (middle_dot
        ++ (f.name
            ++ (codes "(SB)"
                ++ ((if beq f.flags [] then [] else codes ", " ++ f.flags)
                    ++ (codes ", $"
                        ++ (fmt_int f.frame_size ++ (codes "-" ++ fmt_int f.args_size)))))))

-- `for _, line := range lines { b.WriteString(line + "\n") }`
pub write_lines : List Bytes → Bytes
write_lines [] = []
write_lines (line ∷ lines) = line ++ (newline ++ write_lines lines)

unfoldable pub function_string : Function → Bytes
unfolding header write_lines fmt_int
function_string f = header f ++ (newline ++ write_lines f.body)

pub record DataSym : Type 0 where
  pub name : Bytes
  pub bytes : Bytes

pub record File : Type 0 where
  pub build : Bytes
  pub funcs : List Function
  pub datas : List DataSym

unfoldable pub new_file : Bytes → File
new_file build_arch = record { build = build_arch; funcs = []; datas = [] }

unfoldable pub add : File → Function → File
add fl fn = record fl { funcs = fl.funcs ++ (fn ∷ []) }

-- `Data` also returns the symbol to address in instructions. (Its copy of the bytes is the value.)
unfoldable pub add_data : File → Bytes → Bytes → File × Bytes
add_data fl name b =
    (record fl { datas = fl.datas ++ (record { name = name; bytes = b } ∷ []) }, name ++ codes "<>")

-- The DATA directive of byte i of the symbol.
pub data_line : Bytes → ℕ → ℕ → Bytes
data_line name i by =
    codes "DATA "
    ++ (name ++ (codes "<>+" ++ (itoa i ++ (codes "(SB)/1, $0x" ++ (fmt_hex 2 by ++ newline)))))

pub data_lines : Bytes → ℕ → Bytes → Bytes
data_lines name i [] = []
data_lines name i (by ∷ bytes) = data_line name i by ++ data_lines name (i + 1) bytes

pub globl_line : DataSym → Bytes
globl_line d =
    codes "GLOBL "
    ++ (d.name
        ++ (codes "<>(SB), RODATA|NOPTR, $" ++ (itoa (length d.bytes) ++ (newline ++ newline))))

pub write_funcs : List Function → Bytes
write_funcs [] = []
write_funcs (fn ∷ fns) = function_string fn ++ (newline ++ write_funcs fns)

pub write_datas : List DataSym → Bytes
write_datas [] = []
write_datas (d ∷ ds) = data_lines d.name 0 d.bytes ++ (globl_line d ++ write_datas ds)

unfoldable pub file_string : File → Bytes
unfolding function_string write_funcs write_datas data_lines data_line globl_line itoa fmt_hex
file_string fl =
    codes "// Code generated by go-asmgen. DO NOT EDIT.\n\n"
    ++ ((if beq fl.build [] then [] else codes "//go:build " ++ (fl.build ++ codes "\n\n"))
        ++ (codes "#include \"textflag.h\"\n\n" ++ (write_funcs fl.funcs ++ write_datas fl.datas)))
