-- ===== src/Wasm.antt =====
-- wasm/emit.go: functions and modules as WebAssembly text.
pub mod Ops
pub mod Lanes
pub mod Nesting
pub mod Balance
pub mod Methods
pub mod Lines
use asmgen.Base.{
  ℕ, Bool, true, false, List, [], ◌∷◌, ◌++◌, Option, none, some, beq, length, ltb, ◌==◌, ◌||◌, not,
  ◌-◌, ◌^◌, if◌then◌else◌,
}
use asmgen.Base.Int.{ℤ, pos, negsuc, ltb_ℤ}
use asmgen.Base.Text.{Bytes, codes, newline, fmt_ℤ, itoa}
use asmgen.Base.Panics.{Result, ok, panic, Panic}

-- A `ValueType` is a string.
abbrev pub ValueType : Type 0
ValueType = Bytes

abbrev pub i32 : ValueType
i32 = codes "i32"

abbrev pub i64 : ValueType
i64 = codes "i64"

abbrev pub f32 : ValueType
f32 = codes "f32"

abbrev pub f64 : ValueType
f64 = codes "f64"

abbrev pub v128 : ValueType
v128 = codes "v128"

pub record Param : Type 0 where
  pub name : Bytes
  pub type : ValueType

pub record Function : Type 0 where
  pub name : Bytes
  pub export_name : Bytes
  pub params : List Param
  pub results : List ValueType
  pub locals : List Param
  pub body : List Bytes

abbrev pub new_function : Bytes → Bytes → List Param → List ValueType → Function
new_function name export_name params results = record {
  name = name;
  export_name = export_name;
  params = params;
  results = results;
  locals = [];
  body = [];
}

-- The method `Local`.
abbrev pub add_local : Function → Bytes → ValueType → Function × Bytes
add_local f name t =
    (record f { locals = f.locals ++ (record { name = name; type = t } ∷ []) }, codes "$" ++ name)

-- `Raw`, of the line that its format makes.
abbrev pub raw : Function → Bytes → Function
raw f line = record f { body = f.body ++ ((codes "    " ++ line) ∷ []) }

-- `Op`; `args` is what fmt.Sprint makes of the arguments, when there are any.
abbrev pub op : Function → Bytes → Option Bytes → Function
op f name (some args) = raw f (codes "(" ++ (name ++ (codes " " ++ (args ++ codes ")"))))
op f name none = raw f (codes "(" ++ (name ++ codes ")"))

abbrev pub local_get : Function → Bytes → Function
local_get f name = raw f (codes "(local.get $" ++ (name ++ codes ")"))

abbrev pub local_set : Function → Bytes → Function
local_set f name = raw f (codes "(local.set $" ++ (name ++ codes ")"))

abbrev pub local_tee : Function → Bytes → Function
local_tee f name = raw f (codes "(local.tee $" ++ (name ++ codes ")"))

unfoldable pub i32_const : Function → ℤ → Function
unfolding fmt_ℤ
i32_const f v = raw f (codes "(i32.const " ++ (fmt_ℤ v ++ codes ")"))

unfoldable pub v128_load : Function → ℤ → Function
unfolding fmt_ℤ
v128_load f offset = raw f (codes "(v128.load offset=" ++ (fmt_ℤ offset ++ codes ")"))

unfoldable pub v128_store : Function → ℤ → Function
unfolding fmt_ℤ
v128_store f offset = raw f (codes "(v128.store offset=" ++ (fmt_ℤ offset ++ codes ")"))

unfoldable pub i32_store : Function → ℤ → Function
unfolding fmt_ℤ
i32_store f offset = raw f (codes "(i32.store offset=" ++ (fmt_ℤ offset ++ codes ")"))

unfoldable pub v128_store64_lane : Function → ℤ → ℤ → Result Function
unfolding fmt_ℤ
v128_store64_lane f offset lane =
    if ltb_ℤ lane (pos 0) || ltb_ℤ (pos 1) lane
    then panic (Panic.message (codes "V128Store64Lane needs lane 0..1"))
    else ok (
        raw f (
          codes "(v128.store64_lane offset="
          ++ (fmt_ℤ offset ++ (codes " " ++ (fmt_ℤ lane ++ codes ")")))))

unfoldable pub i32x4_extract_lane : Function → ℤ → Result Function
unfolding fmt_ℤ
i32x4_extract_lane f lane =
    if ltb_ℤ lane (pos 0) || ltb_ℤ (pos 3) lane
    then panic (Panic.message (codes "I32x4ExtractLane needs lane 0..3"))
    else ok (raw f (codes "(i32x4.extract_lane " ++ (fmt_ℤ lane ++ codes ")")))

-- `int8(v)` of a byte.
abbrev pub int8 : ℕ → ℤ
int8 v = if ltb v 128 then pos v else negsuc (255 - v)

-- The loops that write " %d" for each byte.
unfoldable pub signed_bytes : Bytes → Bytes
unfolding fmt_ℤ
signed_bytes [] = []
signed_bytes (v ∷ b) = codes " " ++ (fmt_ℤ (int8 v) ++ signed_bytes b)

unfoldable pub unsigned_bytes : Bytes → Bytes
unfolding itoa
unsigned_bytes [] = []
unsigned_bytes (v ∷ b) = codes " " ++ (itoa v ++ unsigned_bytes b)

unfoldable pub v128_const16 : Function → Bytes → Result Function
unfolding signed_bytes
v128_const16 f b =
    if not (length b == 16)
    then panic (Panic.message (codes "V128Const16 needs exactly 16 bytes"))
    else ok (raw f (codes "(v128.const i8x16" ++ (signed_bytes b ++ codes ")")))

unfoldable pub i8x16_shuffle : Function → Bytes → Result Function
unfolding unsigned_bytes
i8x16_shuffle f imm =
    if not (length imm == 16)
    then panic (Panic.message (codes "I8x16Shuffle needs 16 immediates"))
    else ok (raw f (codes "(i8x16.shuffle" ++ (unsigned_bytes imm ++ codes ")")))

-- A `Label` holds a name.
pub record Label : Type 0 where
  pub name : Bytes

abbrev pub block : Function → Bytes → Function × Label
block f name = (raw f (codes "(block $" ++ name), record { name = name })

abbrev pub loop : Function → Bytes → Function × Label
loop f name = (raw f (codes "(loop $" ++ name), record { name = name })

abbrev pub end : Function → Function
end f = raw f (codes ")")

abbrev pub br_if : Function → Label → Function
br_if f label = raw f (codes "(br_if $" ++ (label.name ++ codes ")"))

abbrev pub br : Function → Label → Function
br f label = raw f (codes "(br $" ++ (label.name ++ codes ")"))

-- The parts of the line that `String` begins with.
abbrev pub export_text : Bytes → Bytes
export_text [] = []
export_text (c ∷ name) = codes " (export \"" ++ ((c ∷ name) ++ codes "\")")

pub params_text : List Param → Bytes
params_text [] = []
params_text (p ∷ params) =
    codes " (param $" ++ (p.name ++ (codes " " ++ (p.type ++ (codes ")" ++ params_text params))))

pub results_text : List ValueType → Bytes
results_text [] = []
results_text (r ∷ results) = codes " (result " ++ (r ++ (codes ")" ++ results_text results))

unfoldable pub header : Function → Bytes
unfolding params_text results_text
header f =
    codes "  (func $"
    ++ (f.name ++ (export_text f.export_name ++ (params_text f.params ++ results_text f.results)))

pub local_line : Param → Bytes
local_line l = codes "    (local $" ++ (l.name ++ (codes " " ++ (l.type ++ codes ")")))

pub locals_text : List Param → Bytes
unfolding local_line
locals_text [] = []
locals_text (l ∷ locals) = local_line l ++ (newline ++ locals_text locals)

pub body_text : List Bytes → Bytes
body_text [] = []
body_text (line ∷ body) = line ++ (newline ++ body_text body)

-- The method `String` of a function.
unfoldable pub function_string : Function → Bytes
unfolding header locals_text body_text
function_string f =
    header f
    ++ (newline ++ (locals_text f.locals ++ (body_text f.body ++ (codes "  )" ++ newline))))

pub record Module : Type 0 where
  pub imports : List Bytes
  pub funcs : List Function

abbrev pub new_module : Module
new_module = record { imports = []; funcs = [] }

abbrev pub import_memory : Module → Bytes → Bytes → Module
import_memory m namespace name = record m {
  imports =
      m.imports
      ++ ((codes "  (import \""
            ++ (namespace ++ (codes "\" \"" ++ (name ++ codes "\" (memory 0))"))))
          ∷ []);
}

abbrev pub add : Module → Function → Module
add m fn = record m { funcs = m.funcs ++ (fn ∷ []) }

pub funcs_text : List Function → Bytes
unfolding function_string
funcs_text [] = []
funcs_text (fn ∷ funcs) = function_string fn ++ funcs_text funcs

-- The method `String` of a module.
unfoldable pub module_string : Module → Bytes
unfolding funcs_text body_text
module_string m =
    codes ";; Code generated by go-asmgen/asmgen/wasm. DO NOT EDIT."
    ++ (newline
        ++ (newline
            ++ (codes "(module"
                ++ (newline
                    ++ (body_text m.imports ++ (funcs_text m.funcs ++ (codes ")" ++ newline)))))))
