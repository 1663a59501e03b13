-- ===== src/Lib.antt =====
-- asmgen: ABI0 frame layout and Plan 9 assembly text for the 64-bit targets of Go.
--
-- The program. A generator describes a Go function by its arguments and results (abi/abi.go), which
-- LayoutArgs turns into slots with frame offsets. A Builder of one of six architecture packages
-- (amd64/amd64.go, arm64/arm64.go, riscv64/riscv64.go, loong64/loong64.go, ppc64/ppc64.go,
-- s390x/s390x.go) collects instruction lines, among them the moves between slots and registers, whose
-- mnemonics and offsets come from the package's move table and from the layout; emit/emit.go renders
-- functions and files. wasm/emit.go collects and renders WebAssembly text alike. For instructions that Go's assembler lacks, internal/gap holds a registry of
-- entries with an encoder, an opcode test and reference encodings, and tools/goasmgap holds a Go
-- toolchain against them.
--
-- The files.
--   Base        numbers, lists, tests, bit operations, decimal and hexadecimal text, panics as values
--   Abi         abi/abi.go, one definition per function; Abi/Spec is the layout as a relation with no
--               machine arithmetic, and the files beside it compare the two
--   Emit        emit/emit.go
--   Builder     the methods that the six packages spell alike, over a record of what differs
--   Amd64 Arm64 Riscv64 Loong64 Ppc64 S390x   the move tables and the methods over them
--   Arm64/Elem Arm64/Vfp Loong64/Lasx Loong64/Csr Ppc64/Vsx S390x/Vxe   the methods of arm64/elem.go,
--               arm64/vfp.go, loong64/lasx.go, loong64/csr.go, ppc64/vsx.go and s390x/vxe.go, which
--               emit vector instructions; Gap/Words is what those over the registry share
--   Amd64/Machine Amd64/Feature Amd64/Vendor   amd64/feature.go: the instructions of a probe with a
--               meaning over a processor, and the two probes
--   Moves       the six tables together
--   Gap         internal/gap/gap.go; Gap/Arm64, Gap/Loong64, Gap/Ppc64 and Gap/S390x are the entries of
--               arm64.go, loong64.go, ppc64.go and s390x.go with the encoders in their Format files;
--               Fields files read an encoded word as a sum of fields, Laws files read operands back
--   Gap/Testdata   the lines of test data, with what reads them back
--   Goasmgap    tools/goasmgap/main.go; Objdump, Toolchain, Classify, Verify, Scan and Command follow
--               its functions, over an assembler or over what the command runs
--   Wasm        wasm/emit.go; Wasm/Ops are the methods that emit a fixed line
--   Simd        examples/wasm: a file per program (Isascii, Memchr, ...) with its calls as code and, in
--               its Correct file, what the code computes; Simd/Code renders code by the methods of
--               wasm/emit.go, Simd/Machine runs it, Simd/Typing validates it, and Simd/Rounds and
--               Simd/Scan hold the rules for loops
--   Fft/Frames Fft/Kernels   fft/amd64/frames.go and fft/amd64/kernels.go; Fft/Frames/Trampoline gives
--               the instructions of the function that TwoPass emits a meaning
--   Examples    the theorems at concrete inputs
--
-- How the code is modelled. An `int` of the layout is its 64-bit pattern, with the wrap-around of
-- each operation written out; an operand of an encoder is a signed integer; a uint64 is a number
-- below 2 ^ 64 whose shifts are cut there. Text is a list of bytes. A panic is a value of Result that
-- keeps what its message is formatted from. A Builder method returns the changed builder in place
-- of changing it through a pointer. Loops are recursions on the list they range over, or on the
-- number of rounds left; the digits of a number are produced on fuel, one unit more than the number,
-- and a number has no more digits than that.
--
-- A probe runs on a processor that is a parameter: what CPUID answers and what XCR0 holds. Its
-- instructions are kept as data and rendered by the Builder; a number that cannot be read back from
-- its spelling, and XGETBV where CPUID does not report OSXSAVE, are faults.
--
-- A kernel of examples/wasm runs on a stack of values, its locals and a linear memory, as WebAssembly's
-- core specification has it; its blocks have the type [] -> []. A loop may be started as often as the
-- fuel says, and once more than there are blocks, or bytes, is enough.
--
-- The function that TwoPass emits runs on AX and the words of its frame, from any stack pointer; the
-- two kernels that it calls are parameters, of which nothing is known but that they return.
--
-- The assembler that goasmgap judges is a function from the lines of a file to words or an error, so
-- it answers alike when it is asked twice; an error keeps what its message is formatted from.
-- White space and padding are those of ASCII texts.
--
-- The layout theorems are about arguments whose scalars have the sizes 1, 2, 4 or 8, and whose room,
-- 16 bytes for each scalar or field and 32 more for each aggregate, is below 2 ^ 60 bytes: then no
-- sum wraps. The code rounds the size of a signature with no result up to a word, where abi/abi.go
-- documents the end of the last slot.
--
-- Not modelled: the formatting that fmt.Sprintf does to the arguments of Insn and Raw (the line is an
-- argument here), the texts `Source` and `Note` of an entry, the fft kernel
-- generators, which write long texts of numeric kernels, the examples outside examples/wasm, the
-- program that runs the kernels there, and the programs that goasmgap runs.
pub mod Base
pub mod Abi
pub mod Emit
pub mod Builder
pub mod Amd64
pub mod Arm64
pub mod Riscv64
pub mod Loong64
pub mod Ppc64
pub mod S390x
pub mod Moves
pub mod Gap
pub mod Examples
pub mod Goasmgap
pub mod Wasm
pub mod Simd
pub mod Fft
