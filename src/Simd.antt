-- ===== src/Simd.antt =====
-- examples/wasm: the programs that write a SIMD kernel as WebAssembly text, and what their kernels
-- compute.
pub mod Code
pub mod Lanes
pub mod Machine
pub mod Blocks
pub mod Rounds
pub mod Pointwise
pub mod Marks
pub mod Stores
pub mod Totals
pub mod Scan
pub mod Isascii
pub mod Memchr
pub mod Utf8len
pub mod Matchlen
pub mod Toupper
pub mod Popcount
pub mod Hex
pub mod HexDecode
pub mod JsonClean
pub mod Indexany4
pub mod Adler32
pub mod Base64Encode
pub mod Base64Decode
pub mod Typing
