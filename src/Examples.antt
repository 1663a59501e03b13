-- ===== src/Examples.antt =====
-- The theorems at concrete inputs: signatures, builders, move tables and instructions.
pub mod Layouts
pub mod Encodings
pub mod Texts
pub mod Probes
pub mod Kernels
pub mod Toolchains
pub mod Commands
pub mod Simds
pub mod Frames
