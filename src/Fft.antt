-- ===== src/Fft.antt =====
-- fft/amd64: the generators of the transform kernels.
pub mod Frames
pub mod Kernels
