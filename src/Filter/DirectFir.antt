-- ===== src/Filter/DirectFir.antt =====
-- filter/direct_fir.c: a complex FIR filter that decimates and shifts back, over two sample
-- buffers.
pub mod State
pub mod Setup
pub mod Ops
pub mod Convolve
pub mod Sum
pub mod Buffers
pub mod Stream
pub mod Move
pub mod Decimate
pub mod Run
pub mod Bounds
pub mod Push
pub mod Ends
mod Examples
