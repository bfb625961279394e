-- ===== src/Filter/Polyphase.antt =====
-- filter/polyphase_fir.c: a real filter that changes the sample rate by a fraction, with the sums
-- of filter/utils.c.
pub mod Ops
pub mod Places
pub mod Layout
pub mod Dot
pub mod Stream
pub mod Advance
pub mod Window
pub mod Resample
mod Examples
