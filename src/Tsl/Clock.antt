-- ===== src/Tsl/Clock.antt =====
-- tsl/time.c: how the frequency of the processor's clock is read from the system's description.
pub mod Ops
pub mod Parse
mod Examples
