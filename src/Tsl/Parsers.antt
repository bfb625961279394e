-- ===== src/Tsl/Parsers.antt =====
-- tsl/parsers.c: sizes and times as text.
pub mod Strtoull
pub mod Ops
pub mod MemBytes
pub mod Interval
mod Examples
