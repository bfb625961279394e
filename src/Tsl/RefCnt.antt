-- ===== src/Tsl/RefCnt.antt =====
-- tsl/refcnt.h: reference counts.
pub mod Ops
pub mod Laws
pub mod Threads
pub mod Race
mod Examples
