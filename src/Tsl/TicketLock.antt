-- ===== src/Tsl/TicketLock.antt =====
-- tsl/ticket_lock.h: a spin lock that serves its callers in order.
pub mod Word
pub mod Threads
pub mod Invariant
pub mod Exclusion
pub mod Progress
mod Examples
