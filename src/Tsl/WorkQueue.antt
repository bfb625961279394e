-- ===== src/Tsl/WorkQueue.antt =====
-- tsl/work_queue.h: bounded queues of messages on a ring of Concurrency Kit.
pub mod Ring
pub mod Ops
pub mod New
pub mod Spec
pub mod Refine
mod Examples
