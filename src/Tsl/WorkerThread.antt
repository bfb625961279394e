-- ===== src/Tsl/WorkerThread.antt =====
-- tsl/worker_thread.c: a thread that works until it is told to shut down.
pub mod Threads
pub mod Stop
pub mod Delete
pub mod Finish
pub mod New
pub mod Balance
mod Examples
