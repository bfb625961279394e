-- ===== src/Tsl.antt =====
-- The support library of tsl/: results, counters, locks, queues, allocators and trees.
pub mod Result
pub mod FrameAlloc
pub mod RbTree
pub mod WorkQueue
pub mod RefCnt
pub mod Parsers
pub mod TicketLock
pub mod WorkerThread
pub mod LinkedList
pub mod Clock
