-- ===== src/Tsl/LinkedList.antt =====
-- tsl/list.h: circular doubly linked lists whose entries stand in the structures that are listed.
pub mod Ops
pub mod Ring
pub mod Segment
pub mod Add
pub mod Del
pub mod Calls
pub mod Run
pub mod Splice
pub mod Checked
mod Examples
