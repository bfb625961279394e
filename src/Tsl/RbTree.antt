-- ===== src/Tsl/RbTree.antt =====
-- tsl/rbtree.c and tsl/rbtree.h: an intrusive red-black tree. `Heap` holds the nodes and the
-- commands on them, the next modules the functions of the source, and the others what they do.
pub mod Heap
pub mod Walk
pub mod Rotate
pub mod Insert
pub mod Remove
pub mod Shape
pub mod Find
pub mod Extremes
pub mod Frame
pub mod Duplicate
pub mod First
mod Examples
mod Tests
