-- ===== src/Tsl/FrameAlloc.antt =====
-- tsl/frame_alloc.c: a fixed region cut into frames, with the free frames on a linked list that
-- runs through the frames themselves. `State` is the object, `Ops` its functions run by one thread,
-- `Chain` and `Laws` what they do to the list of free frames, and `Threads` the interleavings.
pub mod State
pub mod Ops
pub mod Chain
pub mod Laws
pub mod Stack
pub mod Threads
pub mod Invariant
pub mod Safety
pub mod Race
mod Examples
