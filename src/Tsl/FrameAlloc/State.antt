-- ===== src/Tsl/FrameAlloc/State.antt =====
-- `struct frame_alloc` of tsl/frame_alloc.c. Addresses are numbers, 0 is NULL, and `next` is the
-- first word of each frame, where a free frame keeps the address of the next one.
use tsl_sdr.Prelude.{ℕ, ◌^◌, ◌==◌, if◌then◌else◌}

abbrev pub Ptr : Type 0
Ptr = ℕ

-- `counter_t` of the x86_64 build.
abbrev pub counter_mod : ℕ
counter_mod = 2 ^ 64

abbrev pub size_mod : ℕ
size_mod = 2 ^ 64

pub record FrameAlloc : Type 0 where
  pub free : Ptr
  pub counter : ℕ
  pub next : Ptr → Ptr
  pub rgn : Ptr
  pub rgn_len : ℕ
  pub frame_size : ℕ
  pub nr_frames : ℕ
  pub nr_frees : ℕ
  pub nr_allocs : ℕ

-- `((struct frame_alloc_free *)p)->next = q`
unfoldable pub write : (Ptr → Ptr) → Ptr → Ptr → Ptr → Ptr
write next p q a = if a == p then q else next a
