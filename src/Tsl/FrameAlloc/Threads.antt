-- ===== src/Tsl/FrameAlloc/Threads.antt =====
-- The loops of `_frame_alloc_pop_free` and `_frame_alloc_push_free` of tsl/frame_alloc.c run by many
-- threads: a step is one access to shared memory, and the threads interleave in any order.
use tsl_sdr.Prelude.{ℕ, ◌+◌, ◌%◌, ◌≡◌, ◌≢◌, ◌⊎◌, ◌==◌, if◌then◌else◌}
use tsl_sdr.Tsl.FrameAlloc.State.{Ptr, counter_mod, write}

-- Who may touch a frame. It is not in the program: it is where the frame has got to.
pub data Owner : Type 0 where
  outside : Owner
  in_list : Owner
  client : Owner
  pusher : ℕ → Owner

-- The head (`free` and `counter`, swapped together) and the frames' links. `ops` counts the
-- successful swaps and `owner` tells where each frame is; no step of a thread reads either.
pub record Memory : Type 0 where
  pub free : Ptr
  pub counter : ℕ
  pub next : Ptr → Ptr
  pub ops : ℕ
  pub owner : Ptr → Owner

-- Where a thread stands, with its locals: `cur` or `head` as loaded, the link read from it, the
-- frame to push, and when the head was loaded.
pub data Pc : Type 0 where
  idle : Pc
  pop_loaded : (f c : ℕ) → (seen : ℕ) → Pc
  pop_ready : (f c n : ℕ) → (seen : ℕ) → Pc
  push_called : (p : Ptr) → Pc
  push_loaded : (p : Ptr) (f c : ℕ) → (seen : ℕ) → Pc
  push_linked : (p : Ptr) (f c : ℕ) → (seen : ℕ) → Pc
  crashed : Pc

unfoldable pub set_owner : (Ptr → Owner) → Ptr → Owner → Ptr → Owner
set_owner owner p o a = if a == p then o else owner a

-- The head after a successful swap.
abbrev pub swap : Memory → (new_free c : ℕ) → (Ptr → Owner) → Memory
swap m new_free c owner = record m {
  free = new_free;
  counter = (c + 1) % counter_mod;
  ops = m.ops + 1;
  owner = owner;
}

-- One step of thread `i`.
pub data Move (i : ℕ) : Memory → Pc → Memory → Pc → Type 0 where
  -- the first load, and A_E_NOMEM
  pop_load : {m : Memory} → m.free ≢ 0 → Move i m idle m (pop_loaded m.free m.counter m.ops)
  pop_empty : {m : Memory} → m.free ≡ 0 → Move i m idle m idle
  -- `cur.free->next`
  pop_read :
      {m : Memory} {f c s : ℕ} → f ≢ 0 → Move i m (pop_loaded f c s) m (pop_ready f c (m.next f) s)
  pop_crash : {m : Memory} {f c s : ℕ} → f ≡ 0 → Move i m (pop_loaded f c s) m crashed
  -- the swap, which loads the head anew when it fails
  pop_win :
      {m : Memory} {f c n s : ℕ}
      → m.free ≡ f
      → m.counter ≡ c
      → Move i m (pop_ready f c n s) (swap m n c (set_owner m.owner f client)) idle
  pop_lose :
      {m : Memory} {f c n s : ℕ}
      → (m.free ≢ f) ⊎ (m.counter ≢ c)
      → Move i m (pop_ready f c n s) m (pop_loaded m.free m.counter m.ops)
  -- a client gives a frame back
  push_call :
      {m : Memory} (p : Ptr)
      → m.owner p ≡ client
      → Move i m idle (record m { owner = set_owner m.owner p (pusher i) }) (push_called p)
  push_load :
      {m : Memory} {p : Ptr} → Move i m (push_called p) m (push_loaded p m.free m.counter m.ops)
  -- `phead->next = head.free`
  push_link :
      {m : Memory} {p f c s : ℕ}
      → Move i m (push_loaded p f c s) (record m { next = write m.next p f }) (push_linked p f c s)
  push_win :
      {m : Memory} {p f c s : ℕ}
      → m.free ≡ f
      → m.counter ≡ c
      → Move i m (push_linked p f c s) (swap m p c (set_owner m.owner p in_list)) idle
  push_lose :
      {m : Memory} {p f c s : ℕ}
      → (m.free ≢ f) ⊎ (m.counter ≢ c)
      → Move i m (push_linked p f c s) m (push_loaded p m.free m.counter m.ops)
  -- a client writes into a frame that it holds
  client_write :
      {m : Memory} (p v : Ptr)
      → m.owner p ≡ client
      → Move i m idle (record m { next = write m.next p v }) idle

pub record System : Type 0 where
  pub mem : Memory
  pub pc : ℕ → Pc

unfoldable pub set_pc : (ℕ → Pc) → ℕ → Pc → ℕ → Pc
set_pc pc i p j = if j == i then p else pc j

pub data Step (s : System) : System → Type 0 where
  pick :
      (i : ℕ) {m : Memory} {p : Pc}
      → Move i s.mem (s.pc i) m p
      → Step s (record { mem = m; pc = set_pc s.pc i p })

pub data Reach (s : System) : System → Type 0 where
  here : Reach s s
  later : {t u : System} → Reach s t → Step t u → Reach s u

-- The state that `frame_alloc_new` leaves, with no thread in the allocator.
abbrev pub start : (Ptr → Ptr) → Ptr → (Ptr → Owner) → System
start next free owner = record {
  mem = record { free = free; counter = 0; next = next; ops = 0; owner = owner };
  pc = λ _. idle;
}
