-- ===== src/Tsl/WorkQueue/Ops.antt =====
-- The functions of tsl/work_queue.h on a ring. A queue is passed by reference and not NULL, and the
-- out parameters are part of the result, with 0 for NULL.
use tsl_sdr.Prelude.{
  ℕ, ◌-◌, ◌%◌, ◌^◌, Bool, true, false, not, ◌||◌, Option, none, some, bit_and, leb, ◌==◌,
  if◌then◌else◌,
}
use tsl_sdr.Tsl.Result.{Result, a_ok, a_e_nomem, a_e_badargs, a_e_busy}
use tsl_sdr.Tsl.WorkQueue.Ring.{Ptr, RingOps}

-- `struct work_queue`; of the buffer only whether there is one.
pub record WorkQueue (S : Type 0) : Type 0 where
  pub fifo : S
  pub max_items : ℕ
  pub buffer : Bool

-- `*ptr` after a dequeue that returned true or false.
abbrev pub or_null : Option Ptr → Ptr
or_null (some p) = p
or_null none = 0

module _ {S : Type 0} (r : RingOps S) where
  -- `memset(queue, 0, sizeof(*queue))`
  abbrev pub cleared : WorkQueue S
  cleared = record { fifo = r.zeroed; max_items = 0; buffer = false }

  -- `memory` is whether `calloc` succeeds. `ck_ring_init` takes the size as an unsigned int.
  unfoldable pub work_queue_new : (memory : Bool) → WorkQueue S → ℕ → Result × WorkQueue S
  work_queue_new memory old max_items =
      if leb max_items 4
      then (a_e_badargs, old)
      else if not (bit_and max_items (max_items - 1) == 0)
      then (a_e_badargs, old)
      else if not memory
      then (a_e_nomem, cleared)
      else (
        a_ok,
        record { fifo = r.init (max_items % 2 ^ 32); max_items = max_items; buffer = true },
      )

  unfoldable pub work_queue_release : WorkQueue S → Result × WorkQueue S
  work_queue_release q = (a_ok, cleared)

  -- The code of an enqueue, and the queue with the ring it left.
  abbrev pub enqueued : WorkQueue S → Bool × S → Result × WorkQueue S
  enqueued q (done, fifo) = (if done then a_ok else a_e_busy, record q { fifo = fifo })

  abbrev pub dequeued : WorkQueue S → Option Ptr × S → Result × WorkQueue S × Ptr
  dequeued q (taken, fifo) = (a_ok, record q { fifo = fifo }, or_null taken)

  unfoldable pub work_queue_push : WorkQueue S → Ptr → Result × WorkQueue S
  work_queue_push q ptr =
      if (ptr == 0) || not q.buffer
      then (a_e_badargs, q)
      else enqueued q (r.enqueue_spsc q.fifo ptr)

  -- `old` is what the out parameter held.
  unfoldable pub work_queue_pop : WorkQueue S → (old : Ptr) → Result × WorkQueue S × Ptr
  work_queue_pop q old =
      if not q.buffer then (a_e_badargs, q, old) else dequeued q (r.dequeue_spsc q.fifo)

  unfoldable pub work_queue_fill : WorkQueue S → (old : ℕ) → Result × ℕ
  work_queue_fill q old = if not q.buffer then (a_e_badargs, old) else (a_ok, r.size q.fifo)

  unfoldable pub work_queue_size : WorkQueue S → (old : ℕ) → Result × ℕ
  work_queue_size q old = if not q.buffer then (a_e_badargs, old) else (a_ok, r.capacity q.fifo)

  -- The queues for many producers or consumers: no check of the message or the buffer.
  unfoldable pub work_queue_mpmc_new : (memory : Bool) → WorkQueue S → ℕ → Result × WorkQueue S
  work_queue_mpmc_new = work_queue_new

  unfoldable pub work_queue_mpmc_release : WorkQueue S → Result × WorkQueue S
  work_queue_mpmc_release = work_queue_release

  unfoldable pub work_queue_mpmc_push : WorkQueue S → Ptr → Result × WorkQueue S
  work_queue_mpmc_push q message = enqueued q (r.enqueue_mpmc q.fifo message)

  unfoldable pub work_queue_mpmc_pop : WorkQueue S → Result × WorkQueue S × Ptr
  work_queue_mpmc_pop q = dequeued q (r.dequeue_spmc q.fifo)

  unfoldable pub work_queue_spmc_new : (memory : Bool) → WorkQueue S → ℕ → Result × WorkQueue S
  work_queue_spmc_new = work_queue_new

  unfoldable pub work_queue_spmc_push : WorkQueue S → Ptr → Result × WorkQueue S
  work_queue_spmc_push q message = enqueued q (r.enqueue_spmc q.fifo message)

  unfoldable pub work_queue_spmc_pop : WorkQueue S → Result × WorkQueue S × Ptr
  work_queue_spmc_pop q = dequeued q (r.dequeue_spmc q.fifo)

  unfoldable pub work_queue_spmc_release : WorkQueue S → Result × WorkQueue S
  work_queue_spmc_release = work_queue_release
