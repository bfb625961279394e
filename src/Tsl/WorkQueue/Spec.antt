-- ===== src/Tsl/WorkQueue/Spec.antt =====
-- The contract of tsl/work_queue.h: a queue of at most `limit` messages, first in, first out. The
-- calls of the three flavours of queue, and their replies, for both sides.
use tsl_sdr.Prelude.{ℕ, suc, List, [], ◌∷◌, ◌++◌, length, ltb, ◌==◌, if◌then◌else◌}
use tsl_sdr.Tsl.Result.{Result, a_ok, a_e_badargs, a_e_busy}
use tsl_sdr.Tsl.WorkQueue.Ring.{Ptr, RingOps}
use tsl_sdr.Tsl.WorkQueue.Ops.{
  WorkQueue, work_queue_push, work_queue_pop, work_queue_fill, work_queue_size,
  work_queue_mpmc_push, work_queue_mpmc_pop, work_queue_spmc_push, work_queue_spmc_pop,
}

pub data Flavour : Type 0 where
  spsc spmc mpmc : Flavour

pub data Call : Type 0 where
  push : Ptr → Call
  pop fill size : Call

-- The code, and the out parameter, 0 where there is none.
abbrev pub Reply : Type 0
Reply = Result × ℕ

pub record Fifo : Type 0 where
  pub limit : ℕ
  pub waiting : List Ptr

abbrev pub accept : Fifo → Ptr → Fifo × Reply
accept f p =
    if ltb (length f.waiting) f.limit
    then (record f { waiting = f.waiting ++ p ∷ [] }, (a_ok, 0))
    else (f, (a_e_busy, 0))

abbrev pub take_first : (limit : ℕ) → List Ptr → Fifo × Reply
take_first limit [] = (record { limit = limit; waiting = [] }, (a_ok, 0))
take_first limit (x ∷ xs) = (record { limit = limit; waiting = xs }, (a_ok, x))

-- A queue for one producer and one consumer refuses NULL.
abbrev pub accept_from : Flavour → Fifo → Ptr → Fifo × Reply
accept_from spsc f p = if p == 0 then (f, (a_e_badargs, 0)) else accept f p
accept_from spmc f p = accept f p
accept_from mpmc f p = accept f p

unfoldable pub fifo_step : Flavour → Fifo → Call → Fifo × Reply
fifo_step flavour f (push p) = accept_from flavour f p
fifo_step flavour f pop = take_first f.limit f.waiting
fifo_step flavour f fill = (f, (a_ok, length f.waiting))
fifo_step flavour f size = (f, (a_ok, suc f.limit))

unfoldable pub fifo_run : Flavour → Fifo → List Call → List Reply
fifo_run flavour f [] = []
fifo_run flavour f (c ∷ cs) =
    let (f', reply) = fifo_step flavour f c in reply ∷ fifo_run flavour f' cs

module _ {S : Type 0} (r : RingOps S) where
  abbrev pub pushed : Result × WorkQueue S → WorkQueue S × Reply
  pushed (code, q) = (q, (code, 0))

  abbrev pub popped : Result × WorkQueue S × Ptr → WorkQueue S × Reply
  popped (code, q, p) = (q, (code, p))

  abbrev pub push_on : Flavour → WorkQueue S → Ptr → Result × WorkQueue S
  push_on spsc q p = work_queue_push r q p
  push_on spmc q p = work_queue_spmc_push r q p
  push_on mpmc q p = work_queue_mpmc_push r q p

  abbrev pub pop_from : Flavour → WorkQueue S → Result × WorkQueue S × Ptr
  pop_from spsc q = work_queue_pop r q 0
  pop_from spmc q = work_queue_spmc_pop r q
  pop_from mpmc q = work_queue_mpmc_pop r q

  -- The same calls on a work queue.
  unfoldable pub queue_step : Flavour → WorkQueue S → Call → WorkQueue S × Reply
  queue_step flavour q (push p) = pushed (push_on flavour q p)
  queue_step flavour q pop = popped (pop_from flavour q)
  queue_step flavour q fill = (q, work_queue_fill r q 0)
  queue_step flavour q size = (q, work_queue_size r q 0)

  unfoldable pub queue_run : Flavour → WorkQueue S → List Call → List Reply
  queue_run flavour q [] = []
  queue_run flavour q (c ∷ cs) =
      let (q', reply) = queue_step flavour q c in reply ∷ queue_run flavour q' cs
