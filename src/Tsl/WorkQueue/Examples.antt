-- ===== src/Tsl/WorkQueue/Examples.antt =====
-- Work queues of tsl/work_queue.h on a ring that is a list.
use tsl_sdr.Prelude.{
  ℕ, suc, ◌^◌, ◌≤◌, ◌<◌, ◌⊎◌, ◌≡◌, refl, Bool, true, false, Option, none, some, List, [], ◌∷◌, ◌++◌,
  length, ltb, if◌then◌else◌, arith,
}
use tsl_sdr.Tsl.Result.{a_ok, a_e_nomem, a_e_badargs}
use tsl_sdr.Tsl.WorkQueue.Ring.{Ptr, RingOps, IsRing, Enqueues, Dequeues}
use tsl_sdr.Tsl.WorkQueue.Ops.{WorkQueue, cleared, work_queue_new}
use tsl_sdr.Tsl.WorkQueue.New.{new_queue, work_queue_new-powers}
use tsl_sdr.Tsl.WorkQueue.Spec.{mpmc, Call, push, pop, fill, fifo_step, fifo_run, queue_run}
use tsl_sdr.Tsl.WorkQueue.Refine.{work_queue_new-fifo_run}

record ListRing : Type 0 where
  slots : ℕ
  held : List Ptr

abbrev put : ListRing → Ptr → Bool × ListRing
put s p =
    if ltb (suc (length s.held)) s.slots
    then (true, record s { held = s.held ++ p ∷ [] })
    else (false, s)

abbrev get_from : (slots : ℕ) → List Ptr → Option Ptr × ListRing
get_from slots [] = (none, record { slots = slots; held = [] })
get_from slots (x ∷ xs) = (some x, record { slots = slots; held = xs })

abbrev get : ListRing → Option Ptr × ListRing
get s = get_from s.slots s.held

abbrev list_ring : RingOps ListRing
list_ring = record {
  zeroed = record { slots = 0; held = [] };
  init = λ n. record { slots = n; held = [] };
  enqueue_spsc = put;
  enqueue_spmc = put;
  enqueue_mpmc = put;
  dequeue_spsc = get;
  dequeue_spmc = get;
  size = λ s. length s.held;
  capacity = λ s. s.slots;
}

put-Enqueues : Enqueues (λ s. Unit {0}) (λ (s : ListRing). s.held) (λ s. s.slots) put
put-Enqueues = record {
  sound = λ s p _. tt;
  room = λ s p _ lt.
      (let fits : ltb (suc (length s.held)) s.slots ≡ true = ground arith in
        rw fits (refl, refl, refl));
  full =
      λ s p _ le. (let over : ltb (suc (length s.held)) s.slots ≡ false = ground arith in rw over);
}

get_from-nil :
    (slots : ℕ) (xs : List Ptr)
    → xs ≡ []
    → get_from slots xs ≡ (none, record { slots = slots; held = xs })
get_from-nil slots xs e = rw e

get-Dequeues : Dequeues (λ s. Unit {0}) (λ (s : ListRing). s.held) (λ s. s.slots) get
get-Dequeues = record {
  still_sound = λ s _. tt;
  some_left = λ s x xs _ e. rw e (refl, refl, refl);
  none_left = λ s _ e. get_from-nil s.slots s.held e;
}

list_ring-IsRing : IsRing list_ring
list_ring-IsRing = record {
  items = λ s. s.held;
  IsSound = λ s. Unit {0};
  init-IsSound = λ k _ _. tt;
  init-items = λ k _ _. refl;
  init-capacity = λ k _ _. refl;
  size-items = λ s _. refl;
  enqueues_spsc = put-Enqueues;
  enqueues_spmc = put-Enqueues;
  enqueues_mpmc = put-Enqueues;
  dequeues_spsc = get-Dequeues;
  dequeues_spmc = get-Dequeues;
}

abbrev unused : WorkQueue ListRing
unused = record { fifo = record { slots = 0; held = [] }; max_items = 0; buffer = false }

abbrev calls : List Call
calls = pop ∷ push 7 ∷ push 9 ∷ fill ∷ pop ∷ pop ∷ pop ∷ []

-- A queue of eight answers as the bounded queue does.
eight_items :
    ((work_queue_new list_ring true unused 8).0 ≡ a_ok)
    × (queue_run list_ring mpmc (work_queue_new list_ring true unused 8).1 calls
        ≡ fifo_run mpmc (record { limit = 7; waiting = [] }) calls)
eight_items =
    work_queue_new-fifo_run list_ring list_ring-IsRing unused 3 mpmc calls (omega arith)
      (omega arith)

work_queue_new-powers_example :
    ((k : ℕ) × (3 ≤ k)
      × (8 ≡ 2 ^ k)
      × (work_queue_new list_ring true unused 8
          ≡ (if true then (a_ok, new_queue list_ring k) else (a_e_nomem, cleared list_ring))))
    ⊎ (((k : ℕ) → 8 ≡ 2 ^ k → k < 3)
        × (work_queue_new list_ring true unused 8 ≡ (a_e_badargs, unused)))
work_queue_new-powers_example = work_queue_new-powers list_ring true unused 8

-- 2^32 items are taken, and the ring has no slot.
no_slots : (work_queue_new list_ring true unused (2 ^ 32)).1.fifo ≡ record { slots = 0; held = [] }
unfolding work_queue_new
no_slots = refl

-- Messages come out in order, and NULL with A_OK once there is none.
replies_in_order :
    fifo_run mpmc (record { limit = 7; waiting = [] }) calls
    ≡ (a_ok, 0) ∷ (a_ok, 0) ∷ (a_ok, 0) ∷ (a_ok, 2) ∷ (a_ok, 7) ∷ (a_ok, 9) ∷ (a_ok, 0) ∷ []
unfolding fifo_run fifo_step
replies_in_order = refl
