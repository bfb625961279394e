-- ===== src/Tsl/WorkQueue/Refine.antt =====
-- The work queues of tsl/work_queue.h answer as a bounded queue does.
use native.Mathlib.Nat.{pow-le-pow_right}
use tsl_sdr.Prelude.{
  ◌≤◌, ℕ, suc, ◌-◌, ◌^◌, ◌<◌, ◌≡◌, refl, ap, ap₂, ◌∙◌, inl, inr, Option, Bool, true, false,
  Bool-cases, List, [], ◌∷◌, ◌++◌, length, ltb, ◌==◌, arith,
}
use tsl_sdr.Tsl.Result.{a_ok, a_e_badargs}
use tsl_sdr.Tsl.WorkQueue.Ring.{Ptr, RingOps, IsRing, Enqueues, Dequeues}
use tsl_sdr.Tsl.WorkQueue.Ops.{
  WorkQueue, enqueued, dequeued, work_queue_new, work_queue_push, work_queue_pop, work_queue_fill,
  work_queue_size, work_queue_mpmc_push, work_queue_mpmc_pop, work_queue_spmc_push,
  work_queue_spmc_pop,
}
use tsl_sdr.Tsl.WorkQueue.New.{work_queue_new-pow}
use tsl_sdr.Tsl.WorkQueue.Spec.{
  Flavour, spsc, spmc, mpmc, Call, push, pop, fill, size, Reply, Fifo, accept, take_first,
  fifo_step, fifo_run, pushed, popped, queue_step, queue_run,
}

module _ {S : Type 0} (r : RingOps S) (ring : IsRing r) where
  -- The queue `q` has a buffer, and its ring holds what waits in `f` and has one slot to spare.
  pub record Implements (q : WorkQueue S) (f : Fifo) : Type 0 where
    pub buffered : q.buffer ≡ true
    pub sound : ring.IsSound q.fifo
    pub same_items : ring.items q.fifo ≡ f.waiting
    pub same_limit : r.capacity q.fifo ≡ suc f.limit

  -- What a call leaves and replies on both sides.
  abbrev pub Agree : WorkQueue S × Reply → Fifo × Reply → Type 0
  Agree (q, reply) (f, reply') = Implements q f × (reply ≡ reply')

  enqueued-Agree :
      (e : S → Ptr → Bool × S)
      → Enqueues ring.IsSound ring.items r.capacity e
      → (q : WorkQueue S) (f : Fifo) (p : Ptr) → Implements q f
      → Agree (pushed r (enqueued r q (e q.fifo p))) (accept f p)
  enqueued-Agree e laws q f p i = elim (Bool-cases (ltb (length f.waiting) f.limit)) [
    | inl has_room ↦
        let (done, more, kept) =
          laws.room q.fifo p i.sound (rw (i.same_items, i.same_limit) (ground arith)) in
        rw (has_room, done)
          (
            record {
              buffered = i.buffered;
              sound = laws.sound q.fifo p i.sound;
              same_items = more ∙ ap (λ l. l ++ p ∷ []) i.same_items;
              same_limit = kept ∙ i.same_limit;
            },
            refl,
          )
    | inr no_room ↦
        let same = laws.full q.fifo p i.sound (rw (i.same_items, i.same_limit) (ground arith)) in
        rw (no_room, same) (i, refl)
  ]

  dequeued-Agree :
      (d : S → Option Ptr × S)
      → Dequeues ring.IsSound ring.items r.capacity d
      → (q : WorkQueue S) (limit : ℕ) (xs : List Ptr)
      → Implements q (record { limit = limit; waiting = xs })
      → Agree (popped r (dequeued r q (d q.fifo))) (take_first limit xs)
  dequeued-Agree d laws q limit [] i = rw (laws.none_left q.fifo i.sound i.same_items) (i, refl)
  dequeued-Agree d laws q limit (x ∷ xs) i =
      let (taken, rest, kept) = laws.some_left q.fifo x xs i.sound i.same_items in
      rw taken (
        record {
          buffered = i.buffered;
          sound = laws.still_sound q.fifo i.sound;
          same_items = rest;
          same_limit = kept ∙ i.same_limit;
        },
        refl,
      )

  -- On a queue with a buffer the checks of `work_queue_push` and `work_queue_pop` pass.
  work_queue_push-enqueued :
      (q : WorkQueue S) (p : Ptr)
      → q.buffer ≡ true
      → (p == 0) ≡ false
      → work_queue_push r q p ≡ enqueued r q (r.enqueue_spsc q.fifo p)
  unfolding work_queue_push
  work_queue_push-enqueued q p buffered some_message = rw (some_message, buffered)

  refused_null :
      (q : WorkQueue S) (p : Ptr) → (p == 0) ≡ true → work_queue_push r q p ≡ (a_e_badargs, q)
  unfolding work_queue_push
  refused_null q p null = rw null

  work_queue_pop-dequeued :
      (q : WorkQueue S)
      → q.buffer ≡ true
      → work_queue_pop r q 0 ≡ dequeued r q (r.dequeue_spsc q.fifo)
  unfolding work_queue_pop
  work_queue_pop-dequeued q buffered = rw buffered

  fill_reply :
      (q : WorkQueue S) (f : Fifo)
      → Implements q f
      → work_queue_fill r q 0 ≡ (a_ok, length f.waiting)
  unfolding work_queue_fill
  fill_reply q f i = rw (i.buffered, ring.size-items q.fifo i.sound, i.same_items)

  size_reply :
      (q : WorkQueue S) (f : Fifo) → Implements q f → work_queue_size r q 0 ≡ (a_ok, suc f.limit)
  unfolding work_queue_size
  size_reply q f i = rw (i.buffered, i.same_limit)

  queue_step-Agree :
      (flavour : Flavour) (q : WorkQueue S) (f : Fifo) (c : Call)
      → Implements q f
      → Agree (queue_step r flavour q c) (fifo_step flavour f c)
  unfolding queue_step fifo_step work_queue_mpmc_push work_queue_mpmc_pop work_queue_spmc_push
      work_queue_spmc_pop
  queue_step-Agree spsc q f (push p) i = elim (Bool-cases (p == 0)) [
    | inl null ↦
        let refused : work_queue_push r q p ≡ (a_e_badargs, q) = refused_null q p null in
        rw (refused, null) (i, refl)
    | inr some_message ↦
        rw (work_queue_push-enqueued q p i.buffered some_message, some_message)
          (enqueued-Agree r.enqueue_spsc ring.enqueues_spsc q f p i)
  ]
  queue_step-Agree spmc q f (push p) i = enqueued-Agree r.enqueue_spmc ring.enqueues_spmc q f p i
  queue_step-Agree mpmc q f (push p) i = enqueued-Agree r.enqueue_mpmc ring.enqueues_mpmc q f p i
  queue_step-Agree spsc q f pop i =
      rw (work_queue_pop-dequeued q i.buffered)
        (dequeued-Agree r.dequeue_spsc ring.dequeues_spsc q f.limit f.waiting i)
  queue_step-Agree spmc q f pop i =
      dequeued-Agree r.dequeue_spmc ring.dequeues_spmc q f.limit f.waiting i
  queue_step-Agree mpmc q f pop i =
      dequeued-Agree r.dequeue_spmc ring.dequeues_spmc q f.limit f.waiting i
  queue_step-Agree flavour q f fill i = (i, fill_reply q f i)
  queue_step-Agree flavour q f size i = (i, size_reply q f i)

  queue_run-fifo_run :
      (flavour : Flavour) (q : WorkQueue S) (f : Fifo) (cs : List Call)
      → Implements q f
      → queue_run r flavour q cs ≡ fifo_run flavour f cs
  unfolding queue_run fifo_run
  queue_run-fifo_run flavour q f [] i = refl
  queue_run-fifo_run flavour q f (c ∷ cs) i =
      let (left, reply) = queue_step-Agree flavour q f c i in
      ap₂ (λ x xs. x ∷ xs) reply
        (queue_run-fifo_run flavour (queue_step r flavour q c).0 (fifo_step flavour f c).0 cs left)

  -- With memory for it, a new queue of `2 ^ k` items, above 4 and fitting an unsigned int, replies to
  -- every sequence of calls, of each flavour, as a queue of one message fewer does.
  pub work_queue_new-fifo_run :
      (old : WorkQueue S) (k : ℕ) (flavour : Flavour) (cs : List Call)
      → 3 ≤ k
      → k < 32
      → ((work_queue_new r true old (2 ^ k)).0 ≡ a_ok)
        × (queue_run r flavour (work_queue_new r true old (2 ^ k)).1 cs
            ≡ fifo_run flavour (record { limit = 2 ^ k - 1; waiting = [] }) cs)
  work_queue_new-fifo_run old k flavour cs low high =
      let small : ltb k 32 ≡ true = ground arith in
      let some_slots : 8 ≤ 2 ^ k = pow-le-pow_right (omega arith) low in
      let made : WorkQueue S = record { fifo = r.init (2 ^ k); max_items = 2 ^ k; buffer = true } in
      rw (work_queue_new-pow r true old k low, small)
        (
          refl,
          queue_run-fifo_run flavour made (record { limit = 2 ^ k - 1; waiting = [] }) cs
              (record {
                buffered = refl;
                sound = ring.init-IsSound k (omega arith) high;
                same_items = ring.init-items k (omega arith) high;
                same_limit = ring.init-capacity k (omega arith) high ∙ omega (arith, some_slots);
              }),
        )
