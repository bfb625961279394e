-- ===== src/Tsl/WorkQueue/Ring.antt =====
-- What tsl/work_queue.h calls of `ck_ring.h`, and what the documentation of that library says of it:
-- a ring of `size` slots is a queue of at most `size - 1` pointers.
use tsl_sdr.Prelude.{
  ℕ, suc, ◌^◌, ◌≤◌, ◌<◌, ◌≡◌, Bool, true, false, Option, none, some, List, [], ◌∷◌, ◌++◌, length,
}

abbrev pub Ptr : Type 0
Ptr = ℕ

-- The calls on a ring together with its buffer. `none` is a dequeue that returns false.
pub record RingOps (S : Type 0) : Type 0 where
  pub zeroed : S
  pub init : ℕ → S
  pub enqueue_spsc : S → Ptr → Bool × S
  pub enqueue_spmc : S → Ptr → Bool × S
  pub enqueue_mpmc : S → Ptr → Bool × S
  pub dequeue_spsc : S → Option Ptr × S
  pub dequeue_spmc : S → Option Ptr × S
  pub size : S → ℕ
  pub capacity : S → ℕ

-- In the states that `IsSound` names.
module _ {S : Type 0} (IsSound : S → Type 0) (items : S → List Ptr) (slots : S → ℕ) where
  pub record Enqueues (f : S → Ptr → Bool × S) : Type 0 where
    pub sound : (s : S) (p : Ptr) → IsSound s → IsSound (f s p).1
    pub room :
        (s : S) (p : Ptr)
        → IsSound s
        → suc (length (items s)) < slots s
        → ((f s p).0 ≡ true) × (items (f s p).1 ≡ items s ++ p ∷ []) × (slots (f s p).1 ≡ slots s)
    pub full : (s : S) (p : Ptr) → IsSound s → slots s ≤ suc (length (items s)) → f s p ≡ (false, s)

  pub record Dequeues (f : S → Option Ptr × S) : Type 0 where
    pub still_sound : (s : S) → IsSound s → IsSound (f s).1
    pub some_left :
        (s : S) (x : Ptr) (xs : List Ptr)
        → IsSound s
        → items s ≡ x ∷ xs
        → ((f s).0 ≡ some x) × (items (f s).1 ≡ xs) × (slots (f s).1 ≡ slots s)
    pub none_left : (s : S) → IsSound s → items s ≡ [] → f s ≡ (none, s)

-- A ring that `ck_ring_init` sets up with a power of two from 4 on, below 2^32, and that only the
-- calls have changed since, is sound. Of any other the documentation says nothing.
pub record IsRing {S : Type 0} (r : RingOps S) : Type 1 where
  pub IsSound : S → Type 0
  pub items : S → List Ptr
  pub init-IsSound : (k : ℕ) → 2 ≤ k → k < 32 → IsSound (r.init (2 ^ k))
  pub init-items : (k : ℕ) → 2 ≤ k → k < 32 → items (r.init (2 ^ k)) ≡ []
  pub init-capacity : (k : ℕ) → 2 ≤ k → k < 32 → r.capacity (r.init (2 ^ k)) ≡ 2 ^ k
  pub size-items : (s : S) → IsSound s → r.size s ≡ length (items s)
  pub enqueues_spsc : Enqueues IsSound items r.capacity r.enqueue_spsc
  pub enqueues_spmc : Enqueues IsSound items r.capacity r.enqueue_spmc
  pub enqueues_mpmc : Enqueues IsSound items r.capacity r.enqueue_mpmc
  pub dequeues_spsc : Dequeues IsSound items r.capacity r.dequeue_spsc
  pub dequeues_spmc : Dequeues IsSound items r.capacity r.dequeue_spmc
