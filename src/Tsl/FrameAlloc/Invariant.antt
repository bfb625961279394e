-- ===== src/Tsl/FrameAlloc/Invariant.antt =====
-- While fewer swaps than the counter has values have been made, the free list of the interleaved
-- allocator is a chain of frames that no client holds, and no thread acts on a stale head.
use tsl_sdr.Prelude.{
  ℕ, ◌+◌, ◌<◌, ◌≤◌, ◌≡◌, ◌≢◌, inl, inr, true, false, List, ◌∷◌, arith, Bool-cases, sym, ◌∙◌, ap,
}
use tsl_sdr.Tsl.FrameAlloc.State.{Ptr, counter_mod, write}
use tsl_sdr.Tsl.FrameAlloc.Chain.{has, Chain, cons, Chain-write, Chain-cons}
use tsl_sdr.Tsl.FrameAlloc.Threads.{
  Owner, outside, in_list, client, pusher, Memory, Pc, idle, pop_loaded, pop_ready, push_called,
  push_loaded, push_linked, crashed, set_owner, swap, Move, pop_load, pop_empty, pop_read,
  pop_crash, pop_win, pop_lose, push_call, push_load, push_link, push_win, push_lose, client_write,
}

-- A head loaded at the swap number `s`: up to date if no swap has been made since.
abbrev pub IsSeen : Memory → (f c s : ℕ) → Type 0
IsSeen m f c s = (c ≡ s) × (s ≤ m.ops) × (s ≡ m.ops → m.free ≡ f)

-- What the locals of thread `i` say of the memory.
abbrev pub IsFresh : Memory → ℕ → Pc → Type 0
IsFresh m i idle = Unit
IsFresh m i (pop_loaded f c s) = IsSeen m f c s
IsFresh m i (pop_ready f c n s) = IsSeen m f c s × (f ≢ 0) × (s ≡ m.ops → m.next f ≡ n)
IsFresh m i (push_called p) = m.owner p ≡ pusher i
IsFresh m i (push_loaded p f c s) = (m.owner p ≡ pusher i) × IsSeen m f c s
IsFresh m i (push_linked p f c s) = (m.owner p ≡ pusher i) × IsSeen m f c s × (m.next p ≡ f)
IsFresh m i crashed = Unit

-- The free frames are exactly those that are in the list.
pub record IsShared (m : Memory) (xs : List Ptr) : Type 0 where
  pub chain : Chain m.next m.free xs
  pub listed : (p : Ptr) → has p xs ≡ true → m.owner p ≡ in_list
  pub owned : (p : Ptr) → m.owner p ≡ in_list → has p xs ≡ true
  pub null : m.owner 0 ≡ outside
  pub counted : m.counter ≡ m.ops

module _ {m : Memory} {xs : List Ptr} (is : IsShared m xs) where
  not_listed : (p : Ptr) (o : Owner) → m.owner p ≡ o → o ≢ in_list → has p xs ≡ false
  not_listed p o e ne = elim (Bool-cases (has p xs)) [
    | inl yes_listed ↦ absurd (ne (sym e ∙ is.listed p yes_listed))
    | inr out ↦ out
  ]

  -- A write to a frame that is not free.
  IsShared-write :
      (p v : Ptr) (o : Owner)
      → m.owner p ≡ o
      → o ≢ in_list
      → IsShared (record m { next = write m.next p v }) xs
  IsShared-write p v o e ne = record {
    chain = Chain-write p v is.chain (not_listed p o e ne);
    listed = is.listed;
    owned = is.owned;
    null = is.null;
    counted = is.counted;
  }

  -- The first free frame goes to a client.
  IsShared-pop :
      (n c : ℕ)
      → m.ops + 1 < counter_mod
      → m.counter ≡ c
      → m.free ≢ 0
      → m.next m.free ≡ n
      → (ys : List Ptr) × IsShared (swap m n c (set_owner m.owner m.free client)) ys
  unfolding set_owner has
  IsShared-pop n c small count ne link =
      let (ys, split, new, rest) = Chain-cons is.chain ne in
      (
        ys,
        record {
          chain = rw (← link) rest;
          listed = λ q h. ground (arith, is.listed q);
          owned = λ q h. ground (arith, is.owned q);
          null = ground (arith, is.null);
          counted = omega (arith, is.counted);
        },
      )

  -- A frame that is being pushed, linked to the head, becomes the first.
  IsShared-push :
      (i p c : ℕ)
      → m.ops + 1 < counter_mod
      → m.counter ≡ c
      → m.owner p ≡ pusher i
      → m.next p ≡ m.free
      → IsShared (swap m p c (set_owner m.owner p in_list)) (p ∷ xs)
  unfolding set_owner has
  IsShared-push i p c small count mine link =
      let ne : p ≢ 0 = ground (arith, is.null) in
      record {
        chain = cons ne (not_listed p (pusher i) mine (λ e. cc)) (rw link is.chain);
        listed = λ q h. ground (arith, is.listed q);
        owned = λ q h. ground (arith, is.owned q);
        null = ground (arith, is.null);
        counted = omega (arith, is.counted);
      }

  -- A client hands a frame over to the thread that pushes it.
  IsShared-call :
      (i p : ℕ)
      → m.owner p ≡ client
      → IsShared (record m { owner = set_owner m.owner p (pusher i) }) xs
  unfolding set_owner
  IsShared-call i p held = record {
    chain = is.chain;
    listed = λ q h. ground (arith, is.listed q);
    owned = λ q h. ground (arith, is.owned q);
    null = ground (arith, is.null);
    counted = is.counted;
  }

-- A move keeps the shared part, for the list that it makes.
pub Move-IsShared :
    {i : ℕ} {m m' : Memory} {p p' : Pc} {xs : List Ptr}
    → Move i m p m' p'
    → m'.ops < counter_mod
    → IsFresh m i p
    → IsShared m xs
    → (ys : List Ptr) × IsShared m' ys
Move-IsShared {xs} (pop_load _) small fresh is = (xs, is)
Move-IsShared {xs} (pop_empty _) small fresh is = (xs, is)
Move-IsShared {xs} (pop_read _) small fresh is = (xs, is)
Move-IsShared {xs} (pop_crash _) small fresh is = (xs, is)
Move-IsShared {m} {xs} (pop_win {f} {c} {n} {s} same count) small fresh is =
    let now : s ≡ m.ops = omega (arith, is.counted, fresh.0) in
    rw (← same) (IsShared-pop is n c small count (rw same fresh.1) (ap m.next same ∙ fresh.2 now))
Move-IsShared {xs} (pop_lose _) small fresh is = (xs, is)
Move-IsShared {i} {xs} (push_call p held) small fresh is = (xs, IsShared-call is i p held)
Move-IsShared {xs} push_load small fresh is = (xs, is)
Move-IsShared {i} {xs} (push_link {p} {f}) small fresh is =
    (xs, IsShared-write is p f (pusher i) fresh.0 (λ e. cc))
Move-IsShared {i} {m} {xs} (push_win {p} {f} {c} {s} same count) small fresh is =
    (p ∷ xs, IsShared-push is i p c small count fresh.0 (fresh.2 ∙ sym same))
Move-IsShared {xs} (push_lose _) small fresh is = (xs, is)
Move-IsShared {xs} (client_write p v held) small fresh is =
    (xs, IsShared-write is p v client held (λ e. cc))

module _ {m : Memory} {xs : List Ptr} (is : IsShared m xs) where
  -- While its swap is due, the frame that a popping thread reads is free.
  pub head_listed : m.free ≢ 0 → m.owner m.free ≡ in_list
  unfolding has
  head_listed ne =
      let (ys, split, _, _) = Chain-cons is.chain ne in is.listed m.free (rw split (ground arith))

  -- What another thread knows outlasts a write to a frame that is neither free nor its own.
  pub IsFresh-write :
      (j p v : ℕ) (q : Pc)
      → m.owner p ≢ in_list
      → m.owner p ≢ pusher j
      → IsFresh m j q
      → IsFresh (record m { next = write m.next p v }) j q
  unfolding write
  IsFresh-write j p v idle ne other fresh = tt
  IsFresh-write j p v (pop_loaded f c s) ne other fresh = fresh
  IsFresh-write j p v (pop_ready f c n s) ne other fresh =
      (fresh.0, fresh.1, λ now. ground (arith, head_listed, fresh.2, fresh.0))
  IsFresh-write j p v (push_called p') ne other fresh = fresh
  IsFresh-write j p v (push_loaded p' f c s) ne other fresh = fresh
  IsFresh-write j p v (push_linked p' f c s) ne other fresh = (fresh.0, fresh.1, ground arith)
  IsFresh-write j p v crashed ne other fresh = tt

  -- It outlasts a swap of the head, which changes the owner of a frame that is not its own.
  pub IsFresh-swap :
      (j p n c : ℕ) (o : Owner) (q : Pc)
      → m.owner p ≢ pusher j
      → IsFresh m j q
      → IsFresh (swap m n c (set_owner m.owner p o)) j q
  unfolding set_owner
  IsFresh-swap j p n c o idle other fresh = tt
  IsFresh-swap j p n c o (pop_loaded f c' s) other fresh = ground arith
  IsFresh-swap j p n c o (pop_ready f c' n' s) other fresh = ground arith
  IsFresh-swap j p n c o (push_called p') other fresh = ground arith
  IsFresh-swap j p n c o (push_loaded p' f c' s) other fresh = ground arith
  IsFresh-swap j p n c o (push_linked p' f c' s) other fresh = ground arith
  IsFresh-swap j p n c o crashed other fresh = tt

  -- It outlasts a change of owner of a frame that is not its own.
  pub IsFresh-owner :
      (j p : ℕ) (o : Owner) (q : Pc)
      → m.owner p ≢ pusher j
      → IsFresh m j q
      → IsFresh (record m { owner = set_owner m.owner p o }) j q
  unfolding set_owner
  IsFresh-owner j p o idle other fresh = tt
  IsFresh-owner j p o (pop_loaded f c s) other fresh = fresh
  IsFresh-owner j p o (pop_ready f c n s) other fresh = fresh
  IsFresh-owner j p o (push_called p') other fresh = ground arith
  IsFresh-owner j p o (push_loaded p' f c s) other fresh = ground arith
  IsFresh-owner j p o (push_linked p' f c s) other fresh = ground arith
  IsFresh-owner j p o crashed other fresh = tt
