-- ===== src/Tsl/FrameAlloc/Safety.antt =====
-- The interleaved allocator of tsl/frame_alloc.c in every reachable state: no frame is handed out
-- twice, and what can go wrong when the list runs empty during a swap.
use tsl_sdr.Prelude.{
  ℕ, ◌<◌, ◌≤◌, ◌≡◌, ◌≢◌, refl, inl, inr, true, List, arith, ◌==◌, Bool-cases, sym, ◌∙◌, ◌↔◌,
}
use tsl_sdr.Tsl.FrameAlloc.State.{Ptr, counter_mod, write}
use tsl_sdr.Tsl.FrameAlloc.Chain.{has, Chain}
use tsl_sdr.Tsl.FrameAlloc.Threads.{
  Owner, outside, in_list, client, pusher, Memory, Pc, pop_ready, set_owner, Move, pop_load,
  pop_empty, pop_read, pop_crash, pop_win, pop_lose, push_call, push_load, push_link, push_win,
  push_lose, client_write, System, set_pc, Step, pick, Reach, here, later, start,
}
use tsl_sdr.Tsl.FrameAlloc.Invariant.{
  head_listed, IsSeen, IsFresh, IsShared, Move-IsShared, IsFresh-write, IsFresh-swap, IsFresh-owner,
}

module _ {m : Memory} {xs : List Ptr} (is : IsShared m xs) where
  -- The head as it is now.
  IsSeen-now : IsSeen m m.free m.counter m.ops
  IsSeen-now = (is.counted, omega arith, λ e. refl)

  -- What the moving thread knows afterwards.
  Move-IsFresh :
      (i : ℕ) {m' : Memory} {p p' : Pc} → Move i m p m' p' → IsFresh m i p → IsFresh m' i p'
  unfolding set_owner write
  Move-IsFresh i (pop_load ne) fresh = IsSeen-now
  Move-IsFresh i (pop_empty e) fresh = tt
  Move-IsFresh i (pop_read ne) fresh = (fresh, ne, λ e. refl)
  Move-IsFresh i (pop_crash e) fresh = tt
  Move-IsFresh i (pop_win same count) fresh = tt
  Move-IsFresh i (pop_lose other) fresh = IsSeen-now
  Move-IsFresh i (push_call p held) fresh = ground arith
  Move-IsFresh i push_load fresh = (fresh, IsSeen-now)
  Move-IsFresh i push_link fresh = (fresh.0, fresh.1, ground arith)
  Move-IsFresh i (push_win same count) fresh = tt
  Move-IsFresh i (push_lose other) fresh = (fresh.0, IsSeen-now)
  Move-IsFresh i (client_write p v held) fresh = tt

  -- What another thread knows outlasts the move.
  Move-IsFresh_ne :
      (i j : ℕ) {m' : Memory} {p p' : Pc} (q : Pc)
      → i ≢ j
      → Move i m p m' p'
      → IsFresh m i p
      → IsFresh m j q
      → IsFresh m' j q
  Move-IsFresh_ne i j q ne (pop_load _) mine fresh = fresh
  Move-IsFresh_ne i j q ne (pop_empty _) mine fresh = fresh
  Move-IsFresh_ne i j q ne (pop_read _) mine fresh = fresh
  Move-IsFresh_ne i j q ne (pop_crash _) mine fresh = fresh
  Move-IsFresh_ne i j q ne (pop_win {f} {c} {n} {s} same count) mine fresh =
      let listed : m.owner f ≡ in_list = rw (← same) (head_listed is (rw same mine.1)) in
      IsFresh-swap is j f n c client q (λ e. cc (sym listed ∙ e)) fresh
  Move-IsFresh_ne i j q ne (pop_lose _) mine fresh = fresh
  Move-IsFresh_ne i j q ne (push_call p held) mine fresh =
      IsFresh-owner is j p (pusher i) q (λ e. cc (sym held ∙ e)) fresh
  Move-IsFresh_ne i j q ne push_load mine fresh = fresh
  Move-IsFresh_ne i j q ne (push_link {p} {f}) mine fresh =
      IsFresh-write is j p f q (ground arith) (ground arith) fresh
  Move-IsFresh_ne i j q ne (push_win {p} {f} {c} {s} same count) mine fresh =
      IsFresh-swap is j p p c in_list q (ground arith) fresh
  Move-IsFresh_ne i j q ne (push_lose _) mine fresh = fresh
  Move-IsFresh_ne i j q ne (client_write p v held) mine fresh =
      IsFresh-write is j p v q (λ e. cc (sym held ∙ e)) (λ e. cc (sym held ∙ e)) fresh

-- What holds of a system in which fewer swaps have been made than the counter has values.
pub record Inv (s : System) (xs : List Ptr) : Type 0 where
  pub shared : IsShared s.mem xs
  pub fresh : (i : ℕ) → IsFresh s.mem i (s.pc i)

set_pc-fresh :
    (s : System) (xs : List Ptr) (i : ℕ) {m : Memory} {p : Pc}
    → Inv s xs
    → Move i s.mem (s.pc i) m p
    → (j : ℕ) → IsFresh m j (set_pc s.pc i p j)
unfolding set_pc
set_pc-fresh s xs i inv mv j = elim (Bool-cases (j == i)) [
  | inl same ↦
      let e : j ≡ i = ground arith in rw (same, e) (Move-IsFresh inv.shared i mv (inv.fresh i))
  | inr other ↦
      rw other
        (Move-IsFresh_ne inv.shared i j (s.pc j) (ground arith) mv (inv.fresh i) (inv.fresh j))
]

Step-Inv :
    {s t : System} {xs : List Ptr}
    → Step s t
    → t.mem.ops < counter_mod
    → Inv s xs
    → (ys : List Ptr) × Inv t ys
Step-Inv {s} {xs} (pick i mv) small inv =
    let (ys, shared) = Move-IsShared mv small (inv.fresh i) inv.shared in
    (ys, record { shared = shared; fresh = set_pc-fresh s xs i inv mv })

-- Swaps are only ever added.
Move-ops : {i : ℕ} {m m' : Memory} {p p' : Pc} → Move i m p m' p' → m.ops ≤ m'.ops
Move-ops (pop_load _) = omega arith
Move-ops (pop_empty _) = omega arith
Move-ops (pop_read _) = omega arith
Move-ops (pop_crash _) = omega arith
Move-ops (pop_win _ _) = omega arith
Move-ops (pop_lose _) = omega arith
Move-ops (push_call _ _) = omega arith
Move-ops push_load = omega arith
Move-ops push_link = omega arith
Move-ops (push_win _ _) = omega arith
Move-ops (push_lose _) = omega arith
Move-ops (client_write _ _ _) = omega arith

Step-ops : {s t : System} → Step s t → s.mem.ops ≤ t.mem.ops
Step-ops (pick i mv) = Move-ops mv

Reach-Inv :
    {s t : System} {xs : List Ptr}
    → Reach s t
    → t.mem.ops < counter_mod
    → Inv s xs
    → (ys : List Ptr) × Inv t ys
Reach-Inv {xs} here small inv = (xs, inv)
Reach-Inv (later r st) small inv =
    let (ys, before) = Reach-Inv r (omega (arith, Step-ops st)) inv in Step-Inv st small before

Inv-start :
    (next : Ptr → Ptr) (free : Ptr) (owner : Ptr → Owner) (xs : List Ptr)
    → Chain next free xs
    → ((p : Ptr) → has p xs ≡ true → owner p ≡ in_list)
    → ((p : Ptr) → owner p ≡ in_list → has p xs ≡ true)
    → owner 0 ≡ outside
    → Inv (start next free owner) xs
Inv-start next free owner xs chain listed owned null = record {
  shared = record { chain = chain; listed = listed; owned = owned; null = null; counted = refl };
  fresh = λ i. tt;
}

-- From a state whose free frames are the list, whatever the threads do in whatever order, as long as
-- fewer than 2^64 swaps are made: the free list is again a chain of distinct frames, and a frame
-- is in it exactly when no client holds it and no thread is pushing it.
pub Reach-Chain :
    (next : Ptr → Ptr) (free : Ptr) (owner : Ptr → Owner) (xs : List Ptr) (t : System)
    → Chain next free xs
    → ((p : Ptr) → has p xs ≡ true → owner p ≡ in_list)
    → ((p : Ptr) → owner p ≡ in_list → has p xs ≡ true)
    → owner 0 ≡ outside
    → Reach (start next free owner) t
    → t.mem.ops < counter_mod
    → (ys : List Ptr) × Chain t.mem.next t.mem.free ys
      × ((p : Ptr) → (has p ys ≡ true) ↔ (t.mem.owner p ≡ in_list))
Reach-Chain next free owner xs t chain listed owned null r small =
    let (ys, inv) = Reach-Inv r small (Inv-start next free owner xs chain listed owned null) in
    (ys, inv.shared.chain, λ p. (inv.shared.listed p, inv.shared.owned p))

-- In such a run a swap that pops a frame takes one that was free, so no client held it.
pub pop_win-in_list :
    (next : Ptr → Ptr) (free : Ptr) (owner : Ptr → Owner) (xs : List Ptr) (t : System)
    → Chain next free xs
    → ((p : Ptr) → has p xs ≡ true → owner p ≡ in_list)
    → ((p : Ptr) → owner p ≡ in_list → has p xs ≡ true)
    → owner 0 ≡ outside
    → Reach (start next free owner) t
    → t.mem.ops < counter_mod
    → (i f c n seen : ℕ) → t.pc i ≡ pop_ready f c n seen
    → t.mem.free ≡ f
    → t.mem.counter ≡ c
    → (t.mem.owner f ≡ in_list) × (t.mem.next f ≡ n)
pop_win-in_list next free owner xs t chain listed owned null r small i f c n seen at_swap same
      count =
    let (ys, inv) = Reach-Inv r small (Inv-start next free owner xs chain listed owned null) in
    let fresh : IsFresh t.mem i (pop_ready f c n seen) = rw at_swap at (inv.fresh i) in
    let now : seen ≡ t.mem.ops = omega (arith, inv.shared.counted, fresh.0) in
    (rw (← same) (head_listed inv.shared (rw same fresh.1)), fresh.2 now)
