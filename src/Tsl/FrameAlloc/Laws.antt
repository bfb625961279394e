-- ===== src/Tsl/FrameAlloc/Laws.antt =====
-- The functions of tsl/frame_alloc.c on the list of free frames: a new allocator has all its frames
-- free, an allocation takes the first, and a release puts one in front.
use tsl_sdr.Prelude.{
  ℕ, zero, suc, ◌+◌, ◌*◌, ◌%◌, ◌<◌, ◌≤◌, ◌≡◌, ◌≢◌, refl, true, false, Option, some, List, [], ◌∷◌,
  arith, ltb, lt→ltb, ◌==◌, ap, ◌∙◌, sym,
}
use tsl_sdr.Prelude.Mask.{bit_and-line}
use tsl_sdr.Tsl.Result.{a_ok, a_e_nomem}
use tsl_sdr.Tsl.FrameAlloc.State.{Ptr, size_mod, FrameAlloc, write}
use tsl_sdr.Tsl.FrameAlloc.Chain.{has, Chain, nil, Chain-push, Chain-head, Chain-end}
use tsl_sdr.Tsl.FrameAlloc.Ops.{
  init_loop, frame_alloc_init, round_frame, frame_alloc_new, pop_free, push_free, frame_alloc,
  frame_free,
}

-- The addresses of the first `n` frames of a region, the last one first.
unfoldable pub frames : (base size n : ℕ) → List Ptr
frames base size zero = []
frames base size (suc n) = (base + n * size) ∷ frames base size n

has-frames :
    (base size n p : ℕ) → 0 < size → base + n * size ≤ p → has p (frames base size n) ≡ false
unfolding has frames
has-frames base size zero p h le = refl
has-frames base size (suc n) p h le = ground (arith, has-frames base size n p)

module _ (base size : ℕ) (base_pos : 0 < base) (size_pos : 0 < size) where
  -- What the loop of `_frame_alloc_init` makes of an object: only the list changes.
  abbrev Initialised : (total : ℕ) → FrameAlloc → Option FrameAlloc → Type 0
  Initialised total fa result =
      (next : Ptr → Ptr) × (free : Ptr) × (result ≡ some (record fa { next = next; free = free }))
      × Chain next free (frames base size total)

  -- The loop once `k` frames are linked and `n` are left.
  init_loop-Initialised :
      (n fuel k total ptr : ℕ) (fa : FrameAlloc)
      → n ≤ fuel
      → k + n ≡ total
      → ptr ≡ base + k * size
      → fa.frame_size ≡ size
      → fa.rgn + fa.rgn_len ≡ base + total * size
      → Chain fa.next fa.free (frames base size k)
      → Initialised total fa (init_loop fuel ptr fa)
  unfolding init_loop frames
  init_loop-Initialised zero fuel k total ptr fa h sum e es er chain =
      let same : k ≡ total = omega arith in
      let at_end : ptr ≡ fa.rgn + fa.rgn_len = e ∙ ap (λ (n : ℕ). base + n * size) same ∙ sym er in
      (fa.next, fa.free, stops fuel at_end, rw (← same) chain)
    where
      stops : (fuel : ℕ) → ptr ≡ fa.rgn + fa.rgn_len → init_loop fuel ptr fa ≡ some fa
      stops zero e = ground arith
      stops (suc fuel) e = ground arith
  init_loop-Initialised (suc n) zero k total ptr fa h sum e es er chain = absurd (omega arith)
  init_loop-Initialised (suc n) (suc fuel) k total ptr fa h sum e es er chain =
      let more : ltb ptr (fa.rgn + fa.rgn_len) ≡ true =
        lt→ltb ptr (fa.rgn + fa.rgn_len) (rw (er, ← sum, e) (omega (arith, size_pos))) in
      let pushed : Chain (write fa.next ptr fa.free) ptr (ptr ∷ frames base size k) =
        Chain-push ptr chain (omega (arith, e))
          (has-frames base size k ptr size_pos (omega (arith, e))) in
      rw more (
        init_loop-Initialised n fuel (suc k) total (ptr + fa.frame_size)
          (record fa { next = write fa.next ptr fa.free; free = ptr }) (omega arith) (omega arith)
          (omega (arith, e, es)) es er (rw (← e) pushed))

-- The frame size is a multiple of the cache line that holds the bytes asked for.
pub round_frame_lem :
    (bytes : ℕ)
    → bytes + 63 < size_mod
    → (round_frame bytes % 64 ≡ 0)
      × (bytes ≤ round_frame bytes)
      × (64 ≤ round_frame bytes)
      × (round_frame bytes < bytes + 64 + 64)
unfolding round_frame
round_frame_lem bytes h = ground (arith, bit_and-line (bytes + 63))

-- With memory for it, a new allocator holds exactly its `nr` frames free, each at its multiple of a
-- frame size that is whole cache lines and no smaller than asked for.
pub frame_alloc_new-Chain :
    (old : Option FrameAlloc) (bytes nr rgn : ℕ)
    → 0 < bytes
    → 0 < nr
    → 0 < rgn
    → bytes + 63 < size_mod
    → nr * round_frame bytes < size_mod
    → (fa : FrameAlloc) × (frame_alloc_new (record { zaalloc = a_ok; mmap = some rgn }) old bytes nr
        ≡ some (a_ok, some fa))
      × (fa.frame_size ≡ round_frame bytes)
      × (round_frame bytes % 64 ≡ 0)
      × (bytes ≤ round_frame bytes)
      × Chain fa.next fa.free (frames rgn (round_frame bytes) nr)
unfolding frame_alloc_new frame_alloc_init
frame_alloc_new-Chain old bytes nr rgn hb hn hr fits small =
    let size : ℕ = round_frame bytes in
    let (aligned, large, line, _) = round_frame_lem bytes fits in
    let filled : (bytes == 0) ≡ false = ground arith in
    let counted : (nr == 0) ≡ false = ground arith in
    let fresh : FrameAlloc = record {
      free = 0;
      counter = 0;
      next = λ _. 0;
      rgn = rgn;
      rgn_len = nr * size % size_mod;
      frame_size = size;
      nr_frames = nr;
      nr_frees = 0;
      nr_allocs = 0;
    } in
    let whole : nr * size % size_mod ≡ nr * size = omega (arith, small) in
    let enough : nr ≤ nr * size % size_mod = grind (arith, whole, line) in
    let (next, free, runs, chain) =
      init_loop-Initialised rgn size hr (omega (arith, line)) nr (nr * size % size_mod) 0 nr rgn
        fresh enough (omega arith) (omega arith) refl (omega (arith, whole))
        (unfold frames in nil) in
    (
      record fresh { next = next; free = free },
      rw (filled, counted, runs) refl,
      refl,
      aligned,
      large,
      chain,
    )

-- An allocation takes the first free frame and leaves the frames' memory alone.
pub frame_alloc-cons :
    (fa : FrameAlloc) (p : Ptr) (xs : List Ptr)
    → Chain fa.next fa.free (p ∷ xs)
    → ((frame_alloc fa).0 ≡ a_ok)
      × ((frame_alloc fa).2 ≡ p)
      × (p ≢ 0)
      × (has p xs ≡ false)
      × Chain ((frame_alloc fa).1).next ((frame_alloc fa).1).free xs
      × (((frame_alloc fa).1).next ≡ fa.next)
unfolding frame_alloc pop_free
frame_alloc-cons fa p xs chain =
    let (head, ne, new, rest) = Chain-head chain in
    let some_free : (fa.free == 0) ≡ false = ground arith in
    rw some_free (refl, head, ne, new, rw head rest, refl)

-- With no frame left an allocation fails with A_E_NOMEM and NULL, and changes nothing.
pub frame_alloc-nil :
    (fa : FrameAlloc) → Chain fa.next fa.free [] → frame_alloc fa ≡ (a_e_nomem, fa, 0)
unfolding frame_alloc pop_free
frame_alloc-nil fa chain =
    let none_free : (fa.free == 0) ≡ true = rw (Chain-end chain) in rw none_free

-- A release puts a frame that was handed out in front of the free ones and clears the pointer.
pub frame_free-Chain :
    (fa : FrameAlloc) (p : Ptr) (xs : List Ptr)
    → Chain fa.next fa.free xs
    → p ≢ 0
    → has p xs ≡ false
    → ((frame_free fa p).0 ≡ a_ok)
      × ((frame_free fa p).2 ≡ 0)
      × Chain ((frame_free fa p).1).next ((frame_free fa p).1).free (p ∷ xs)
unfolding frame_free push_free
frame_free-Chain fa p xs chain ne out =
    let given : (p == 0) ≡ false = ground arith in rw given (refl, refl, Chain-push p chain ne out)
