-- ===== src/Tsl/FrameAlloc/Stack.antt =====
-- The contract of tsl/frame_alloc.c for one caller: a stack of free frames.
use tsl_sdr.Prelude.{
  ◌≡◌, refl, ap₂, inl, inr, Bool-cases, true, false, List, [], ◌∷◌, ◌==◌, if◌then◌else◌, arith,
}
use tsl_sdr.Tsl.Result.{Result, a_ok, a_e_nomem, a_e_badargs}
use tsl_sdr.Tsl.FrameAlloc.State.{Ptr, FrameAlloc, write}
use tsl_sdr.Tsl.FrameAlloc.Ops.{frame_alloc, frame_free}
use tsl_sdr.Tsl.FrameAlloc.Chain.{has, Chain, Chain-write}
use tsl_sdr.Tsl.FrameAlloc.Laws.{frame_alloc-cons, frame_alloc-nil, frame_free-Chain}

-- What a client does: it calls `frame_alloc`, or `frame_free` with a frame or NULL, or it writes into
-- the first word of a frame.
pub data Call : Type 0 where
  alloc : Call
  free_frame : Ptr → Call
  scribble : (p v : Ptr) → Call

-- The code, and the client's pointer afterwards.
abbrev pub Reply : Type 0
Reply = Result × Ptr

unfoldable pub stack_step : List Ptr → Call → List Ptr × Reply
stack_step [] alloc = ([], (a_e_nomem, 0))
stack_step (x ∷ xs) alloc = (xs, (a_ok, x))
stack_step xs (free_frame p) = if p == 0 then (xs, (a_e_badargs, 0)) else (p ∷ xs, (a_ok, 0))
stack_step xs (scribble p v) = (xs, (a_ok, p))

unfoldable pub stack_run : List Ptr → List Call → List Reply
stack_run xs [] = []
stack_run xs (c ∷ cs) = let (ys, reply) = stack_step xs c in reply ∷ stack_run ys cs

-- The client frees and writes only what it was given and has not freed.
abbrev pub IsFair : List Ptr → Call → Type 0
IsFair xs alloc = Unit
IsFair xs (free_frame p) = has p xs ≡ false
IsFair xs (scribble p v) = has p xs ≡ false

abbrev pub AreFair : List Ptr → List Call → Type 0
AreFair xs [] = Unit
AreFair xs (c ∷ cs) = IsFair xs c × AreFair (stack_step xs c).0 cs

abbrev pub answered : Result × FrameAlloc × Ptr → FrameAlloc × Reply
answered (code, fa, p) = (fa, (code, p))

unfoldable pub frames_step : FrameAlloc → Call → FrameAlloc × Reply
frames_step fa alloc = answered (frame_alloc fa)
frames_step fa (free_frame p) = answered (frame_free fa p)
frames_step fa (scribble p v) = (record fa { next = write fa.next p v }, (a_ok, p))

unfoldable pub frames_run : FrameAlloc → List Call → List Reply
frames_run fa [] = []
frames_run fa (c ∷ cs) = let (fa', reply) = frames_step fa c in reply ∷ frames_run fa' cs

free_null : (fa : FrameAlloc) (p : Ptr) → (p == 0) ≡ true → frame_free fa p ≡ (a_e_badargs, fa, 0)
unfolding frame_free
free_null fa p null = let none : p ≡ 0 = ground arith in rw none

abbrev Agree : FrameAlloc × Reply → List Ptr × Reply → Type 0
Agree (fa, reply) (xs, reply') = Chain fa.next fa.free xs × (reply ≡ reply')

frames_step-Agree :
    (fa : FrameAlloc) (xs : List Ptr) (c : Call)
    → Chain fa.next fa.free xs
    → IsFair xs c
    → Agree (frames_step fa c) (stack_step xs c)
unfolding frames_step stack_step
frames_step-Agree fa [] alloc chain fair = rw (frame_alloc-nil fa chain) (chain, refl)
frames_step-Agree fa (x ∷ xs) alloc chain fair =
    let (code, frame, ne, new, rest, kept) = frame_alloc-cons fa x xs chain in
    (rest, ap₂ (λ (r : Result) (p : Ptr). (r, p)) code frame)
frames_step-Agree fa xs (free_frame p) chain fair = elim (Bool-cases (p == 0)) [
  | inl null ↦ rw (free_null fa p null, null) (chain, refl)
  | inr some_frame ↦
      let (code, cleared, pushed) = frame_free-Chain fa p xs chain (ground arith) fair in
      rw some_frame (pushed, ap₂ (λ (r : Result) (q : Ptr). (r, q)) code cleared)
]
frames_step-Agree fa xs (scribble p v) chain fair = (Chain-write p v chain fair, refl)

-- From a state whose free list is the given frames, the allocator replies to every sequence of calls and
-- writes of a client that touches only frames it holds as a stack of those frames does: it hands out
-- the one freed last, and A_E_NOMEM with NULL exactly when none is left.
pub frames_run-stack_run :
    (fa : FrameAlloc) (xs : List Ptr) (cs : List Call)
    → Chain fa.next fa.free xs
    → AreFair xs cs
    → frames_run fa cs ≡ stack_run xs cs
unfolding frames_run stack_run
frames_run-stack_run fa xs [] chain fair = refl
frames_run-stack_run fa xs (c ∷ cs) chain (fair, rest) =
    let (left, reply) = frames_step-Agree fa xs c chain fair in
    ap₂ (λ x xs. x ∷ xs) reply
      (frames_run-stack_run (frames_step fa c).0 (stack_step xs c).0 cs left rest)
