-- ===== src/Tsl/FrameAlloc/Examples.antt =====
-- The theorems about tsl/frame_alloc.c at concrete allocators.
use tsl_sdr.Prelude.{
  ◌%◌, ◌*◌, ◌<◌, ◌≤◌, ◌≡◌, ◌↔◌, refl, true, none, some, List, [], ◌∷◌, arith, ◌==◌, if◌then◌else◌,
}
use tsl_sdr.Tsl.Result.{a_ok, a_e_nomem, a_e_badargs}
use tsl_sdr.Tsl.FrameAlloc.State.{Ptr, size_mod, FrameAlloc}
use tsl_sdr.Tsl.FrameAlloc.Chain.{has, Chain, nil, cons}
use tsl_sdr.Tsl.FrameAlloc.Ops.{round_frame, frame_alloc_new}
use tsl_sdr.Tsl.FrameAlloc.Laws.{frames, frame_alloc_new-Chain}
use tsl_sdr.Tsl.FrameAlloc.Stack.{
  Call, alloc, free_frame, scribble, AreFair, stack_step, stack_run, frames_run,
  frames_run-stack_run,
}
use tsl_sdr.Tsl.FrameAlloc.Threads.{
  Owner, outside, in_list, pop_ready, crashed, set_pc, System, Reach, start,
}
use tsl_sdr.Tsl.FrameAlloc.Safety.{Reach-Chain, pop_win-in_list}
use tsl_sdr.Tsl.FrameAlloc.Race.{
  both_ready, one_left, Reach-both_ready, Reach-one_left, pop_free-crashed,
}

three_fit : 3 * round_frame 100 < size_mod
unfolding round_frame
three_fit = omega arith

frame_alloc_new-Chain_example :
    (fa : FrameAlloc) × (frame_alloc_new (record { zaalloc = a_ok; mmap = some 4096 }) none 100 3
      ≡ some (a_ok, some fa))
    × (fa.frame_size ≡ round_frame 100)
    × (round_frame 100 % 64 ≡ 0)
    × (100 ≤ round_frame 100)
    × Chain fa.next fa.free (frames 4096 (round_frame 100) 3)
frame_alloc_new-Chain_example =
    frame_alloc_new-Chain none 100 3 4096 (omega arith) (omega arith) (omega arith) (omega arith)
      three_fit

-- Frames at 64 and 128, the first of which is linked to the second.
abbrev two_left : FrameAlloc
two_left = record {
  free = 64;
  counter = 5;
  next = λ a. if a == 64 then 128 else 0;
  rgn = 64;
  rgn_len = 192;
  frame_size = 64;
  nr_frames = 3;
  nr_frees = 2;
  nr_allocs = 3;
}

two_left-Chain : Chain two_left.next two_left.free (64 ∷ 128 ∷ [])
unfolding has
two_left-Chain = cons (omega arith) refl (cons (omega arith) refl nil)

-- One free frame, at 64.
abbrev unlinked : Ptr → Ptr
unlinked _ = 0

abbrev one_free : Ptr → Owner
one_free p = if p == 64 then in_list else outside

one-Chain : Chain unlinked 64 (64 ∷ [])
unfolding has
one-Chain = cons (omega arith) refl nil

one_listed : (p : Ptr) → has p (64 ∷ []) ≡ true → one_free p ≡ in_list
unfolding has
one_listed p h = ground arith

one_owned : (p : Ptr) → one_free p ≡ in_list → has p (64 ∷ []) ≡ true
unfolding has
one_owned p h = ground arith

pop_free-crashed_example : (t : System) × Reach (start unlinked 64 one_free) t × (t.pc 1 ≡ crashed)
pop_free-crashed_example = pop_free-crashed unlinked one_free 64 (omega arith) refl

abbrev after : System
after = one_left unlinked one_free 64 (omega arith) refl

abbrev before : System
before = both_ready unlinked one_free 64 (omega arith) refl

Reach-Chain_example :
    (ys : List Ptr) × Chain after.mem.next after.mem.free ys
    × ((p : Ptr) → (has p ys ≡ true) ↔ (after.mem.owner p ≡ in_list))
Reach-Chain_example =
    Reach-Chain unlinked 64 one_free (64 ∷ []) after one-Chain one_listed one_owned refl
      (Reach-one_left unlinked one_free 64 (omega arith) refl) (omega arith)

ready : before.pc 0 ≡ pop_ready 64 0 0 0
unfolding set_pc
ready = refl

pop_win-in_list_example : (before.mem.owner 64 ≡ in_list) × (before.mem.next 64 ≡ 0)
pop_win-in_list_example =
    pop_win-in_list unlinked 64 one_free (64 ∷ []) before one-Chain one_listed one_owned refl
      (Reach-both_ready unlinked one_free 64 (omega arith) refl) (omega arith) 0 64 0 0 0 ready refl
      refl

-- The one client takes a frame, writes into it, gives it back, and then asks for three.
abbrev calls : List Call
calls = alloc ∷ scribble 64 7 ∷ free_frame 64 ∷ alloc ∷ alloc ∷ alloc ∷ free_frame 0 ∷ []

calls-AreFair : AreFair (64 ∷ 128 ∷ []) calls
unfolding has stack_step
calls-AreFair = (tt, (refl, (refl, (tt, (tt, (tt, (refl, tt)))))))

frames_run-stack_run_example : frames_run two_left calls ≡ stack_run (64 ∷ 128 ∷ []) calls
frames_run-stack_run_example =
    frames_run-stack_run two_left (64 ∷ 128 ∷ []) calls two_left-Chain calls-AreFair

last_freed_first :
    stack_run (64 ∷ 128 ∷ []) calls
    ≡ (a_ok, 64)
      ∷ (a_ok, 64)
      ∷ (a_ok, 0)
      ∷ (a_ok, 64)
      ∷ (a_ok, 128)
      ∷ (a_e_nomem, 0)
      ∷ (a_e_badargs, 0)
      ∷ []
unfolding stack_run stack_step
last_freed_first = refl
