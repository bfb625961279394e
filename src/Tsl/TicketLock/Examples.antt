-- ===== src/Tsl/TicketLock/Examples.antt =====
-- A lock of tsl/ticket_lock.h at work.
use tsl_sdr.Prelude.{ℕ, ◌≡◌, refl, arith}
use tsl_sdr.Tsl.TicketLock.Word.{half, packed, serve_next}
use tsl_sdr.Tsl.TicketLock.Threads.{
  idle, spinning, holding, acquire, enter, release, System, set_pc, pick, Reach, here, later, start,
}
use tsl_sdr.Tsl.TicketLock.Exclusion.{Uncrowded, Reach-holding}
use tsl_sdr.Tsl.TicketLock.Progress.{Soon, Reach-turn}

abbrev first : ℕ
first = 0

-- Thread 0 takes ticket 0 and enters, and thread 1 takes ticket 1.
abbrev one_inside : System
one_inside = record {
  lock = record { value = packed 2 0; next = 2; served = 0 };
  pc =
      set_pc (set_pc (set_pc (λ _. idle) 0 (spinning 0 0 0 0)) 0 (holding 0)) 1
        (spinning 1 half 1 0);
}

entered : Reach start one_inside
unfolding set_pc
entered =
    later (later (later here (pick 0 acquire)) (pick 0 (enter {value = 0} {seen = 0} refl)))
      (pick 1 acquire)

few : Uncrowded entered
unfolding entered
few = (((tt, omega arith), omega arith), omega arith)

Reach-holding_example : (first ≡ first) × (first ≡ one_inside.lock.served)
unfolding set_pc
Reach-holding_example = Reach-holding one_inside entered 0 0 0 0 few refl refl

-- Thread 0 leaves, and it is the turn of thread 1.
abbrev released : System
released = record {
  lock = record { value = serve_next (packed 2 0); next = 2; served = 1 };
  pc = set_pc one_inside.pc 0 idle;
}

left : Reach start released
unfolding set_pc entered
left = later entered (pick 0 (release {number = 0}))

still_few : Uncrowded left
unfolding left
still_few = (few, omega arith)

Reach-turn_example :
    (u : System) × Soon 1 released u × (u.lock ≡ released.lock) × (u.pc 1 ≡ holding 1)
unfolding set_pc
Reach-turn_example = Reach-turn released left 1 1 half 1 0 still_few refl refl
