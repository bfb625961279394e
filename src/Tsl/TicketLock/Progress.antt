-- ===== src/Tsl/TicketLock/Progress.antt =====
-- A thread of tsl/ticket_lock.h whose turn has come gets the lock.
use mathlib.Core.Path.{subst}
use tsl_sdr.Prelude.{ℕ, ◌%◌, ◌≡◌, ◌≢◌, refl, sym, ap, ◌∙◌, inl, inr, Bool-cases, true, ◌==◌, arith}
use tsl_sdr.Tsl.TicketLock.Word.{half, serving}
use tsl_sdr.Tsl.TicketLock.Threads.{
  Pc, spinning, holding, Move, enter, reload, System, set_pc, Step, pick, Reach, start,
}
use tsl_sdr.Tsl.TicketLock.Invariant.{IsGood, word-serving}
use tsl_sdr.Tsl.TicketLock.Exclusion.{Uncrowded, Reach-Inv}

set_pc_self : (pc : ℕ → Pc) (i : ℕ) (p : Pc) → set_pc pc i p i ≡ p
unfolding set_pc
set_pc_self pc i p = let itself : (i == i) ≡ true = ground arith in rw itself refl

-- A step of the thread `i`, as a part of the program's steps.
pub record StepBy (i : ℕ) (s u : System) : Type 0 where
  pub at : Pc
  pub moved : Move s.lock (s.pc i) u.lock at
  pub rest : u.pc ≡ set_pc s.pc i at

StepBy-Step : (i : ℕ) (s u : System) → StepBy i s u → Step s u
StepBy-Step i s u by =
    subst (λ pc. Step s (record { lock = u.lock; pc = pc })) (sym by.rest) (pick i by.moved)

-- A step that a thread can take from where it stands leads to where the step says.
StepBy-to :
    (s : System) (i : ℕ) (p p' : Pc)
    → s.pc i ≡ p
    → Move s.lock p s.lock p'
    → (u : System) × StepBy i s u × (u.lock ≡ s.lock) × (u.pc i ≡ p')
StepBy-to s i p p' at_p mv = (
  record { lock = s.lock; pc = set_pc s.pc i p' },
  record { at = p'; moved = subst (λ q. Move s.lock q s.lock p') (sym at_p) mv; rest = refl },
  refl,
  set_pc_self s.pc i p',
)

-- One step of the thread `i` alone, or two.
pub data Soon (i : ℕ) (s u : System) : Type 0 where
  once : StepBy i s u → Soon i s u
  twice : (v : System) → StepBy i s v → StepBy i v u → Soon i s u

-- From any state that the threads reach with fewer than 2^32 tickets in flight on the way: if as many
-- tickets have been served as were given out before that of a spinning thread, that thread gets the
-- lock by at most two steps of its own with no step of another thread between, a test of the value
-- that it has, or a load and a test, and these leave the lock as it is.
pub Reach-turn :
    (t : System) (r : Reach start t) (i ticket value number seen : ℕ)
    → Uncrowded r
    → t.pc i ≡ spinning ticket value number seen
    → number ≡ t.lock.served
    → (u : System) × Soon i t u × (u.lock ≡ t.lock) × (u.pc i ≡ holding number)
Reach-turn t r i ticket value number seen small at_i turn =
    let inv = Reach-Inv r small in
    let good : IsGood t.lock (spinning ticket value number seen) =
      subst (λ q. IsGood t.lock q) at_i (inv.good i) in
    let now : ticket ≡ serving t.lock.value =
      good.0 ∙ ap (λ (n : ℕ). n % half) turn ∙ sym (word-serving inv.sound) in
    elim (Bool-cases (ticket == serving value)) [
      | inl same ↦
          let e : ticket ≡ serving value = ground arith in
          let (u, step, kept, at_u) =
            StepBy-to t i (spinning ticket value number seen) (holding number) at_i (enter e) in
          (u, once step, kept, at_u)
      | inr other ↦
          let ne : ticket ≢ serving value = ground arith in
          let (u, step, kept, at_u) =
            StepBy-to t i (spinning ticket value number seen)
              (spinning ticket t.lock.value number t.lock.served) at_i (reload ne) in
          let (v, step', kept', at_v) =
            StepBy-to u i (spinning ticket t.lock.value number t.lock.served) (holding number) at_u
              (enter now) in
          (v, twice u step step', kept' ∙ kept, at_v)
    ]
