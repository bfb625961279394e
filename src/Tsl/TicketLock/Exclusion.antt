-- ===== src/Tsl/TicketLock/Exclusion.antt =====
-- No two threads hold a lock of tsl/ticket_lock.h, and it is held in the order of the tickets.
use mathlib.Core.Path.{subst}
use tsl_sdr.Prelude.{
  ℕ, ◌+◌, ◌<◌, ◌≡◌, ◌≢◌, refl, sym, ap, ◌∙◌, ◌⊎◌, inl, inr, some, Bool-cases, ◌==◌, arith,
}
use tsl_sdr.Tsl.TicketLock.Word.{half}
use tsl_sdr.Tsl.TicketLock.Threads.{
  Lock, Pc, idle, spinning, trying, holding, Move, acquire, enter, reload, release, try, try_busy,
  try_win, try_lose, System, set_pc, Step, pick, Reach, here, later, start,
}
use tsl_sdr.Tsl.TicketLock.Invariant.{
  IsSound, IsGood, numbered, Move-IsSound, Move-IsGood, Move-IsGood_ne,
}

-- In every state on the way fewer than 2^32 tickets are given out and not yet served.
abbrev pub Uncrowded : {s t : System} → Reach s t → Type 0
Uncrowded here = Unit
Uncrowded (later {u} r st) = Uncrowded r × (u.lock.next < u.lock.served + half)

pub record Inv (s : System) : Type 0 where
  pub sound : IsSound s.lock
  pub good : (i : ℕ) → IsGood s.lock (s.pc i)
  distinct : (i j n : ℕ) → numbered (s.pc i) ≡ some n → numbered (s.pc j) ≡ some n → i ≡ j

-- A step keeps the thread's number, gives it up, or takes the next one.
Move-numbered :
    {m m' : Lock} {p p' : Pc} (n : ℕ)
    → Move m p m' p'
    → numbered p' ≡ some n
    → (numbered p ≡ some n) ⊎ (n ≡ m.next)
Move-numbered n acquire e = inr cc
Move-numbered n (enter _) e = inl e
Move-numbered n (reload _) e = inl e
Move-numbered n release e = absurd cc
Move-numbered n try e = absurd cc
Move-numbered n (try_busy _) e = absurd cc
Move-numbered n (try_win _ _) e = inr cc
Move-numbered n (try_lose _ _) e = absurd cc

-- Every number that a thread has was given out before.
IsGood-numbered : (m : Lock) (p : Pc) (n : ℕ) → IsGood m p → numbered p ≡ some n → n < m.next
IsGood-numbered m idle n good e = absurd cc
IsGood-numbered m (trying value) n good e = absurd cc
IsGood-numbered m (spinning ticket value number seen) n good e =
    let same : number ≡ n = cc in rw (← same) good.4
IsGood-numbered m (holding number) n good e = let same : number ≡ n = cc in rw (← same) good.1

module _ {s : System} (inv : Inv s) (i : ℕ) {m : Lock} {p : Pc}
    (mv : Move s.lock (s.pc i) m p) where
  -- What the thread that moved has afterwards, no other thread has.
  moved-apart : (j n : ℕ) → j ≢ i → numbered p ≡ some n → numbered (s.pc j) ≢ some n
  moved-apart j n ne e f = elim (Move-numbered n mv e) [
    | inl kept ↦ ne (inv.distinct j i n f kept)
    | inr given ↦ absurd (omega (arith, given, IsGood-numbered s.lock (s.pc j) n (inv.good j) f))
  ]

  set_pc-IsGood : (j : ℕ) → IsGood m (set_pc s.pc i p j)
  unfolding set_pc
  set_pc-IsGood j = elim (Bool-cases (j == i)) [
    | inl same ↦ let e : j ≡ i = ground arith in rw same (Move-IsGood inv.sound mv (inv.good i))
    | inr other ↦
        let ne : j ≢ i = ground arith in
        rw other (
          Move-IsGood_ne (s.pc j) mv (λ n e f. ne (inv.distinct j i n f e)) (inv.good i)
            (inv.good j))
  ]

  set_pc-cases :
      (j : ℕ) → ((j ≡ i) × (set_pc s.pc i p j ≡ p)) ⊎ ((j ≢ i) × (set_pc s.pc i p j ≡ s.pc j))
  unfolding set_pc
  set_pc-cases j = elim (Bool-cases (j == i)) [
    | inl same ↦ let e : j ≡ i = ground arith in inl (e, rw same refl)
    | inr other ↦ let ne : j ≢ i = ground arith in inr (ne, rw other refl)
  ]

  set_pc-distinct :
      (j k n : ℕ)
      → numbered (set_pc s.pc i p j) ≡ some n
      → numbered (set_pc s.pc i p k) ≡ some n
      → j ≡ k
  set_pc-distinct j k n e f = elim (set_pc-cases j) [
    | inl (here_j, at_j) ↦ elim (set_pc-cases k) [
      | inl (here_k, at_k) ↦ here_j ∙ sym here_k
      | inr (ne, at_k) ↦
          absurd (moved-apart k n ne (ap numbered (sym at_j) ∙ e) (ap numbered (sym at_k) ∙ f))
    ]
    | inr (ne, at_j) ↦ elim (set_pc-cases k) [
      | inl (here_k, at_k) ↦
          absurd (moved-apart j n ne (ap numbered (sym at_k) ∙ f) (ap numbered (sym at_j) ∙ e))
      | inr (other, at_k) ↦
          inv.distinct j k n (ap numbered (sym at_j) ∙ e) (ap numbered (sym at_k) ∙ f)
    ]
  ]

Step-Inv : {s t : System} → Step s t → t.lock.next < t.lock.served + half → Inv s → Inv t
Step-Inv (pick i mv) small inv = record {
  sound = Move-IsSound inv.sound mv small (inv.good i);
  good = set_pc-IsGood inv i mv;
  distinct = set_pc-distinct inv i mv;
}

Inv-start : Inv start
Inv-start = record {
  sound = record { packs = refl; ordered = omega arith; room = omega arith };
  good = λ i. tt;
  distinct = λ i j n e f. absurd cc;
}

pub Reach-Inv : {t : System} (r : Reach start t) → Uncrowded r → Inv t
Reach-Inv here small = Inv-start
Reach-Inv (later r st) small = Step-Inv st small.1 (Reach-Inv r small.0)

-- From the unlocked state, whatever the threads do in whatever order, as long as fewer than 2^32
-- tickets are in flight: two threads that hold the lock are one, and the number of its ticket is how
-- many were served before, so that the lock is held in the order of the tickets.
pub Reach-holding :
    (t : System) (r : Reach start t) (i j a b : ℕ)
    → Uncrowded r
    → t.pc i ≡ holding a
    → t.pc j ≡ holding b
    → (i ≡ j) × (a ≡ t.lock.served)
Reach-holding t r i j a b small at_i at_j =
    let inv = Reach-Inv r small in
    let good_i : IsGood t.lock (holding a) = subst (λ q. IsGood t.lock q) at_i (inv.good i) in
    let good_j : IsGood t.lock (holding b) = subst (λ q. IsGood t.lock q) at_j (inv.good j) in
    let equal : a ≡ b = good_i.0 ∙ sym good_j.0 in
    (inv.distinct i j a (ap numbered at_i) (ap numbered at_j ∙ ap some (sym equal)), good_i.0)
