-- ===== src/Tsl/TicketLock/Invariant.antt =====
-- What each step on a lock of tsl/ticket_lock.h keeps: of the word, of the thread that takes it, and of
-- every other thread.
use tsl_sdr.Prelude.{ℕ, ◌+◌, ◌%◌, ◌≤◌, ◌<◌, ◌≡◌, ◌≢◌, sym, ap, ◌∙◌, Option, none, some, arith}
use tsl_sdr.Tsl.TicketLock.Word.{
  half, ticket_of, serving, take_ticket, serve_next, packed, ticket_of-packed, serving-packed,
  take_ticket-packed, serve_next-packed, low_half-injective,
}
use tsl_sdr.Tsl.TicketLock.Threads.{
  Lock, Pc, idle, spinning, trying, holding, Move, acquire, enter, reload, release, try, try_busy,
  try_win, try_lose,
}

-- The word says what has been given out and served, and less than one half is in flight.
pub record IsSound (m : Lock) : Type 0 where
  pub packs : m.value ≡ packed m.next m.served
  pub ordered : m.served ≤ m.next
  pub room : m.next < m.served + half

-- Of a thread: which ticket it has and how fresh its value of the word is.
abbrev pub IsGood : Lock → Pc → Type 0
IsGood m idle = Unit
IsGood m (trying value) = Unit
IsGood m (spinning ticket value number seen) =
    (ticket ≡ number % half)
    × (serving value ≡ seen % half)
    × (seen ≤ m.served)
    × (m.served ≤ number)
    × (number < m.next)
    × (number < seen + half)
IsGood m (holding number) = (number ≡ m.served) × (number < m.next)

abbrev pub numbered : Pc → Option ℕ
numbered idle = none
numbered (trying value) = none
numbered (spinning ticket value number seen) = some number
numbered (holding number) = some number

module _ {m : Lock} (sound : IsSound m) where
  word-ticket : ticket_of m.value ≡ m.next % half
  word-ticket = ap ticket_of sound.packs ∙ ticket_of-packed m.next m.served

  pub word-serving : serving m.value ≡ m.served % half
  word-serving = ap serving sound.packs ∙ serving-packed m.next m.served

  -- The lock is free when the word's halves agree.
  free-next : ticket_of m.value ≡ serving m.value → m.next ≡ m.served
  free-next e =
      low_half-injective m.served m.next sound.ordered sound.room
        (sym word-ticket ∙ e ∙ word-serving)

  pub Move-IsSound :
      {m' : Lock} {p p' : Pc}
      → Move m p m' p'
      → m'.next < m'.served + half
      → IsGood m p
      → IsSound m'
  Move-IsSound acquire small good = record {
    packs = ap take_ticket sound.packs ∙ take_ticket-packed m.next m.served;
    ordered = omega (arith, sound.ordered);
    room = small;
  }
  Move-IsSound (enter _) small good = sound
  Move-IsSound (reload _) small good = sound
  Move-IsSound release small good = record {
    packs = ap serve_next sound.packs ∙ serve_next-packed m.next m.served;
    ordered = omega (arith, good.0, good.1);
    room = small;
  }
  Move-IsSound try small good = sound
  Move-IsSound (try_busy _) small good = sound
  Move-IsSound (try_win _ same) small good = record {
    packs = ap take_ticket (sym same ∙ sound.packs) ∙ take_ticket-packed m.next m.served;
    ordered = omega (arith, sound.ordered);
    room = small;
  }
  Move-IsSound (try_lose _ _) small good = sound

  -- A thread's own step.
  pub Move-IsGood : {m' : Lock} {p p' : Pc} → Move m p m' p' → IsGood m p → IsGood m' p'
  Move-IsGood acquire good =
      (word-ticket, word-serving, omega arith, sound.ordered, omega arith, sound.room)
  Move-IsGood (enter {number} {seen} e) (own, loaded, old, waits, given, near) =
      let mine : number ≡ seen =
        low_half-injective seen number (omega arith) near (sym own ∙ e ∙ loaded) in
      (omega arith, given)
  Move-IsGood (reload _) (own, loaded, old, waits, given, near) =
      (own, word-serving, omega arith, waits, given, omega (arith, sound.room))
  Move-IsGood release good = tt
  Move-IsGood try good = tt
  Move-IsGood (try_busy _) good = tt
  Move-IsGood (try_win e same) good = (free-next (rw same e), omega arith)
  Move-IsGood (try_lose _ _) good = tt

-- A step of another thread.
more-IsGood :
    (m : Lock) (next value : ℕ) (q : Pc)
    → m.next ≤ next
    → IsGood m q
    → IsGood (record m { next = next; value = value }) q
more-IsGood m next value idle le good = tt
more-IsGood m next value (trying v) le good = tt
more-IsGood m next value (spinning ticket v number seen) le (own, loaded, old, waits, given, near) =
    (own, loaded, old, waits, omega arith, near)
more-IsGood m next value (holding number) le (now, given) = (now, omega arith)

served-IsGood :
    (m : Lock) (value : ℕ) (q : Pc)
    → numbered q ≢ some m.served
    → IsGood m q
    → IsGood (record m { value = value; served = m.served + 1 }) q
served-IsGood m value idle other good = tt
served-IsGood m value (trying v) other good = tt
served-IsGood m value (spinning ticket v number seen) other (own, loaded, old, waits, given, near) =
    let later_one : number ≢ m.served = λ e. other (ap some e) in
    (own, loaded, omega arith, omega arith, given, near)
served-IsGood m value (holding number) other (now, given) = absurd (other (ap some now))

pub Move-IsGood_ne :
    {m m' : Lock} {p p' : Pc} (q : Pc)
    → Move m p m' p'
    → ((n : ℕ) → numbered p ≡ some n → numbered q ≢ some n)
    → IsGood m p
    → IsGood m q
    → IsGood m' q
Move-IsGood_ne {m} q acquire apart mine good =
    more-IsGood m (m.next + 1) (take_ticket m.value) q (omega arith) good
Move-IsGood_ne q (enter _) apart mine good = good
Move-IsGood_ne q (reload _) apart mine good = good
Move-IsGood_ne {m} q release apart mine good =
    served-IsGood m (serve_next m.value) q (apart m.served (ap some mine.0)) good
Move-IsGood_ne q try apart mine good = good
Move-IsGood_ne q (try_busy _) apart mine good = good
Move-IsGood_ne {m} q (try_win {value} _ _) apart mine good =
    more-IsGood m (m.next + 1) (take_ticket value) q (omega arith) good
Move-IsGood_ne q (try_lose _ _) apart mine good = good
