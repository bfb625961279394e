-- ===== src/Tsl/TicketLock/Threads.antt =====
-- The functions of tsl/ticket_lock.h run by many threads: a step is one access to the lock's word, or
-- one test of the value that a thread holds.
use tsl_sdr.Prelude.{ℕ, ◌+◌, ◌≡◌, ◌≢◌, ◌==◌, if◌then◌else◌}
use tsl_sdr.Tsl.TicketLock.Word.{ticket_of, serving, take_ticket, serve_next}

-- The word. `next` and `served` count the tickets given out and served; no thread reads them.
pub record Lock : Type 0 where
  pub value : ℕ
  pub next : ℕ
  pub served : ℕ

-- Where a thread stands, with its `ticket` and the `value` it last loaded. `number` is which of all
-- tickets it has, and `seen` is `served` when it loaded; both are not in the program.
pub data Pc : Type 0 where
  idle : Pc
  spinning : (ticket value number seen : ℕ) → Pc
  trying : (value : ℕ) → Pc
  holding : (number : ℕ) → Pc

-- `ticket_lock_init`
abbrev pub unlocked : Lock
unlocked = record { value = 0; next = 0; served = 0 }

abbrev pub taken : Lock → (value : ℕ) → Lock
taken m value = record m { value = take_ticket value; next = m.next + 1 }

pub data Move : Lock → Pc → Lock → Pc → Type 0 where
  -- `ticket_lock_acquire`: the ticket, the test of the loop, and its load
  acquire :
      {m : Lock}
      → Move m idle (taken m m.value) (spinning (ticket_of m.value) m.value m.next m.served)
  enter :
      {m : Lock} {ticket value number seen : ℕ}
      → ticket ≡ serving value
      → Move m (spinning ticket value number seen) m (holding number)
  reload :
      {m : Lock} {ticket value number seen : ℕ}
      → ticket ≢ serving value
      → Move m (spinning ticket value number seen) m (spinning ticket m.value number m.served)
  -- `ticket_lock_release`
  release :
      {m : Lock} {number : ℕ}
      → Move m
          (holding number)
          (record m { value = serve_next m.value; served = m.served + 1 })
          idle
  -- `ticket_lock_try_acquire`: the load, the test, and the compare and swap
  try : {m : Lock} → Move m idle m (trying m.value)
  try_busy : {m : Lock} {value : ℕ} → ticket_of value ≢ serving value → Move m (trying value) m idle
  try_win :
      {m : Lock} {value : ℕ}
      → ticket_of value ≡ serving value
      → m.value ≡ value
      → Move m (trying value) (taken m value) (holding m.next)
  try_lose :
      {m : Lock} {value : ℕ}
      → ticket_of value ≡ serving value
      → m.value ≢ value
      → Move m (trying value) m idle

pub record System : Type 0 where
  pub lock : Lock
  pub pc : ℕ → Pc

unfoldable pub set_pc : (ℕ → Pc) → ℕ → Pc → ℕ → Pc
set_pc pc i p j = if j == i then p else pc j

pub data Step (s : System) : System → Type 0 where
  pick :
      (i : ℕ) {m : Lock} {p : Pc}
      → Move s.lock (s.pc i) m p
      → Step s (record { lock = m; pc = set_pc s.pc i p })

pub data Reach (s : System) : System → Type 0 where
  here : Reach s s
  later : {t u : System} → Reach s t → Step t u → Reach s u

abbrev pub start : System
start = record { lock = unlocked; pc = λ _. idle }
