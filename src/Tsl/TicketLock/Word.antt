-- ===== src/Tsl/TicketLock/Word.antt =====
-- The 64-bit word of `struct ticket_lock` of tsl/ticket_lock.h: the ticket being served in its low half,
-- and the next ticket to give out in its high half.
use tsl_sdr.Prelude.{ℕ, ◌+◌, ◌*◌, ◌/◌, ◌%◌, ◌^◌, ◌≤◌, ◌<◌, ◌≡◌, arith}

-- `1 << TICKET_LOCK_SHIFT`
abbrev pub half : ℕ
half = 2 ^ 32

-- `value >> TICKET_LOCK_SHIFT` and `value & TICKET_LOCK_VALUE_MSK`
abbrev pub ticket_of : ℕ → ℕ
ticket_of value = value / half

abbrev pub serving : ℕ → ℕ
serving value = value % half

-- What `atomic_fetch_add` of TICKET_LOCK_INC leaves in the word.
abbrev pub take_ticket : ℕ → ℕ
take_ticket value = (value + half) % 2 ^ 64

-- What adding 1 to the low half as a 32-bit word leaves.
abbrev pub serve_next : ℕ → ℕ
serve_next value = value / half * half + (value % half + 1) % half

-- The word after `next` tickets were given out and `served` of them have been served.
abbrev pub packed : (next served : ℕ) → ℕ
packed next served = next % half * half + served % half

pub ticket_of-packed : (next served : ℕ) → ticket_of (packed next served) ≡ next % half
ticket_of-packed next served = omega arith

pub serving-packed : (next served : ℕ) → serving (packed next served) ≡ served % half
serving-packed next served = omega arith

pub take_ticket-packed :
    (next served : ℕ) → take_ticket (packed next served) ≡ packed (next + 1) served
take_ticket-packed next served = omega arith

pub serve_next-packed :
    (next served : ℕ) → serve_next (packed next served) ≡ packed next (served + 1)
serve_next-packed next served = omega arith

-- Of two numbers less than one half apart the low halves tell which is which.
pub low_half-injective : (a b : ℕ) → a ≤ b → b < a + half → b % half ≡ a % half → b ≡ a
low_half-injective a b le lt e = omega arith
