-- ===== src/Prelude/Digits.antt =====
-- The native operations on bits as one function of the lowest digits, at variables.
use Prim.Native.Nat.{ℕ, zero, suc, ◌/◌, ◌≤◌, digits}
use mathlib.Core.Path.{◌≡◌, refl}
use native.Mathlib.Omega.{arith}

-- `digits` goes through a word from its lowest digit on, and any number of rounds that the word does
-- not exceed will do.
pub digits_rounds :
    (rest : ℕ → ℕ) (op : ℕ → ℕ → ℕ) (word other k l : ℕ)
    → word ≤ k
    → word ≤ l
    → digits rest op k word other ≡ digits rest op l word other
digits_rounds rest op zero other zero zero hk hl = refl
digits_rounds rest op zero other zero (suc l) hk hl = refl
digits_rounds rest op zero other (suc k) zero hk hl = refl
digits_rounds rest op zero other (suc k) (suc l) hk hl = refl
digits_rounds rest op (suc word) other zero l hk hl = absurd (omega arith)
digits_rounds rest op (suc word) other (suc k) zero hk hl = absurd (omega arith)
digits_rounds rest op (suc word) other (suc k) (suc l) hk hl =
    let halves = digits_rounds rest op (suc word / 2) (other / 2) k l (omega arith) (omega arith) in
    rw halves
