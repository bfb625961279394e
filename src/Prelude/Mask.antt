-- ===== src/Prelude/Mask.antt =====
-- `&` with a mask, as arithmetic: low bits are a remainder, and clearing low bits rounds down.
use Prim.Native.Nat.{ℕ, zero, suc, ◌+◌, ◌-◌, ◌*◌, ◌/◌, ◌%◌, ◌^◌, ◌<◌, min}
use Prim.Native.Nat.{bit_and, bit_and-bitwise}
use mathlib.Core.Path.{◌≡◌, refl, ap}
use mathlib.Core.Logic.{◌⊎◌, inl, inr}
use native.Mathlib.Nat.{pow-suc, one-le-pow}
use native.Mathlib.Omega.{arith}
use tsl_sdr.Prelude.Digits.{digits_rounds}

-- One digit at a time.
pub bit_and-halves :
    (word mask : ℕ)
    → bit_and word mask ≡ bit_and (word / 2) (mask / 2) * 2 + min (word % 2) (mask % 2)
bit_and-halves zero mask = omega (arith, bit_and-bitwise 0 mask, bit_and-bitwise 0 (mask / 2))
bit_and-halves (suc word) mask =
    let half = suc word / 2 in
    let more =
      digits_rounds (λ _. zero) min half (mask / 2) word half (omega arith) (omega arith) in
    omega (arith, more, bit_and-bitwise (suc word) mask, bit_and-bitwise half (mask / 2))

nothing_kept : (bound word : ℕ) → word < bound → bit_and word 0 ≡ 0
nothing_kept zero word lt = absurd (omega arith)
nothing_kept (suc bound) zero lt = bit_and-bitwise 0 0
nothing_kept (suc bound) (suc word) lt =
    let halved = nothing_kept bound (suc word / 2) (omega arith) in
    omega (arith, halved, bit_and-halves (suc word) 0)

pub bit_and-zero : (word : ℕ) → bit_and word 0 ≡ 0
bit_and-zero word = nothing_kept (suc word) word (omega arith)

double_pow : (q k : ℕ) → q * 2 ^ suc k ≡ 2 * (q * 2 ^ k)
double_pow q k = omega (arith, ap (λ (t : ℕ). q * t) (pow-suc 2 k))

low_part : (k q r : ℕ) → r < 2 ^ k → bit_and (q * 2 ^ k + r) (2 ^ k - 1) ≡ r
low_part zero q r h = rw bit_and-zero (omega arith)
low_part (suc k) q r h = ground (
  arith,
  bit_and-halves (q * 2 ^ suc k + r) (2 ^ suc k - 1),
  double_pow q k,
  pow-suc 2 k,
  low_part k q (r / 2) (omega arith),
)

-- `a & (2^k - 1)`
pub bit_and-low : (k a : ℕ) → bit_and a (2 ^ k - 1) ≡ a % 2 ^ k
bit_and-low k a = ground (arith, one-le-pow k 2, low_part k (a / 2 ^ k) (a % 2 ^ k))

-- `a & ~63` in a word of 64 bits.
pub bit_and-line : (a : ℕ) → a < 2 ^ 64 → bit_and a (2 ^ 64 - 64) ≡ a / 64 * 64
bit_and-line a h = omega (
  arith,
  bit_and-halves a (2 ^ 64 - 64),
  bit_and-halves (a / 2) (2 ^ 63 - 32),
  bit_and-halves (a / 2 / 2) (2 ^ 62 - 16),
  bit_and-halves (a / 2 / 2 / 2) (2 ^ 61 - 8),
  bit_and-halves (a / 2 / 2 / 2 / 2) (2 ^ 60 - 4),
  bit_and-halves (a / 2 / 2 / 2 / 2 / 2) (2 ^ 59 - 2),
  bit_and-low 58 (a / 2 / 2 / 2 / 2 / 2 / 2),
)

bit_and-itself : (bound word : ℕ) → word < bound → bit_and word word ≡ word
bit_and-itself zero word lt = absurd (omega arith)
bit_and-itself (suc bound) zero lt = bit_and-zero 0
bit_and-itself (suc bound) (suc word) lt =
    let halved = bit_and-itself bound (suc word / 2) (omega arith) in
    omega (arith, halved, bit_and-halves (suc word) (suc word))

-- `n & (n - 1)` is 0 for powers of two, and for no other number but 0.
pub bit_and-pow : (k : ℕ) → bit_and (2 ^ k) (2 ^ k - 1) ≡ 0
bit_and-pow k =
    let whole : 1 * 2 ^ k + 0 ≡ 2 ^ k = omega arith in
    rw whole at (low_part k 1 0 (one-le-pow k 2 (omega arith)))

even_or_odd : (n : ℕ) → (n % 2 ≡ 0) ⊎ (n % 2 ≡ 1)
even_or_odd zero = inl refl
even_or_odd (suc n) = elim (even_or_odd n) [
  | inl even ↦ inr (omega (arith, even))
  | inr odd ↦ inl (omega (arith, odd))
]

pow-bit_and_bounded :
    (bound n : ℕ) → n < bound → 0 < n → bit_and n (n - 1) ≡ 0 → (k : ℕ) × (n ≡ 2 ^ k)
pow-bit_and_bounded zero n lt positive e = absurd (omega arith)
pow-bit_and_bounded (suc bound) n lt positive e = elim (even_or_odd n) [
  | inl even ↦
      let below : (n - 1) / 2 ≡ n / 2 - 1 = omega (arith, even) in
      let halves = rw below at (bit_and-halves n (n - 1)) in
      let (k, half) =
        pow-bit_and_bounded bound (n / 2) (omega (arith, even)) (omega (arith, even))
          (omega (arith, halves, e)) in
      (suc k, omega (arith, half, even, pow-suc 2 k))
  | inr odd ↦
      let below : (n - 1) / 2 ≡ n / 2 = omega (arith, odd) in
      let halves = rw below at (bit_and-halves n (n - 1)) in
      let itself = bit_and-itself (suc (n / 2)) (n / 2) (omega arith) in
      (0, omega (arith, halves, itself, e, odd))
]

pub pow-bit_and : (n : ℕ) → 0 < n → bit_and n (n - 1) ≡ 0 → (k : ℕ) × (n ≡ 2 ^ k)
pow-bit_and n = pow-bit_and_bounded (suc n) n (omega arith)
