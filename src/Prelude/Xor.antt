-- ===== src/Prelude/Xor.antt =====
-- `^` on unsigned words: an abelian group in which every word is its own inverse.
use Prim.Native.Nat.{ℕ, zero, suc, ◌+◌, ◌*◌, ◌/◌, ◌%◌, ◌≤◌, ◌<◌}
use Prim.Native.Nat.{bit_xor, bit_xor-bitwise, differ}
use mathlib.Core.Path.{◌≡◌, refl, sym, ◌∙◌, ap}
use native.Mathlib.Omega.{arith}
use tsl_sdr.Prelude.Digits.{digits_rounds}

zero-bit_xor : (b : ℕ) → bit_xor 0 b ≡ b
zero-bit_xor b = bit_xor-bitwise 0 b

differ-eq : (x y : ℕ) → x < 2 → y < 2 → differ x y ≡ (x + y) % 2
differ-eq zero zero p q = refl
differ-eq zero (suc zero) p q = refl
differ-eq (suc zero) zero p q = refl
differ-eq (suc zero) (suc zero) p q = refl
differ-eq zero (suc (suc y)) p q = absurd (omega arith)
differ-eq (suc zero) (suc (suc y)) p q = absurd (omega arith)
differ-eq (suc (suc x)) y p q = absurd (omega arith)

-- One digit at a time.
pub bit_xor-halves :
    (word key : ℕ) → bit_xor word key ≡ bit_xor (word / 2) (key / 2) * 2 + (word % 2 + key % 2) % 2
bit_xor-halves zero key = omega (arith, zero-bit_xor key, zero-bit_xor (key / 2))
bit_xor-halves (suc word) key =
    let half = suc word / 2 in
    let more = digits_rounds (λ b. b) differ half (key / 2) word half (omega arith) (omega arith) in
    let lowest = differ-eq (suc word % 2) (key % 2) (omega arith) (omega arith) in
    omega (arith, more, lowest, bit_xor-bitwise (suc word) key, bit_xor-bitwise half (key / 2))

-- Each law is by induction on a bound of the words.
comm_bound : (n a b : ℕ) → a ≤ n → b ≤ n → bit_xor a b ≡ bit_xor b a
comm_bound zero a b p q = let e : a ≡ b = omega arith in rw e
comm_bound (suc n) a b p q = omega (
  arith,
  bit_xor-halves a b,
  bit_xor-halves b a,
  comm_bound n (a / 2) (b / 2) (omega arith) (omega arith),
)

self_bound : (n a : ℕ) → a ≤ n → bit_xor a a ≡ 0
self_bound zero a p = let e : a ≡ 0 = omega arith in rw e
self_bound (suc n) a p = omega (arith, bit_xor-halves a a, self_bound n (a / 2) (omega arith))

assoc_bound :
    (n a b c : ℕ) → a ≤ n → b ≤ n → c ≤ n → bit_xor (bit_xor a b) c ≡ bit_xor a (bit_xor b c)
assoc_bound zero zero zero zero p q r = refl
assoc_bound zero (suc a) b c p q r = absurd (omega arith)
assoc_bound zero zero (suc b) c p q r = absurd (omega arith)
assoc_bound zero zero zero (suc c) p q r = absurd (omega arith)
assoc_bound (suc n) a b c p q r =
    let ab : bit_xor a b / 2 ≡ bit_xor (a / 2) (b / 2) = omega (arith, bit_xor-halves a b) in
    let bc : bit_xor b c / 2 ≡ bit_xor (b / 2) (c / 2) = omega (arith, bit_xor-halves b c) in
    let left = bit_xor-halves (bit_xor a b) c in
    let right = bit_xor-halves a (bit_xor b c) in
    omega (
      arith,
      (rw ab at left),
      (rw bc at right),
      bit_xor-halves a b,
      bit_xor-halves b c,
      assoc_bound n (a / 2) (b / 2) (c / 2) (omega arith) (omega arith) (omega arith),
    )

pub zero_xor : (a : ℕ) → bit_xor 0 a ≡ a
zero_xor = zero-bit_xor

pub xor_comm : (a b : ℕ) → bit_xor a b ≡ bit_xor b a
xor_comm a b = comm_bound (a + b) a b (omega arith) (omega arith)

pub xor_zero : (a : ℕ) → bit_xor a 0 ≡ a
xor_zero a = xor_comm a 0 ∙ zero_xor a

pub xor_self : (a : ℕ) → bit_xor a a ≡ 0
xor_self a = self_bound a a (omega arith)

pub xor_assoc : (a b c : ℕ) → bit_xor (bit_xor a b) c ≡ bit_xor a (bit_xor b c)
xor_assoc a b c = assoc_bound (a + b + c) a b c (omega arith) (omega arith) (omega arith)

pub xor_cancel : (a b : ℕ) → bit_xor (bit_xor a b) b ≡ a
xor_cancel a b = xor_assoc a b b ∙ ap (bit_xor a) (xor_self b) ∙ xor_zero a

pub xor_left_comm : (a b c : ℕ) → bit_xor a (bit_xor b c) ≡ bit_xor b (bit_xor a c)
xor_left_comm a b c = sym (xor_assoc a b c) ∙ ap (λ t. bit_xor t c) (xor_comm a b) ∙ xor_assoc b a c
