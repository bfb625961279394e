-- ===== src/Prelude/Search.antt =====
-- Exhaustive checks by evaluation: over the numbers below a bound, and over lists of bits.
use Prim.Native.Nat.{ℕ, zero, suc, ◌<◌}
use mathlib.Core.Path.{◌≡◌}
use mathlib.Core.Bool.{Bool, true, ◌&&◌}
use mathlib.Core.List.{List, [], ◌∷◌}
use native.Mathlib.Omega.{arith}
use tsl_sdr.Prelude.Lists.{length}
use tsl_sdr.Prelude.Tests.{ltb}

unfoldable pub all_below : (bound : ℕ) (test : ℕ → Bool) → Bool
all_below zero test = true
all_below (suc top) test = all_below top test && test top

pub all_below_sound :
    (bound : ℕ) (test : ℕ → Bool) (value : ℕ)
    → all_below bound test ≡ true
    → value < bound
    → test value ≡ true
unfolding all_below
all_below_sound zero test value passed under = absurd (omega arith)
all_below_sound (suc top) test value passed under = ground (arith, all_below_sound top test value)

-- Every word of a list is 0 or 1.
abbrev pub AreBits : List ℕ → Type 0
AreBits [] = Unit
AreBits (x ∷ xs) = (x < 2) × AreBits xs

unfoldable pub all_bits : ℕ → (List ℕ → Bool) → Bool
all_bits zero p = p []
all_bits (suc n) p = all_bits n (λ l. p (0 ∷ l)) && all_bits n (λ l. p (1 ∷ l))

pub all_bits_sound :
    (n : ℕ) (p : List ℕ → Bool) (xs : List ℕ)
    → all_bits n p ≡ true
    → AreBits xs
    → length xs ≡ n
    → p xs ≡ true
unfolding all_bits
all_bits_sound zero p [] h bits len = h
all_bits_sound zero p (x ∷ xs) h bits len = absurd (omega arith)
all_bits_sound (suc n) p [] h bits len = absurd (omega arith)
all_bits_sound (suc n) p (zero ∷ xs) h bits len =
    all_bits_sound n (λ l. p (0 ∷ l)) xs (ground arith) bits.1 (omega arith)
all_bits_sound (suc n) p (suc zero ∷ xs) h bits len =
    all_bits_sound n (λ l. p (1 ∷ l)) xs (ground arith) bits.1 (omega arith)
all_bits_sound (suc n) p (suc (suc x) ∷ xs) h bits len = absurd (omega arith)

unfoldable pub are_bits : List ℕ → Bool
are_bits [] = true
are_bits (x ∷ xs) = ltb x 2 && are_bits xs

pub are_bits_sound : (xs : List ℕ) → are_bits xs ≡ true → AreBits xs
unfolding are_bits
are_bits_sound [] h = tt
are_bits_sound (x ∷ xs) h = (ground arith, are_bits_sound xs (ground arith))
