-- ===== src/Pager/Bch/Toggle.antt =====
-- Bit errors, and the corrections of `bch_code_decode`: words in which some places are inverted.
use tsl_sdr.Prelude.{
  ℕ, zero, suc, ◌+◌, ◌*◌, ◌<◌, ◌≡◌, refl, bit_xor, some, List, [], ◌∷◌, arith, ◌==◌, length, ap,
  ◌∙◌, sym, get_elem?-eq-get_or, if◌then◌else◌,
}
use tsl_sdr.Prelude.Xor.{zero_xor, xor_comm, xor_cancel, xor_left_comm}
use tsl_sdr.Prelude.Search.{AreBits}
use tsl_sdr.Pager.Bch.Code31.{alpha}
use tsl_sdr.Pager.Bch.Syndromes.{syn}
use tsl_sdr.Pager.Bch.Decode.{flip}
use tsl_sdr.Pager.Bch.Plan.{flips}

unfoldable pub toggle : ℕ → List ℕ → List ℕ
toggle i [] = []
toggle zero (x ∷ xs) = bit_xor x 1 ∷ xs
toggle (suc i) (x ∷ xs) = x ∷ toggle i xs

-- The places in the list, one after the other.
unfoldable pub toggle_all : List ℕ → List ℕ → List ℕ
unfolding toggle
toggle_all [] w = w
toggle_all (i ∷ is) w = toggle_all is (toggle i w)

-- Every place of the list lies in a word of `n` places.
abbrev pub AreBelow : ℕ → List ℕ → Type 0
AreBelow n [] = Unit
AreBelow n (i ∷ is) = (i < n) × AreBelow n is

pub length-toggle : (i : ℕ) (w : List ℕ) → length (toggle i w) ≡ length w
unfolding toggle
length-toggle zero [] = refl
length-toggle (suc i) [] = refl
length-toggle zero (x ∷ xs) = refl
length-toggle (suc i) (x ∷ xs) = ap suc (length-toggle i xs)

pub AreBits-toggle : (i : ℕ) (w : List ℕ) → AreBits w → AreBits (toggle i w)
unfolding toggle
AreBits-toggle zero [] b = tt
AreBits-toggle (suc i) [] b = tt
AreBits-toggle zero (zero ∷ xs) b = (omega arith, b.1)
AreBits-toggle zero (suc zero ∷ xs) b = (omega arith, b.1)
AreBits-toggle zero (suc (suc x) ∷ xs) b = absurd (omega arith)
AreBits-toggle (suc i) (x ∷ xs) b = (b.0, AreBits-toggle i xs b.1)

pub toggle_self : (i : ℕ) (w : List ℕ) → toggle i (toggle i w) ≡ w
unfolding toggle
toggle_self zero [] = refl
toggle_self (suc i) [] = refl
toggle_self zero (x ∷ xs) = ap (λ y. y ∷ xs) (xor_cancel x 1)
toggle_self (suc i) (x ∷ xs) = ap (λ l. x ∷ l) (toggle_self i xs)

pub toggle_comm : (i j : ℕ) (w : List ℕ) → toggle i (toggle j w) ≡ toggle j (toggle i w)
unfolding toggle
toggle_comm zero zero w = refl
toggle_comm zero (suc j) [] = refl
toggle_comm zero (suc j) (x ∷ xs) = refl
toggle_comm (suc i) zero [] = refl
toggle_comm (suc i) zero (x ∷ xs) = refl
toggle_comm (suc i) (suc j) [] = refl
toggle_comm (suc i) (suc j) (x ∷ xs) = ap (λ l. x ∷ l) (toggle_comm i j xs)

-- The correction `recd[i] ^= 1` inverts one place.
pub flip-toggle : (i : ℕ) (w : List ℕ) → i < length w → flip w i ≡ some (toggle i w)
unfolding flip toggle
flip-toggle i [] h = absurd (omega arith)
flip-toggle zero (x ∷ xs) h = ground arith
flip-toggle (suc i) (x ∷ xs) h = ground (arith, flip-toggle i xs, get_elem?-eq-get_or xs i 0)

pub flips-toggle_all :
    (n : ℕ) (is w : List ℕ) → length w ≡ n → AreBelow n is → flips is w ≡ some (toggle_all is w)
unfolding flips toggle_all
flips-toggle_all n [] w len below = refl
flips-toggle_all n (i ∷ is) w len below =
    rw (flip-toggle i w (omega (arith, below.0)))
      (flips-toggle_all n is (toggle i w) (length-toggle i w ∙ len) below.1)

-- An error at place `i` adds `alpha ^ (k * i)` to the syndrome number `k`.
pub syn-toggle :
    (k j i : ℕ) (w : List ℕ)
    → AreBits w
    → i < length w
    → syn k j (toggle i w) ≡ bit_xor (alpha (k * (i + j))) (syn k j w)
unfolding syn toggle
syn-toggle k j i [] b h = absurd (omega arith)
syn-toggle k j zero (zero ∷ xs) b h =
    ap (λ (n : ℕ). bit_xor (alpha (k * n)) (syn k (j + 1) xs)) (omega arith)
    ∙ ap (bit_xor (alpha (k * (0 + j)))) (sym (zero_xor (syn k (j + 1) xs)))
syn-toggle k j zero (suc zero ∷ xs) b h =
    ap (bit_xor 0) (
      sym (xor_cancel (syn k (j + 1) xs) (alpha (k * j)))
      ∙ ap (λ v. bit_xor v (alpha (k * j))) (xor_comm (syn k (j + 1) xs) (alpha (k * j)))
      ∙ xor_comm (bit_xor (alpha (k * j)) (syn k (j + 1) xs)) (alpha (k * j)))
    ∙ zero_xor _
    ∙ ap (λ (n : ℕ). bit_xor (alpha (k * n)) (bit_xor (alpha (k * j)) (syn k (j + 1) xs)))
        (omega arith)
syn-toggle k j zero (suc (suc x) ∷ xs) b h = absurd (omega arith)
syn-toggle k j (suc i) (x ∷ xs) b h =
    ap (bit_xor (if x == 0 then 0 else alpha (k * j))) (
      syn-toggle k (j + 1) i xs b.1 (omega arith)
      ∙ ap (λ (n : ℕ). bit_xor (alpha (k * n)) (syn k (j + 1) xs)) (omega arith))
    ∙ xor_left_comm (if x == 0 then 0 else alpha (k * j)) (alpha (k * (suc i + j)))
        (syn k (j + 1) xs)
