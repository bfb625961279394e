-- ===== src/Pager/Bch/Syndromes.antt =====
-- The syndromes of a received word: what the loop of `bch_code_decode` computes is the value of the
-- word as a polynomial at a power of alpha, it is additive, and flips change it by one power.
use tsl_sdr.Prelude.{
  ℕ, suc, ◌+◌, ◌*◌, ◌<◌, ◌≡◌, bit_xor, some, List, [], ◌∷◌, ◌++◌, arith, ◌==◌, if◌then◌else◌, load,
  length, ap, ap₂, ◌∙◌, sym, Bool-cases, inl, inr,
}
use tsl_sdr.Prelude.Xor.{zero_xor, xor_zero, xor_self, xor_assoc}
use tsl_sdr.Pager.Bch.Code31.{alphas, code31, alpha, load-alphas}
use tsl_sdr.Pager.Bch.Powers.{
  xor-lt, alpha-lt, times, times-xor, times-alpha, square, square-xor, square-alpha,
}
use tsl_sdr.Pager.Bch.Decode.{syndrome_loop, syndrome}

-- The sum of `alpha ^ (k * i)` over the places `i` of the set bits, the first place being `j`.
unfoldable pub syn : (k j : ℕ) → List ℕ → ℕ
syn k j [] = 0
syn k j (r ∷ rs) = bit_xor (if r == 0 then 0 else alpha (k * j)) (syn k (j + 1) rs)

-- `xs` stands in `recd` from place `j` on.
abbrev Reads : List ℕ → ℕ → List ℕ → Type 0
Reads recd j xs = (i : ℕ) → load recd (i + j) ≡ load xs i

Reads-tail : (recd : List ℕ) (j x : ℕ) (xs : List ℕ) → Reads recd j (x ∷ xs) → Reads recd (j + 1) xs
Reads-tail recd j x xs r i = ap (load recd) (omega arith) ∙ r (suc i)

syndrome_loop-syn :
    (last k j s : ℕ) (recd xs : List ℕ)
    → Reads recd j xs
    → syndrome_loop (alphas ++ last ∷ []) 31 k (length xs) j recd s ≡ some (bit_xor s (syn k j xs))
unfolding syndrome_loop syn
syndrome_loop-syn last k j s recd [] r = rw xor_zero
syndrome_loop-syn last k j s recd (x ∷ xs) r =
    let here : load recd j ≡ some x = ap (load recd) (omega arith) ∙ r 0 in
    ground (
      arith,
      here,
      load-alphas last (k * j),
      zero_xor (syn k (j + 1) xs),
      xor_assoc s (alpha (k * j)) (syn k (j + 1) xs),
      syndrome_loop-syn last k (j + 1) s recd xs (Reads-tail recd j x xs r),
      syndrome_loop-syn last k (j + 1) (bit_xor s (alpha (k * j))) recd xs
          (Reads-tail recd j x xs r),
    )

-- The loop that forms `s[k]` never faults, and computes the sum.
pub syndrome-syn :
    (last : ℕ) (bb : List ℕ) (k : ℕ) (recd : List ℕ)
    → length recd ≡ 31
    → syndrome (code31 last bb) k recd ≡ some (syn k 0 recd)
unfolding syndrome
syndrome-syn last bb k recd len =
    ap (λ n. syndrome_loop (alphas ++ last ∷ []) 31 k n 0 recd 0) (sym len)
    ∙ syndrome_loop-syn last k 0 0 recd recd (λ i. ap (load recd) (omega arith))
    ∙ ap some (zero_xor (syn k 0 recd))

pub syn-lt : (k j : ℕ) (xs : List ℕ) → syn k j xs < 32
unfolding syn
syn-lt k j [] = omega arith
syn-lt k j (x ∷ xs) = elim (Bool-cases (x == 0)) [
  | inl unset ↦ rw (unset, zero_xor) (syn-lt k (j + 1) xs)
  | inr isset ↦ rw isset (xor-lt _ _ (alpha-lt (k * j)) (syn-lt k (j + 1) xs))
]

pub syn-append :
    (k j : ℕ) (xs ys : List ℕ)
    → syn k j (xs ++ ys) ≡ bit_xor (syn k j xs) (syn k (length xs + j) ys)
unfolding syn
syn-append k j [] ys = ap (λ (i : ℕ). syn k i ys) (omega arith) ∙ sym (zero_xor (syn k (0 + j) ys))
syn-append k j (x ∷ xs) ys =
    ap (bit_xor (if x == 0 then 0 else alpha (k * j))) (syn-append k (j + 1) xs ys)
    ∙ sym (xor_assoc _ (syn k (j + 1) xs) (syn k (length xs + (j + 1)) ys))
    ∙ ap (λ (i : ℕ). bit_xor (syn k j (x ∷ xs)) (syn k i ys)) (omega arith)

-- Moving a word one place up multiplies its value by `alpha ^ k`.
pub times-syn : (k j : ℕ) (xs : List ℕ) → k < 5 → times k (syn k j xs) ≡ syn k (j + 1) xs
unfolding syn
times-syn k j [] h = times-xor k 0 0 h (omega arith) (omega arith) ∙ xor_self (times k 0)
times-syn k j (x ∷ xs) h = elim (Bool-cases (x == 0)) [
  | inl unset ↦ rw (unset, zero_xor, zero_xor) (times-syn k (j + 1) xs h)
  | inr isset ↦ rw isset (
      times-xor k (alpha (k * j)) (syn k (j + 1) xs) h (alpha-lt _) (syn-lt k (j + 1) xs)
      ∙ ap₂ bit_xor (times-alpha k (k * j) h ∙ ap alpha (omega arith)) (times-syn k (j + 1) xs h))
]

-- The syndrome of an even number is the square of that of its half.
pub square-syn : (k j : ℕ) (xs : List ℕ) → square (syn k j xs) ≡ syn (2 * k) j xs
unfolding syn
square-syn k j [] = square-xor 0 0 (omega arith) (omega arith) ∙ xor_self (square 0)
square-syn k j (x ∷ xs) = elim (Bool-cases (x == 0)) [
  | inl unset ↦ rw (unset, zero_xor, zero_xor) (square-syn k (j + 1) xs)
  | inr isset ↦ rw isset (
      square-xor (alpha (k * j)) (syn k (j + 1) xs) (alpha-lt _) (syn-lt k (j + 1) xs)
      ∙ ap₂ bit_xor (square-alpha (k * j) ∙ ap alpha (omega arith)) (square-syn k (j + 1) xs))
]
