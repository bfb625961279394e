-- ===== src/Filter/Magnitude.antt =====
-- The size of the integers in filter/complex.h: which sums and products fit in 32 bits.
use tsl_sdr.Prelude.{ℕ, suc, ◌+◌, ◌-◌, ◌*◌, ◌^◌, ◌≤◌, ◌<◌, ◌≡◌, refl, ◌∙◌, true, some, ltb, arith}
use native.Mathlib.Nat.{mul-le-mul}
use tsl_sdr.Prelude.Int.{ℤ, pos, negsuc, pos_part, neg_part, sub_ℕ, ◌+ℤ◌, ◌-ℤ◌, ◌*ℤ◌}
use tsl_sdr.Filter.Fixed.{int32, products_minus, products_plus}

abbrev pub magnitude : ℤ → ℕ
magnitude a = pos_part a + neg_part a

pub magnitude-add : (a b : ℤ) → magnitude (a +ℤ b) ≤ magnitude a + magnitude b
unfolding ◌+ℤ◌
magnitude-add a b = ground arith

pub magnitude-sub : (a b : ℤ) → magnitude (a -ℤ b) ≤ magnitude a + magnitude b
unfolding ◌-ℤ◌
magnitude-sub a b = ground arith

magnitude-sub_ℕ : (x y : ℕ) → magnitude (sub_ℕ x y) ≡ x - y + (y - x)
magnitude-sub_ℕ x y = ground arith

pub magnitude-mul : (a b : ℤ) → magnitude (a *ℤ b) ≡ magnitude a * magnitude b
unfolding ◌*ℤ◌
magnitude-mul (pos m) (pos n) = magnitude-sub_ℕ (m * n + 0 * 0) (m * 0 + 0 * n) ∙ omega arith
magnitude-mul (pos m) (negsuc n) =
    magnitude-sub_ℕ (m * 0 + 0 * suc n) (m * suc n + 0 * 0) ∙ omega arith
magnitude-mul (negsuc m) (pos n) =
    magnitude-sub_ℕ (0 * n + suc m * 0) (0 * 0 + suc m * n) ∙ omega arith
magnitude-mul (negsuc m) (negsuc n) =
    magnitude-sub_ℕ (0 * 0 + suc m * suc n) (0 * suc n + suc m * 0) ∙ omega arith

pub int32-fits : (a : ℤ) → magnitude a < 2 ^ 31 → int32 a ≡ some a
unfolding int32
int32-fits (pos n) h = let fits : ltb n (2 ^ 31) ≡ true = ground arith in rw fits refl
int32-fits (negsuc n) h = let fits : ltb n (2 ^ 31) ≡ true = ground arith in rw fits refl

-- `a * b` fits when one factor is a Q.15 sample and the other is small enough.
product-fits :
    (a b : ℤ) (g : ℕ)
    → magnitude a ≤ g
    → magnitude b ≤ 2 ^ 15
    → g < 2 ^ 16
    → (magnitude (a *ℤ b) ≤ g * 2 ^ 15) × (int32 (a *ℤ b) ≡ some (a *ℤ b))
product-fits a b g ha hb hg =
    let bound : magnitude a * magnitude b ≤ g * 2 ^ 15 = mul-le-mul ha hb in
    let small : magnitude (a *ℤ b) ≤ g * 2 ^ 15 = omega (arith, magnitude-mul a b) in
    (small, int32-fits (a *ℤ b) (omega arith))

-- Of `a * b - c * d` and `a * b + c * d` alike.
pub minus-fits :
    (a b c d : ℤ)
    → magnitude a + magnitude c < 2 ^ 16
    → magnitude b ≤ 2 ^ 15
    → magnitude d ≤ 2 ^ 15
    → (products_minus a b c d ≡ some (a *ℤ b -ℤ c *ℤ d))
      × (magnitude (a *ℤ b -ℤ c *ℤ d) ≤ (magnitude a + magnitude c) * 2 ^ 15)
unfolding products_minus
minus-fits a b c d hg hb hd =
    let (left, left_is) = product-fits a b (magnitude a) (omega arith) hb (omega arith) in
    let (right, right_is) = product-fits c d (magnitude c) (omega arith) hd (omega arith) in
    let small : magnitude (a *ℤ b -ℤ c *ℤ d) ≤ (magnitude a + magnitude c) * 2 ^ 15 =
      omega (arith, magnitude-sub (a *ℤ b) (c *ℤ d)) in
    (rw (left_is, right_is) (int32-fits (a *ℤ b -ℤ c *ℤ d) (omega arith)), small)

pub plus-fits :
    (a b c d : ℤ)
    → magnitude a + magnitude c < 2 ^ 16
    → magnitude b ≤ 2 ^ 15
    → magnitude d ≤ 2 ^ 15
    → (products_plus a b c d ≡ some (a *ℤ b +ℤ c *ℤ d))
      × (magnitude (a *ℤ b +ℤ c *ℤ d) ≤ (magnitude a + magnitude c) * 2 ^ 15)
unfolding products_plus
plus-fits a b c d hg hb hd =
    let (left, left_is) = product-fits a b (magnitude a) (omega arith) hb (omega arith) in
    let (right, right_is) = product-fits c d (magnitude c) (omega arith) hd (omega arith) in
    let small : magnitude (a *ℤ b +ℤ c *ℤ d) ≤ (magnitude a + magnitude c) * 2 ^ 15 =
      omega (arith, magnitude-add (a *ℤ b) (c *ℤ d)) in
    (rw (left_is, right_is) (int32-fits (a *ℤ b +ℤ c *ℤ d) (omega arith)), small)
