-- ===== src/Filter/Fixed.antt =====
-- The fixed-point arithmetic of filter/complex.h, with Q_15_SHIFT of filter/filter.h. An `int16_t`
-- or `int32_t` is an integer; `none` is a signed overflow, which C leaves undefined.
use tsl_sdr.Prelude.{ℕ, ◌-◌, ◌/◌, ◌%◌, ◌^◌, Bool, Option, none, some, ◌>>=◌, ltb, if◌then◌else◌}
use tsl_sdr.Prelude.Int.{ℤ, pos, negsuc, ◌+ℤ◌, ◌-ℤ◌, ◌*ℤ◌}

abbrev pub q_15_shift : ℕ
q_15_shift = 14

abbrev pub is_int32 : ℤ → Bool
is_int32 (pos n) = ltb n (2 ^ 31)
is_int32 (negsuc n) = ltb n (2 ^ 31)

unfoldable pub int32 : ℤ → Option ℤ
int32 a = if is_int32 a then some a else none

-- The `int16_t` with the low 16 bits of a word.
abbrev pub from_bits : ℕ → ℤ
from_bits w = if ltb w (2 ^ 15) then pos w else negsuc (2 ^ 16 - 1 - w)

-- The conversion to `int16_t` keeps the low 16 bits.
unfoldable pub int16 : ℤ → ℤ
int16 (pos n) = from_bits (n % 2 ^ 16)
int16 (negsuc n) = from_bits (2 ^ 16 - 1 - n % 2 ^ 16)

-- `a >> k` of a signed word, which rounds down.
abbrev pub shift_right : ℤ → ℕ → ℤ
shift_right (pos n) k = pos (n / 2 ^ k)
shift_right (negsuc n) k = negsuc (n / 2 ^ k)

-- `a & 1`
abbrev pub low_bit : ℤ → ℤ
low_bit (pos n) = pos (n % 2)
low_bit (negsuc n) = pos (1 - n % 2)

unfoldable pub round_q30_q15 : ℤ → ℤ
round_q30_q15 a = int16 (shift_right a q_15_shift +ℤ low_bit (shift_right a (q_15_shift - 1)))

-- `a * b - c * d` and `a * b + c * d` in `int32_t`.
unfoldable pub products_minus : (a b c d : ℤ) → Option ℤ
products_minus a b c d = do left ← int32 (a *ℤ b); right ← int32 (c *ℤ d); int32 (left -ℤ right)

unfoldable pub products_plus : (a b c d : ℤ) → Option ℤ
products_plus a b c d = do left ← int32 (a *ℤ b); right ← int32 (c *ℤ d); int32 (left +ℤ right)

-- A complex number, its real part first.
abbrev pub Complex : Type 0
Complex = ℤ × ℤ

unfoldable pub cmul_q15_q30 : (a b : Complex) → Option Complex
cmul_q15_q30 (a_re, a_im) (b_re, b_im) = do
  r_re ← products_minus a_re b_re a_im b_im
  r_im ← products_plus a_re b_im a_im b_re
  some (r_re, r_im)

unfoldable pub cmul_q15_q15 : (a b : Complex) → Option Complex
cmul_q15_q15 (a_re, a_im) (b_re, b_im) = do
  r_re ← products_minus a_re b_re a_im b_im
  r_im ← products_plus a_re b_im a_im b_re
  some (round_q30_q15 r_re, round_q30_q15 r_im)
