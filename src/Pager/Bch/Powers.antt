-- ===== src/Pager/Bch/Powers.antt =====
-- Arithmetic of the field of 32 elements, from the tables of the code: sums are `bit_xor`, and
-- multiplication by a power and squaring go through the logarithms. Each law is a finite check.
use tsl_sdr.Prelude.{
  ℕ, ◌+◌, ◌*◌, ◌%◌, ◌<◌, ◌≡◌, refl, bit_xor, Bool, true, arith, ◌==◌, ==_iff, ltb, ltb→lt, ap, ◌∙◌,
  sym, get_or,
}
use tsl_sdr.Prelude.Int.{pos, negsuc}
use tsl_sdr.Prelude.Search.{all_below, all_below_sound}
use tsl_sdr.Pager.Bch.Code31.{alphas, alpha, log}

-- v * alpha ^ k
unfoldable pub times : (k v : ℕ) → ℕ
times k v = elim (log v) [ pos i ↦ alpha (i + k) | negsuc _ ↦ 0 ]

unfoldable pub square : ℕ → ℕ
square v = elim (log v) [ pos i ↦ alpha (2 * i) | negsuc _ ↦ 0 ]

-- Two nested checks at once.
check2 :
    (m n : ℕ) (p : ℕ → ℕ → Bool) (x y : ℕ)
    → all_below m (λ x. all_below n (p x)) ≡ true
    → x < m
    → y < n
    → p x y ≡ true
check2 m n p x y h hx hy =
    all_below_sound n (p x) y (all_below_sound m (λ x. all_below n (p x)) x h hx) hy

xor_table : all_below 32 (λ a. all_below 32 (λ b. ltb (bit_xor a b) 32)) ≡ true
unfolding all_below
xor_table = refl

pub xor-lt : (a b : ℕ) → a < 32 → b < 32 → bit_xor a b < 32
xor-lt a b ha hb = ltb→lt _ 32 (check2 32 32 (λ a b. ltb (bit_xor a b) 32) a b xor_table ha hb)

alpha_mod : (x : ℕ) → alpha x ≡ alpha (x % 31)
unfolding alpha
alpha_mod x = let e : x % 31 ≡ x % 31 % 31 = omega arith in ap (λ (i : ℕ). get_or alphas i 0) e

alpha_table : all_below 31 (λ x. ltb (alpha x) 32) ≡ true
unfolding all_below alpha
alpha_table = refl

pub alpha-lt : (x : ℕ) → alpha x < 32
alpha-lt x = ltb→lt (alpha x) 32 (
    ap (λ v. ltb v 32) (alpha_mod x)
    ∙ all_below_sound 31 (λ x. ltb (alpha x) 32) (x % 31) alpha_table (omega arith))

linear_table :
    all_below 5 (λ k.
      all_below 32
        (λ a. all_below 32 (λ b. times k (bit_xor a b) == bit_xor (times k a) (times k b))))
    ≡ true
unfolding all_below times log alpha
linear_table = refl

pub times-xor :
    (k a b : ℕ) → k < 5 → a < 32 → b < 32 → times k (bit_xor a b) ≡ bit_xor (times k a) (times k b)
times-xor k a b hk ha hb = (==_iff _ _).0 (
    check2 32 32 (λ a b. times k (bit_xor a b) == bit_xor (times k a) (times k b)) a b
      (all_below_sound 5
        (λ k.
          all_below 32
            (λ a. all_below 32 (λ b. times k (bit_xor a b) == bit_xor (times k a) (times k b))))
        k linear_table hk)
      ha hb)

times-alpha_table : all_below 5 (λ k. all_below 31 (λ x. times k (alpha x) == alpha (x + k))) ≡ true
unfolding all_below times log alpha
times-alpha_table = refl

pub times-alpha : (k x : ℕ) → k < 5 → times k (alpha x) ≡ alpha (x + k)
times-alpha k x hk =
    ap (times k) (alpha_mod x)
    ∙ (==_iff _ _).0 (
        check2 5 31 (λ k x. times k (alpha x) == alpha (x + k)) k (x % 31) times-alpha_table hk
          (omega arith))
    ∙ alpha_mod (x % 31 + k)
    ∙ ap alpha (omega arith)
    ∙ sym (alpha_mod (x + k))

square_table :
    all_below 32 (λ a. all_below 32 (λ b. square (bit_xor a b) == bit_xor (square a) (square b)))
    ≡ true
unfolding all_below square log alpha
square_table = refl

pub square-xor : (a b : ℕ) → a < 32 → b < 32 → square (bit_xor a b) ≡ bit_xor (square a) (square b)
square-xor a b ha hb = (==_iff _ _).0 (
    check2 32 32 (λ a b. square (bit_xor a b) == bit_xor (square a) (square b)) a b square_table ha
      hb)

square-alpha_table : all_below 31 (λ x. square (alpha x) == alpha (2 * x)) ≡ true
unfolding all_below square log alpha
square-alpha_table = refl

pub square-alpha : (x : ℕ) → square (alpha x) ≡ alpha (2 * x)
square-alpha x =
    ap square (alpha_mod x)
    ∙ (==_iff _ _).0 (
        all_below_sound 31 (λ x. square (alpha x) == alpha (2 * x)) (x % 31) square-alpha_table
          (omega arith))
    ∙ alpha_mod (2 * (x % 31))
    ∙ ap alpha (omega arith)
    ∙ sym (alpha_mod (2 * x))
