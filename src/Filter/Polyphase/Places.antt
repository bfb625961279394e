-- ===== src/Filter/Polyphase/Places.antt =====
-- The places that `polyphase_fir_new` of filter/polyphase_fir.c writes, and what a write changes.
use native.Mathlib.Nat.{
  mod-eq_of_lt, div-eq_of_lt, mod-lt, add-mul-mod_self_right, add-mul-div_right, mod-add-div',
  div-lt_iff_lt-mul, mul-le-mul_right,
}
use tsl_sdr.Prelude.{
  ℕ, zero, suc, ◌+◌, ◌*◌, ◌/◌, ◌%◌, ◌≤◌, ◌<◌, ◌≡◌, ◌≢◌, refl, sym, ap, ◌∙◌, List, [], ◌∷◌, length,
  get_or, set, replicate, arith,
}
use tsl_sdr.Prelude.Int.{ℤ}

pub get_or-set_self : (xs : List ℤ) (i : ℕ) (v d : ℤ) → i < length xs → get_or (set xs i v) i d ≡ v
get_or-set_self [] i v d h = absurd (omega arith)
get_or-set_self (x ∷ xs) zero v d h = refl
get_or-set_self (x ∷ xs) (suc i) v d h = get_or-set_self xs i v d (omega arith)

pub get_or-set_ne :
    (xs : List ℤ) (i j : ℕ) (v d : ℤ) → i ≢ j → get_or (set xs i v) j d ≡ get_or xs j d
get_or-set_ne [] i j v d h = refl
get_or-set_ne (x ∷ xs) zero zero v d h = absurd (h refl)
get_or-set_ne (x ∷ xs) zero (suc j) v d h = refl
get_or-set_ne (x ∷ xs) (suc i) zero v d h = refl
get_or-set_ne (x ∷ xs) (suc i) (suc j) v d h = get_or-set_ne xs i j v d (λ e. h (ap suc e))

pub get_or-replicate : (n i : ℕ) (d : ℤ) → get_or (replicate n d) i d ≡ d
get_or-replicate zero i d = refl
get_or-replicate (suc n) zero d = refl
get_or-replicate (suc n) (suc i) d = get_or-replicate n i d

pub get_or-beyond : (xs : List ℤ) (i : ℕ) (d : ℤ) → length xs ≤ i → get_or xs i d ≡ d
get_or-beyond [] i d h = refl
get_or-beyond (x ∷ xs) zero d h = absurd (omega arith)
get_or-beyond (x ∷ xs) (suc i) d h = get_or-beyond xs i d (omega arith)

-- A number below the step plus a multiple of it, taken apart.
low_part : (low high step : ℕ) → low < step → (low + high * step) % step ≡ low
low_part low high step h = add-mul-mod_self_right low high step ∙ mod-eq_of_lt h

high_part : (low high step : ℕ) → low < step → (low + high * step) / step ≡ high
high_part low high step h =
    let below = div-eq_of_lt h in add-mul-div_right low high (omega arith) ∙ rw below (omega arith)

-- The place of coefficient `k` in rows of `row`, and the coefficient at a place.
abbrev pub place : (interpolate row k : ℕ) → ℕ
place interpolate row k = k % interpolate * row + k / interpolate

pub place-coeff :
    (interpolate row p j : ℕ)
    → p < interpolate
    → place interpolate row (p + j * interpolate) ≡ p * row + j
place-coeff interpolate row p j h =
    rw (low_part p j interpolate h, high_part p j interpolate h) refl

pub coeff-place :
    (interpolate row p j k : ℕ)
    → j < row
    → k / interpolate < row
    → p * row + j ≡ place interpolate row k
    → p + j * interpolate ≡ k
coeff-place interpolate row p j k hj hk e =
    let swap₁ : p * row + j ≡ j + p * row = omega arith in
    let swap₂ : place interpolate row k ≡ k / interpolate + k % interpolate * row = omega arith in
    let both = sym swap₁ ∙ e ∙ swap₂ in
    let high : p ≡ k % interpolate =
      sym (high_part j p row hj)
      ∙ ap (λ n. n / row) both
      ∙ high_part (k / interpolate) (k % interpolate) row hk in
    let low : j ≡ k / interpolate =
      sym (low_part j p row hj)
      ∙ ap (λ n. n % row) both
      ∙ low_part (k / interpolate) (k % interpolate) row hk in
    rw (high, low) (mod-add-div' k interpolate)

pub place-inside :
    (interpolate row k : ℕ)
    → 0 < interpolate
    → k < interpolate * row
    → (place interpolate row k < interpolate * row) × (k / interpolate < row)
place-inside interpolate row k h hk =
    let high : k / interpolate < row = (div-lt_iff_lt-mul h).1 (omega arith) in
    let low = mod-lt k h in
    let rows : suc (k % interpolate) * row ≤ interpolate * row = mul-le-mul_right row low in
    (omega arith, high)
