-- ===== src/Filter/Polyphase/Layout.antt =====
-- Where `polyphase_fir_new` of filter/polyphase_fir.c puts the coefficients.
use native.Mathlib.Nat.{mod-lt, mod-add-div', div-lt_iff_lt-mul, mul-le-mul_right, div-le_self}
use mathlib.Core.Path.{subst}
use tsl_sdr.Prelude.{
  ℕ, zero, suc, ◌+◌, ◌-◌, ◌*◌, ◌/◌, ◌%◌, ◌^◌, ◌≤◌, ◌<◌, ◌≡◌, ◌≢◌, refl, sym, ap, ap₂, ◌∙◌, inl, inr,
  true, false, Bool-cases, some, List, [], ◌∷◌, length, get_or, set, replicate, length-set,
  length-replicate, get_elem?-eq-get_or, ltb, ◌==◌, arith, if◌then◌else◌,
}
use tsl_sdr.Prelude.Int.{ℤ, pos}
use tsl_sdr.Tsl.Result.{a_ok}
use tsl_sdr.Filter.Polyphase.Places.{
  get_or-set_self, get_or-set_ne, get_or-replicate, get_or-beyond, place, place-coeff, coeff-place,
  place-inside,
}
use tsl_sdr.Filter.Polyphase.Ops.{phase_coeffs, fill_phases, fresh_polyphase, polyphase_fir_new}

pub within :
    (h : List ℤ) (i : ℕ)
    → (if ltb i (length h) then get_or h i (pos 0) else pos 0) ≡ get_or h i (pos 0)
within h i = elim (Bool-cases (ltb i (length h))) [
  | inl inside ↦ rw inside refl
  | inr beyond ↦ rw beyond (sym (get_or-beyond h i (pos 0) (ground arith)))
]

-- The first `k` coefficients of `h` stand in their rows, and the rest of the rows is 0.
pub record IsFilled (h filters : List ℤ) (interpolate row k : ℕ) : Type 0 where
  pub size : length filters ≡ interpolate * row
  pub stands :
      (p j : ℕ)
      → p < interpolate
      → j < row
      → get_or filters (p * row + j) (pos 0)
        ≡ (if ltb (p + j * interpolate) k then get_or h (p + j * interpolate) (pos 0) else pos 0)

module _ (h : List ℤ) (interpolate row : ℕ) (positive : 0 < interpolate)
    (fits : length h ≤ interpolate * row) where
  -- One more coefficient.
  IsFilled-set :
      (k : ℕ) (filters : List ℤ)
      → k < length h
      → IsFilled h filters interpolate row k
      → IsFilled h
          (set filters (place interpolate row k) (get_or h k (pos 0)))
          interpolate
          row
          (suc k)
  IsFilled-set k filters small is =
      let (inside, high) = place-inside interpolate row k positive (omega arith) in
      record {
        size = length-set filters _ _ ∙ is.size;
        stands = λ p j hp hj. elim (Bool-cases (p * row + j == place interpolate row k)) [
          | inl here ↦
              let e : p * row + j ≡ place interpolate row k = ground arith in
              let same = coeff-place interpolate row p j k hj high e in
              let now : ltb k (suc k) ≡ true = ground arith in
              rw (e, same, now)
                (get_or-set_self filters (place interpolate row k) _ _ (omega (arith, is.size)))
          | inr apart ↦
              let ne : place interpolate row k ≢ p * row + j = ground arith in
              let other : p + j * interpolate ≢ k =
                λ e. ne (ap (place interpolate row) (sym e) ∙ place-coeff interpolate row p j hp) in
              let as_before : ltb (p + j * interpolate) (suc k) ≡ ltb (p + j * interpolate) k =
                ground arith in
              rw as_before (
                get_or-set_ne filters (place interpolate row k) (p * row + j) _ _ ne
                ∙ is.stands p j hp hj)
        ];
      }

  fill_phases-IsFilled :
      (left i : ℕ) (filters : List ℤ)
      → i + left ≡ length h
      → IsFilled h filters interpolate row i
      → (out : List ℤ) × (fill_phases h interpolate row i left filters ≡ some out)
        × IsFilled h out interpolate row (length h)
  unfolding fill_phases
  fill_phases-IsFilled zero i filters all is =
      let done : i ≡ length h = omega arith in
      (filters, refl, subst (IsFilled h filters interpolate row) done is)
  fill_phases-IsFilled (suc left) i filters all is =
      let small : i < length h = omega arith in
      let loaded = get_elem?-eq-get_or h i (pos 0) small in
      let inside : ltb (place interpolate row i) (length filters) ≡ true =
        let below = (place-inside interpolate row i positive (omega arith)).0 in
        let size = is.size in ground arith in
      let (out, runs, filled) =
        fill_phases-IsFilled left (suc i) _ (omega arith) (IsFilled-set i filters small is) in
      (out, rw (loaded, inside) runs, filled)

-- The rows have room for all coefficients.
phase_coeffs-fits :
    (n interpolate : ℕ)
    → 0 < interpolate
    → n + interpolate < 2 ^ 31
    → n ≤ interpolate * phase_coeffs n interpolate
unfolding phase_coeffs
phase_coeffs-fits n interpolate h small =
    let q = (n + interpolate - 1) / interpolate in
    let parts = mod-add-div' (n + interpolate - 1) interpolate in
    let low = mod-lt (n + interpolate - 1) h in
    let covers : n ≤ q * interpolate = omega arith in
    let le_all : q ≤ n + interpolate - 1 = div-le_self (n + interpolate - 1) interpolate in
    let rounded : q ≤ phase_coeffs n interpolate = omega arith in
    let rows : q * interpolate ≤ phase_coeffs n interpolate * interpolate =
      mul-le-mul_right interpolate rounded in
    omega arith

pos_right : (m n i : ℕ) → i < m * n → 0 < n
pos_right m zero i h = absurd (omega arith)
pos_right m (suc n) i h = omega arith

-- A list of the values of a function.
abbrev pub tabulate : ℕ → (ℕ → ℤ) → List ℤ
tabulate zero f = []
tabulate (suc n) f = f 0 ∷ tabulate n (λ i. f (suc i))

eq-tabulate :
    (xs : List ℤ) (n : ℕ) (f : ℕ → ℤ)
    → length xs ≡ n
    → ((i : ℕ) → i < n → get_or xs i (pos 0) ≡ f i)
    → xs ≡ tabulate n f
eq-tabulate [] zero f e at = refl
eq-tabulate [] (suc n) f e at = absurd (omega arith)
eq-tabulate (x ∷ xs) zero f e at = absurd (omega arith)
eq-tabulate (x ∷ xs) (suc n) f e at =
    ap₂ (λ y ys. y ∷ ys) (at 0 (omega arith))
      (eq-tabulate xs n (λ i. f (suc i)) (omega arith) (λ i below. at (suc i) (omega arith)))

-- Row after row: the coefficient at a place.
abbrev pub row_coeff : (h : List ℤ) (interpolate row i : ℕ) → ℤ
row_coeff h interpolate row i = get_or h (i / row + i % row * interpolate) (pos 0)

IsFilled-tabulate :
    (h filters : List ℤ) (interpolate row : ℕ)
    → IsFilled h filters interpolate row (length h)
    → filters ≡ tabulate (interpolate * row) (row_coeff h interpolate row)
IsFilled-tabulate h filters interpolate row is =
    eq-tabulate filters (interpolate * row) _ is.size (λ i below.
      let positive : 0 < row = pos_right interpolate row i below in
      let parts : i / row * row + i % row ≡ i = omega (arith, mod-add-div' i row) in
      ap (λ n. get_or filters n (pos 0)) (sym parts)
      ∙ is.stands (i / row) (i % row) ((div-lt_iff_lt-mul positive).1 below) (mod-lt i positive)
      ∙ within h (i / row + i % row * interpolate))

-- `polyphase_fir_new` of coefficients `h`, at least one, with the memory that it asks for and
-- factors of at least 1: it ends with A_OK and a new filter with one row of coefficients for each
-- phase; row p has the coefficients of `h` from the p-th on, one in every `interpolate`, and 0
-- where there are no more.
pub polyphase_fir_new-tabulate :
    (h : List ℤ) (interpolate decimate : ℕ)
    → 0 < length h
    → 0 < interpolate
    → 0 < decimate
    → length h + interpolate < 2 ^ 31
    → polyphase_fir_new true true (length h) h interpolate decimate
      ≡ some (
        a_ok,
        some (
            fresh_polyphase interpolate decimate (phase_coeffs (length h) interpolate) (
              tabulate
                (interpolate * phase_coeffs (length h) interpolate)
                (row_coeff h interpolate (phase_coeffs (length h) interpolate)))),
      )
unfolding polyphase_fir_new
polyphase_fir_new-tabulate h interpolate decimate some_coeffs some_phases some_step small =
    let row = phase_coeffs (length h) interpolate in
    let blank : IsFilled h (replicate (interpolate * row) (pos 0)) interpolate row 0 = record {
      size = length-replicate (interpolate * row) (pos 0);
      stands = λ p j hp hj.
          let none_yet : ltb (p + j * interpolate) 0 ≡ false = ground arith in
          rw none_yet (get_or-replicate (interpolate * row) (p * row + j) (pos 0));
    } in
    let (filters, runs, filled) =
      fill_phases-IsFilled h interpolate row some_phases
        (phase_coeffs-fits (length h) interpolate some_phases small) (length h) 0 _ (omega arith)
        blank in
    let c : (length h == 0) ≡ false = ground arith in
    let p : (interpolate == 0) ≡ false = ground arith in
    let d : (decimate == 0) ≡ false = ground arith in
    rw (c, p, d, runs)
      (ap (λ f. some (a_ok, some (fresh_polyphase interpolate decimate row f)))
        (IsFilled-tabulate h filters interpolate row filled))
