-- ===== src/Filter/DirectFir/Convolve.antt =====
-- What a pass of filter/direct_fir.c stands for: the coefficients against the first samples of the
-- stream that the two buffers hold.
use tsl_sdr.Prelude.{
  ℕ, zero, suc, ◌+◌, ◌*◌, ◌^◌, ◌≤◌, ◌<◌, ◌≡◌, refl, sym, ap, ◌∙◌, inl, inr, Option, none, some,
  Option-cases, ◌>>=◌, List, [], ◌∷◌, ◌++◌, length, get_elem?, take, drop, load, arith,
}
use tsl_sdr.Prelude.Int.{ℤ}
use tsl_sdr.Filter.Fixed.{Complex}
use tsl_sdr.Filter.DirectFir.State.{SampleBuf, Bufs, deref, Fir}
use tsl_sdr.Filter.DirectFir.Ops.{accumulate, sample_at, coeff_at}

-- The complex numbers of interleaved words.
abbrev pub pairs : List ℤ → List Complex
pairs [] = []
pairs (re ∷ []) = []
pairs (re ∷ im ∷ ws) = (re, im) ∷ pairs ws

abbrev pub zip : List ℤ → List ℤ → List Complex
zip [] ys = []
zip (x ∷ xs) [] = []
zip (x ∷ xs) (y ∷ ys) = (x, y) ∷ zip xs ys

abbrev pub samples : SampleBuf → List Complex
samples b = take b.nr_samples (pairs b.data_buf)

abbrev pub samples_of : Option SampleBuf → List Complex
samples_of none = []
samples_of (some b) = samples b

-- The samples from the next one on.
unfoldable pub stream : Fir → Bufs → List Complex
stream fir bufs =
    drop fir.sample_offset (samples_of (deref bufs fir.sb_active))
    ++ samples_of (deref bufs fir.sb_next)

-- The sum of coefficients times samples, added to `acc` one after the other; `none` when the
-- samples do not reach or a sum does not fit.
abbrev pub dot : (coeffs samples : List Complex) → Complex → Option Complex
dot [] ss acc = some acc
dot (c ∷ cs) [] acc = none
dot (c ∷ cs) (s ∷ ss) acc = accumulate acc c s >>= dot cs ss

-- A buffer has the data for its samples, and sizes are of 32 bits.
pub record IsFull (b : SampleBuf) : Type 0 where
  pub holds : 2 * b.nr_samples ≤ length b.data_buf
  pub small : b.nr_samples < 2 ^ 32

length-pairs : (ws : List ℤ) (n : ℕ) → 2 * n ≤ length ws → n ≤ length (pairs ws)
length-pairs ws zero h = omega arith
length-pairs [] (suc n) h = absurd (omega arith)
length-pairs (re ∷ []) (suc n) h = absurd (omega arith)
length-pairs (re ∷ im ∷ ws) (suc n) h = omega (arith, length-pairs ws n (omega arith))

pub length-zip : (xs ys : List ℤ) → length xs ≡ length ys → length (zip xs ys) ≡ length xs
length-zip [] ys h = refl
length-zip (x ∷ xs) [] h = absurd (omega arith)
length-zip (x ∷ xs) (y ∷ ys) h = ap suc (length-zip xs ys (omega arith))

module _ {ℓ} {A : Type ℓ} where
  length-take_le : (n : ℕ) (xs : List A) → n ≤ length xs → length (take n xs) ≡ n
  length-take_le zero xs h = refl
  length-take_le (suc n) [] h = absurd (omega arith)
  length-take_le (suc n) (x ∷ xs) h = ap suc (length-take_le n xs (omega arith))

  get_elem?-take : (n i : ℕ) (xs : List A) → i < n → get_elem? (take n xs) i ≡ get_elem? xs i
  get_elem?-take zero i xs h = absurd (omega arith)
  get_elem?-take (suc n) i [] h = refl
  get_elem?-take (suc n) zero (x ∷ xs) h = refl
  get_elem?-take (suc n) (suc i) (x ∷ xs) h = get_elem?-take n i xs (omega arith)

  pub take-all : (n : ℕ) (xs : List A) → length xs ≤ n → take n xs ≡ xs
  take-all zero [] h = refl
  take-all zero (x ∷ xs) h = absurd (omega arith)
  take-all (suc n) [] h = refl
  take-all (suc n) (x ∷ xs) h = ap (λ l. x ∷ l) (take-all n xs (omega arith))

  -- The tail from a place begins with the element there.
  pub drop-cons :
      (xs : List A) (i : ℕ)
      → i < length xs
      → (x : A) × (get_elem? xs i ≡ some x) × (drop i xs ≡ x ∷ drop (suc i) xs)
  drop-cons [] i h = absurd (omega arith)
  drop-cons (x ∷ xs) zero h = (x, refl, refl)
  drop-cons (x ∷ xs) (suc i) h = drop-cons xs i (omega arith)

pub length-samples : (b : SampleBuf) → IsFull b → length (samples b) ≡ b.nr_samples
length-samples b full =
    length-take_le b.nr_samples (pairs b.data_buf) (length-pairs b.data_buf b.nr_samples full.holds)

twice_suc : (i : ℕ) → 2 * suc i ≡ suc (suc (2 * i))
twice_suc i = omega arith

odd_suc : (i : ℕ) → 2 * suc i + 1 ≡ suc (suc (2 * i + 1))
odd_suc i = omega arith

-- Two neighbouring words are a sample.
sample_at-pairs : (ws : List ℤ) (i : ℕ) → sample_at ws i ≡ get_elem? (pairs ws) i
unfolding sample_at
sample_at-pairs [] i = refl
sample_at-pairs (re ∷ []) zero = refl
sample_at-pairs (re ∷ []) (suc i) = rw (twice_suc i) refl
sample_at-pairs (re ∷ im ∷ ws) zero = refl
sample_at-pairs (re ∷ im ∷ ws) (suc i) = rw (odd_suc i, twice_suc i) (sample_at-pairs ws i)

pub sample_at-samples :
    (b : SampleBuf) (i : ℕ) → i < b.nr_samples → sample_at b.data_buf i ≡ get_elem? (samples b) i
sample_at-samples b i h =
    sample_at-pairs b.data_buf i ∙ sym (get_elem?-take b.nr_samples i (pairs b.data_buf) h)

load-zip :
    (xs ys : List ℤ) (i : ℕ) (x y : ℤ)
    → get_elem? (zip xs ys) i ≡ some (x, y)
    → (load xs i ≡ some x) × (load ys i ≡ some y)
load-zip [] ys i x y e = absurd cc
load-zip (a ∷ xs) [] i x y e = absurd cc
load-zip (a ∷ xs) (b ∷ ys) zero x y e =
    (let both : Path Complex (a, b) (x, y) = cc in
      (ap (λ c. some c.0) both, ap (λ c. some c.1) both))
load-zip (a ∷ xs) (b ∷ ys) (suc i) x y e = load-zip xs ys i x y e

pub coeff_at-zip :
    (fir : Fir) (real imag : List ℤ) (i : ℕ) (c : Complex)
    → fir.fir_real_coeff ≡ some real
    → fir.fir_imag_coeff ≡ some imag
    → get_elem? (zip real imag) i ≡ some c
    → coeff_at fir i ≡ some c
unfolding coeff_at
coeff_at-zip fir real imag i (x, y) e f g =
    let both = load-zip real imag i x y g in rw (e, f, both.0, both.1) refl

-- As many coefficients as samples: what follows in the stream does not matter.
pub dot-enough :
    (cs ss ts : List Complex) (acc : Complex)
    → length cs ≤ length ss
    → dot cs (ss ++ ts) acc ≡ dot cs ss acc
dot-enough [] ss ts acc h = refl
dot-enough (c ∷ cs) [] ts acc h = absurd (omega arith)
dot-enough (c ∷ cs) (s ∷ ss) ts acc h = elim (Option-cases (accumulate acc c s)) [
  | inl e ↦ rw e refl
  | inr (next, e) ↦ rw e (dot-enough cs ss ts next (omega arith))
]

-- More coefficients than samples: the sum goes on with what follows.
pub dot-append :
    (cs ss ts : List Complex) (acc : Complex)
    → length ss ≤ length cs
    → dot cs (ss ++ ts) acc ≡ (dot (take (length ss) cs) ss acc >>= dot (drop (length ss) cs) ts)
dot-append cs [] ts acc h = refl
dot-append [] (s ∷ ss) ts acc h = absurd (omega arith)
dot-append (c ∷ cs) (s ∷ ss) ts acc h = elim (Option-cases (accumulate acc c s)) [
  | inl e ↦ rw e refl
  | inr (next, e) ↦ rw e (dot-append cs ss ts next (omega arith))
]
