-- ===== src/Filter/Polyphase/Dot.antt =====
-- `dot_product_sample_buffers_real` of filter/utils.c on a row of a filter of
-- filter/polyphase_fir.c is a sum over one phase of the coefficients.
use mathlib.Core.Path.{subst₂}
use tsl_sdr.Prelude.{
  ℕ, zero, suc, ◌+◌, ◌-◌, ◌*◌, ◌^◌, ◌≤◌, ◌<◌, ◌≡◌, refl, sym, ap, ◌∙◌, inl, inr, true, false,
  Option, none, some, Option-cases, ◌>>=◌, List, [], ◌∷◌, ◌++◌, length, get_elem?, get_or, take,
  drop, length-drop, get_elem?-eq-get_or, ◌==◌, arith,
}
use tsl_sdr.Prelude.Int.{ℤ, pos}
use tsl_sdr.Filter.DirectFir.State.{SampleBuf, Bufs, Ptr, deref}
use tsl_sdr.Filter.DirectFir.Convolve.{drop-cons}
use tsl_sdr.Filter.DirectFir.Sum.{samples_in-enough, samples_in-end}
use tsl_sdr.Filter.Polyphase.Ops.{add_product, dot_buf, dot_bufs}

-- The sum of every `step`-th coefficient of `h`, from place `phase + j * step` on, times the
-- samples, with 0 behind the last coefficient; `none` when the samples do not reach or a sum does
-- not fit.
abbrev pub phase_dot : (h : List ℤ) (step phase j left : ℕ) (samples : List ℤ) → ℤ → Option ℤ
phase_dot h step phase j zero ss acc = some acc
phase_dot h step phase j (suc left) [] acc = none
phase_dot h step phase j (suc left) (s ∷ ss) acc =
    add_product acc (get_or h (phase + j * step) (pos 0)) s
    >>= phase_dot h step phase (suc j) left ss

abbrev pub samples : SampleBuf → List ℤ
samples b = take b.nr_samples b.data_buf

-- A buffer has the data for its samples, and sizes are of 32 bits.
pub record IsFull (b : SampleBuf) : Type 0 where
  pub holds : b.nr_samples ≤ length b.data_buf
  pub small : b.nr_samples < 2 ^ 32

take-full : (n : ℕ) (xs : List ℤ) → n ≤ length xs → length (take n xs) ≡ n
take-full zero xs h = refl
take-full (suc n) [] h = absurd (omega arith)
take-full (suc n) (x ∷ xs) h = ap suc (take-full n xs (omega arith))

pub length-samples : (b : SampleBuf) → IsFull b → length (samples b) ≡ b.nr_samples
length-samples b full = take-full b.nr_samples b.data_buf full.holds

get_elem?-take : (n i : ℕ) (xs : List ℤ) → i < n → get_elem? (take n xs) i ≡ get_elem? xs i
get_elem?-take zero i xs h = absurd (omega arith)
get_elem?-take (suc n) i [] h = refl
get_elem?-take (suc n) zero (x ∷ xs) h = refl
get_elem?-take (suc n) (suc i) (x ∷ xs) h = get_elem?-take n i xs (omega arith)

-- Enough samples: what follows does not matter.
pub phase_dot-enough :
    (h : List ℤ) (step phase j left : ℕ) (ss ts : List ℤ) (acc : ℤ)
    → left ≤ length ss
    → phase_dot h step phase j left (ss ++ ts) acc ≡ phase_dot h step phase j left ss acc
phase_dot-enough h step phase j zero ss ts acc few = refl
phase_dot-enough h step phase j (suc left) [] ts acc few = absurd (omega arith)
phase_dot-enough h step phase j (suc left) (s ∷ ss) ts acc few =
    elim (Option-cases (add_product acc (get_or h (phase + j * step) (pos 0)) s)) [
      | inl e ↦ rw e refl
      | inr (next, e) ↦ rw e (phase_dot-enough h step phase (suc j) left ss ts next (omega arith))
    ]

-- Fewer: the sum goes on with what follows, `k` coefficients further on.
pub phase_dot-append :
    (h : List ℤ) (step phase j k left : ℕ) (ss ts : List ℤ) (acc : ℤ)
    → length ss ≡ k
    → phase_dot h step phase j (k + left) (ss ++ ts) acc
      ≡ (phase_dot h step phase j k ss acc >>= phase_dot h step phase (j + k) left ts)
phase_dot-append h step phase j zero left [] ts acc e =
    let none_right : j + 0 ≡ j = omega arith in
    let none_left : 0 + left ≡ left = omega arith in rw (none_left, none_right) refl
phase_dot-append h step phase j zero left (s ∷ ss) ts acc e = absurd (omega arith)
phase_dot-append h step phase j (suc k) left [] ts acc e = absurd (omega arith)
phase_dot-append h step phase j (suc k) left (s ∷ ss) ts acc e =
    let more : suc k + left ≡ suc (k + left) = omega arith in
    let further : suc j + k ≡ j + suc k = omega arith in
    rw more (elim (Option-cases (add_product acc (get_or h (phase + j * step) (pos 0)) s)) [
      | inl f ↦ rw f refl
      | inr (next, f) ↦
          rw (f, ← further) (phase_dot-append h step phase (suc j) k left ss ts next (omega arith))
    ])

-- From `base` on, `coeffs` has the row of a phase.
pub record HasRow (coeffs h : List ℤ) (base row step phase : ℕ) : Type 0 where
  pub inside : base + row ≤ length coeffs
  pub stands :
      (j : ℕ) → j < row → get_or coeffs (base + j) (pos 0) ≡ get_or h (phase + j * step) (pos 0)
  pub small : row < 2 ^ 32

module _ {coeffs h : List ℤ} {base row step phase : ℕ}
    (has : HasRow coeffs h base row step phase) where
  dot_buf-phase_dot :
      (b : SampleBuf) (start_coeff buf_offset i left : ℕ) (acc : ℤ)
      → IsFull b
      → start_coeff + i + left ≤ row
      → buf_offset + i + left ≤ b.nr_samples
      → dot_buf coeffs base b start_coeff buf_offset i left acc
        ≡ phase_dot h step phase (start_coeff + i) left (drop (buf_offset + i) (samples b)) acc
  unfolding dot_buf
  dot_buf-phase_dot b start_coeff buf_offset i zero acc full cs ss = refl
  dot_buf-phase_dot b start_coeff buf_offset i (suc left) acc full cs ss =
      let (s, s_at, s_drop) =
        drop-cons (samples b) (buf_offset + i) (omega (arith, length-samples b full)) in
      let sample =
        sym (get_elem?-take b.nr_samples (buf_offset + i) b.data_buf (omega arith)) ∙ s_at in
      let coeff =
        get_elem?-eq-get_or coeffs (base + (start_coeff + i)) (pos 0) (omega (arith, has.inside))
        ∙ ap some (has.stands (start_coeff + i) (omega arith)) in
      let c_next : start_coeff + suc i ≡ suc (start_coeff + i) = omega arith in
      let s_next : buf_offset + suc i ≡ suc (buf_offset + i) = omega arith in
      rw (sample, coeff, s_drop)
        (elim (Option-cases
          (add_product acc (get_or h (phase + (start_coeff + i) * step) (pos 0)) s)) [
            | inl e ↦ rw e refl
            | inr (next, e) ↦
                rw (e, ← c_next, ← s_next)
                  (dot_buf-phase_dot b start_coeff buf_offset (suc i) left next full (omega arith)
                    (omega arith))
          ])

  -- From the first round on.
  pass :
      (b : SampleBuf) (start_coeff buf_offset count : ℕ) (acc : ℤ)
      → IsFull b
      → start_coeff + count ≤ row
      → buf_offset + count ≤ b.nr_samples
      → dot_buf coeffs base b start_coeff buf_offset 0 count acc
        ≡ phase_dot h step phase start_coeff count (drop buf_offset (samples b)) acc
  pass b start_coeff buf_offset count acc full cs ss =
      let Sum = λ (j from : ℕ).
        dot_buf coeffs base b start_coeff buf_offset 0 count acc
        ≡ phase_dot h step phase j count (drop from (samples b)) acc in
      subst₂ Sum (omega arith) (omega arith)
        (dot_buf-phase_dot b start_coeff buf_offset 0 count acc full (omega arith) (omega arith))

  -- The last buffer has samples for all the coefficients that remain.
  dot_bufs-last :
      (fuel : ℕ) (bufs : Bufs) (p second : Ptr) (b : SampleBuf) (buf_offset remain : ℕ) (acc : ℤ)
      → deref bufs p ≡ some b
      → IsFull b
      → remain ≤ row
      → buf_offset + remain ≤ b.nr_samples
      → dot_bufs (suc fuel) coeffs base row bufs p second buf_offset remain acc ≡ (
          phase_dot h step phase (row - remain) remain (drop buf_offset (samples b)) acc >>= λ sum.
          some (some sum))
  unfolding dot_bufs
  dot_bufs-last fuel bufs p second b buf_offset remain acc p_is full few here =
      let here_is = samples_in-enough b.nr_samples buf_offset remain full.small here in
      let none_left : (remain - remain == 0) ≡ true = ground arith in
      let sum = pass b (row - remain) buf_offset remain acc full (omega arith) here in
      rw (p_is, here_is, none_left, sum) refl

  -- The sum over one buffer that has samples enough.
  pub dot_bufs-one :
      (fuel : ℕ) (bufs : Bufs) (p second : Ptr) (a : SampleBuf) (offset : ℕ) (acc : ℤ)
      → deref bufs p ≡ some a
      → IsFull a
      → offset + row ≤ a.nr_samples
      → dot_bufs (suc fuel) coeffs base row bufs p second offset row acc
        ≡ (phase_dot h step phase 0 row (drop offset (samples a)) acc >>= λ sum. some (some sum))
  dot_bufs-one fuel bufs p second a offset acc p_is full here =
      let all : row - row ≡ 0 = omega arith in
      dot_bufs-last fuel bufs p second a offset row acc p_is full (omega arith) here ∙ rw all refl

  -- The sum over the active buffer and the next one.
  pub dot_bufs-two :
      (fuel : ℕ) (bufs : Bufs) (p second : Ptr) (a b : SampleBuf) (offset : ℕ) (acc : ℤ)
      → deref bufs p ≡ some a
      → deref bufs second ≡ some b
      → IsFull a
      → IsFull b
      → offset ≤ a.nr_samples
      → a.nr_samples < offset + row
      → offset + row ≤ a.nr_samples + b.nr_samples
      → dot_bufs (suc (suc fuel)) coeffs base row bufs p second offset row acc ≡ (
          phase_dot h step phase 0 row (drop offset (samples a) ++ samples b) acc >>= λ sum.
          some (some sum))
  unfolding dot_bufs
  dot_bufs-two fuel bufs p second a b offset acc a_is b_is a_full b_full inside ends enough =
      let k = a.nr_samples - offset in
      let tail = drop offset (samples a) in
      let k_is = samples_in-end a.nr_samples offset row a_full.small inside ends in
      let k_length : length tail ≡ k =
        length-drop offset (samples a) ∙ ap (λ l. l - offset) (length-samples a a_full) in
      let more : (row - k == 0) ≡ false = ground arith in
      let none_done : row - row ≡ 0 = omega arith in
      let rest_done : row - (row - k) ≡ k = omega arith in
      let whole : row ≡ k + (row - k) = omega arith in
      let from_k : 0 + k ≡ k = omega arith in
      let split : phase_dot h step phase 0 row (tail ++ samples b) acc ≡ (
          phase_dot h step phase 0 k tail acc >>= phase_dot h step phase k (row - k) (samples b)) =
        ap (λ n. phase_dot h step phase 0 n (tail ++ samples b) acc) whole
        ∙ phase_dot-append h step phase 0 k (row - k) tail (samples b) acc k_length
        ∙ rw from_k refl in
      let first = pass a 0 offset k acc a_full (omega arith) (omega arith) in
      let second_pass = λ (next : ℤ).
        dot_bufs-last fuel bufs second second b 0 (row - k) next b_is b_full (omega arith)
          (omega arith) in
      rw (a_is, k_is, none_done, first, more, split)
        (elim (Option-cases (phase_dot h step phase 0 k tail acc)) [
          | inl e ↦ rw e refl
          | inr (next, e) ↦ rw e (second_pass next ∙ rw rest_done refl)
        ])
