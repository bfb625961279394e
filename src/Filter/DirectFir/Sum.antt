-- ===== src/Filter/DirectFir/Sum.antt =====
-- The two loops of `_direct_fir_process_sample` of filter/direct_fir.c sum up the coefficients
-- against the stream.
use tsl_sdr.Prelude.{
  ℕ, zero, suc, ◌+◌, ◌-◌, ◌%◌, ◌^◌, ◌≤◌, ◌<◌, ◌≡◌, refl, sym, ap, ◌∙◌, inl, inr, true, false, some,
  Option-cases, ◌>>=◌, List, ◌++◌, length, take, drop, length-drop, leb, ◌==◌, arith,
}
use mathlib.Core.Path.{subst₂}
use tsl_sdr.Prelude.Int.{ℤ}
use tsl_sdr.Filter.Fixed.{Complex}
use tsl_sdr.Filter.DirectFir.State.{SampleBuf, Bufs, Ptr, deref, Fir}
use tsl_sdr.Filter.DirectFir.Ops.{
  accumulate, sample_at, coeff_at, filter_buf, filter_bufs, samples_in,
}
use tsl_sdr.Filter.DirectFir.Setup.{bug_on}
use tsl_sdr.Filter.DirectFir.Convolve.{
  zip, samples, dot, IsFull, length-zip, take-all, drop-cons, length-samples, sample_at-samples,
  coeff_at-zip, dot-append,
}

-- The filter has as many coefficients of each part as it counts, and at least one.
pub record HasCoeffs (fir : Fir) (real imag : List ℤ) : Type 0 where
  pub real_is : fir.fir_real_coeff ≡ some real
  pub imag_is : fir.fir_imag_coeff ≡ some imag
  pub real_length : length real ≡ fir.nr_coeffs
  pub imag_length : length imag ≡ fir.nr_coeffs
  pub some_coeffs : 0 < fir.nr_coeffs
  pub small : fir.nr_coeffs < 2 ^ 32

under : (a b : ℕ) → a < b → leb b a ≡ false
under a b h = ground arith

pub wrapped : (a b : ℕ) → a < 2 ^ 32 → b ≤ a → (a + (2 ^ 64 - b)) % 2 ^ 64 ≡ a - b
wrapped a b small inside = omega arith

-- The whole sum is in this buffer.
pub samples_in-enough :
    (nr_samples buf_offset remain : ℕ)
    → nr_samples < 2 ^ 32
    → buf_offset + remain ≤ nr_samples
    → samples_in nr_samples buf_offset remain ≡ remain
samples_in-enough nr_samples buf_offset remain small here =
    let h = wrapped nr_samples buf_offset small (omega arith) in ground (arith, h)

-- This buffer ends first.
pub samples_in-end :
    (nr_samples buf_offset remain : ℕ)
    → nr_samples < 2 ^ 32
    → buf_offset ≤ nr_samples
    → nr_samples < buf_offset + remain
    → samples_in nr_samples buf_offset remain ≡ nr_samples - buf_offset
samples_in-end nr_samples buf_offset remain small inside ends =
    let h = wrapped nr_samples buf_offset small inside in ground (arith, h)

module _ {fir : Fir} {real imag : List ℤ} (has : HasCoeffs fir real imag) where
  pub length-coeffs : length (zip real imag) ≡ fir.nr_coeffs
  length-coeffs = length-zip real imag (has.real_length ∙ sym has.imag_length) ∙ has.real_length

  -- No index check fires, no access is out of bounds, and the loop is the sum.
  pub filter_buf-dot :
      (b : SampleBuf) (start_coeff buf_offset i left : ℕ) (acc : Complex)
      → IsFull b
      → i + start_coeff + left ≤ fir.nr_coeffs
      → i + buf_offset + left ≤ b.nr_samples
      → filter_buf fir b start_coeff buf_offset i left acc
        ≡ dot
            (take left (drop (i + start_coeff) (zip real imag)))
            (drop (i + buf_offset) (samples b))
            acc
  unfolding filter_buf bug_on
  filter_buf-dot b start_coeff buf_offset i zero acc full cs_h ss_h = refl
  filter_buf-dot b start_coeff buf_offset i (suc left) acc full cs_h ss_h =
      let (c, c_at, c_drop) =
        drop-cons (zip real imag) (i + start_coeff) (omega (arith, length-coeffs)) in
      let (s, s_at, s_drop) =
        drop-cons (samples b) (i + buf_offset) (omega (arith, length-samples b full)) in
      let place : buf_offset + i ≡ i + buf_offset = omega arith in
      let s_is : sample_at b.data_buf (buf_offset + i) ≡ some s =
        rw place (sample_at-samples b (i + buf_offset) (omega arith) ∙ s_at) in
      let c_is : coeff_at fir (i + start_coeff) ≡ some c =
        coeff_at-zip fir real imag (i + start_coeff) c has.real_is has.imag_is c_at in
      let in_coeffs = under (i + start_coeff) fir.nr_coeffs (omega arith) in
      let in_buf = under (i + buf_offset) b.nr_samples (omega arith) in
      let c_next : suc i + start_coeff ≡ suc (i + start_coeff) = omega arith in
      let s_next : suc i + buf_offset ≡ suc (i + buf_offset) = omega arith in
      rw (in_coeffs, in_buf, s_is, c_is, c_drop, s_drop)
        (elim (Option-cases (accumulate acc c s)) [
          | inl e ↦ rw e refl
          | inr (next, e) ↦
              rw (e, ← c_next, ← s_next)
                (filter_buf-dot b start_coeff buf_offset (suc i) left next full (omega arith)
                  (omega arith))
        ])

  -- From the first round on.
  pass-dot :
      (b : SampleBuf) (start_coeff buf_offset count : ℕ) (acc : Complex)
      → IsFull b
      → start_coeff + count ≤ fir.nr_coeffs
      → buf_offset + count ≤ b.nr_samples
      → filter_buf fir b start_coeff buf_offset 0 count acc
        ≡ dot (take count (drop start_coeff (zip real imag))) (drop buf_offset (samples b)) acc
  pass-dot b start_coeff buf_offset count acc full cs_h ss_h =
      let sum =
        filter_buf-dot b start_coeff buf_offset 0 count acc full (omega arith) (omega arith) in
      let Sum = λ (start from : ℕ).
        filter_buf fir b start_coeff buf_offset 0 count acc
        ≡ dot (take count (drop start (zip real imag))) (drop from (samples b)) acc in
      subst₂ Sum (omega arith) (omega arith) sum

  -- The last buffer has samples for all the coefficients that remain.
  pub filter_bufs-last :
      (fuel : ℕ) (bufs : Bufs) (p : Ptr) (b : SampleBuf) (buf_offset remain : ℕ) (acc : Complex)
      → deref bufs p ≡ some b
      → IsFull b
      → remain ≤ fir.nr_coeffs
      → buf_offset + remain ≤ b.nr_samples
      → filter_bufs (suc fuel) fir bufs p buf_offset remain acc ≡ (
          dot (drop (fir.nr_coeffs - remain) (zip real imag)) (drop buf_offset (samples b)) acc
          >>= λ sum. some (some sum))
  unfolding filter_bufs
  filter_bufs-last fuel bufs p b buf_offset remain acc p_is full few here =
      let here_is : samples_in b.nr_samples buf_offset remain ≡ remain =
        samples_in-enough b.nr_samples buf_offset remain full.small here in
      let none_left : (remain - remain == 0) ≡ true = ground arith in
      let tail = drop (fir.nr_coeffs - remain) (zip real imag) in
      let all : take remain tail ≡ tail =
        take-all remain tail
          (omega (arith, length-drop (fir.nr_coeffs - remain) (zip real imag), length-coeffs)) in
      let sum = pass-dot b (fir.nr_coeffs - remain) buf_offset remain acc full (omega arith) here in
      rw (p_is, here_is, none_left, sum, all) refl

  -- The sum over the active buffer and, where it ends first, the next one: two rounds are enough.
  pub filter_bufs-dot :
      (fuel : ℕ) (bufs : Bufs) (a b : SampleBuf) (acc : Complex)
      → deref bufs fir.sb_active ≡ some a
      → deref bufs fir.sb_next ≡ some b
      → IsFull a
      → IsFull b
      → fir.sample_offset ≤ a.nr_samples
      → a.nr_samples < fir.sample_offset + fir.nr_coeffs
      → fir.sample_offset + fir.nr_coeffs ≤ a.nr_samples + b.nr_samples
      → filter_bufs (suc (suc fuel)) fir bufs fir.sb_active fir.sample_offset fir.nr_coeffs acc ≡ (
          dot (zip real imag) (drop fir.sample_offset (samples a) ++ samples b) acc >>= λ sum.
          some (some sum))
  unfolding filter_bufs
  filter_bufs-dot fuel bufs a b acc a_is b_is a_full b_full inside ends enough =
      let n = fir.nr_coeffs in
      let k = a.nr_samples - fir.sample_offset in
      let tail = drop fir.sample_offset (samples a) in
      let k_is = samples_in-end a.nr_samples fir.sample_offset n a_full.small inside ends in
      let k_length : length tail ≡ k =
        length-drop fir.sample_offset (samples a)
        ∙ ap (λ l. l - fir.sample_offset) (length-samples a a_full) in
      let more : (n - k == 0) ≡ false = ground arith in
      let none_done : n - n ≡ 0 = omega arith in
      let rest_done : n - (n - k) ≡ k = omega arith in
      let split =
        dot-append (zip real imag) tail (samples b) acc (omega (arith, k_length, length-coeffs)) in
      let first = pass-dot a 0 fir.sample_offset k acc a_full (omega arith) (omega arith) in
      let second = λ (next : Complex).
        filter_bufs-last fuel bufs fir.sb_next b 0 (n - k) next b_is b_full (omega arith)
          (omega arith) in
      rw (a_is, k_is, none_done, first, more, split, k_length)
        (elim (Option-cases (dot (take k (zip real imag)) tail acc)) [
          | inl e ↦ rw e refl
          | inr (next, e) ↦ rw e (second next ∙ rw rest_done refl)
        ])
