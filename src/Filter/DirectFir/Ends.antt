-- ===== src/Filter/DirectFir/Ends.antt =====
-- The loop over the buffers in `_direct_fir_process_sample` of filter/direct_fir.c ends, whatever
-- state the filter is in, as long as the next buffer is not empty.
use tsl_sdr.Prelude.{
  ℕ, zero, suc, ◌+◌, ◌-◌, ◌%◌, ◌^◌, ◌<◌, ◌≡◌, ◌≢◌, inl, inr, refl, false, Option, none, some,
  Bool-cases, ◌>>=◌, ◌==◌, arith,
}
use tsl_sdr.Filter.Fixed.{Complex}
use tsl_sdr.Filter.DirectFir.State.{SampleBuf, Bufs, Ptr, deref, Fir}
use tsl_sdr.Filter.DirectFir.Ops.{filter_buf, filter_bufs, samples_in}

-- A round on a buffer that is not empty, from its start, uses coefficients up.
samples_in-some :
    (nr_samples remain : ℕ)
    → 0 < nr_samples
    → nr_samples < 2 ^ 32
    → 0 < remain
    → 0 < samples_in nr_samples 0 remain
samples_in-some nr_samples remain filled small more =
    let all : (nr_samples + (2 ^ 64 - 0)) % 2 ^ 64 ≡ nr_samples = omega arith in ground (arith, all)

-- The next buffer, where there is one, holds a number of samples of 32 bits that is not 0.
abbrev pub NextFilled : Fir → Bufs → Type 0
NextFilled fir bufs =
    (b : SampleBuf) → deref bufs fir.sb_next ≡ some b → (0 < b.nr_samples) × (b.nr_samples < 2 ^ 32)

bind-ends :
    {A : Type 0} (m : Option A) (f : A → Option (Option Complex))
    → ((a : A) → m ≡ some a → f a ≢ some none)
    → (m >>= f) ≢ some none
bind-ends none f ends e = absurd cc
bind-ends (some a) f ends e = ends a refl e

-- A round ends if the rounds after it do, where there are any.
filter_bufs-round :
    (fuel : ℕ) (fir : Fir) (bufs : Bufs) (p : Ptr) (buf_offset remain : ℕ) (acc : Complex)
    → ((b : SampleBuf) (sum : Complex)
        → deref bufs p ≡ some b
        → 0 < remain - samples_in b.nr_samples buf_offset remain
        → filter_bufs fuel fir bufs fir.sb_next 0
            (remain - samples_in b.nr_samples buf_offset remain)
            sum
          ≢ some none)
    → filter_bufs (suc fuel) fir bufs p buf_offset remain acc ≢ some none
unfolding filter_bufs
filter_bufs-round fuel fir bufs p buf_offset remain acc rest =
    bind-ends (deref bufs p) _ (λ b there.
      let left = remain - samples_in b.nr_samples buf_offset remain in
      let pass =
        filter_buf fir b (fir.nr_coeffs - remain) buf_offset 0
          (samples_in b.nr_samples buf_offset remain) acc in
      bind-ends pass _ (λ sum done. elim (Bool-cases (left == 0)) [
        | inl last ↦ λ e. let no = rw last at e in cc
        | inr more ↦ λ e. rest b sum there (ground (arith, more)) (rw more at e)
      ]))

filter_bufs-next :
    (fuel : ℕ) (fir : Fir) (bufs : Bufs) (remain : ℕ) (acc : Complex)
    → NextFilled fir bufs
    → 0 < remain
    → remain < fuel
    → filter_bufs fuel fir bufs fir.sb_next 0 remain acc ≢ some none
filter_bufs-next zero fir bufs remain acc filled more enough = absurd (omega arith)
filter_bufs-next (suc fuel) fir bufs remain acc filled more enough =
    filter_bufs-round fuel fir bufs fir.sb_next 0 remain acc (λ b sum there left.
      let (some_samples, small) = filled b there in
      let used = samples_in-some b.nr_samples remain some_samples small more in
      filter_bufs-next fuel fir bufs (remain - samples_in b.nr_samples 0 remain) sum filled left
        (omega arith))

-- In every state of a filter and its buffers in which the next buffer, if there is one, is not
-- empty, and from every place in a buffer: with more rounds than there are coefficients to go plus
-- one, the loop does not use up its fuel.
pub filter_bufs-ends :
    (fuel : ℕ) (fir : Fir) (bufs : Bufs) (p : Ptr) (buf_offset remain : ℕ) (acc : Complex)
    → NextFilled fir bufs
    → suc remain < fuel
    → filter_bufs fuel fir bufs p buf_offset remain acc ≢ some none
filter_bufs-ends zero fir bufs p buf_offset remain acc filled enough = absurd (omega arith)
filter_bufs-ends (suc fuel) fir bufs p buf_offset remain acc filled enough =
    filter_bufs-round fuel fir bufs p buf_offset remain acc (λ b sum there left.
      filter_bufs-next fuel fir bufs (remain - samples_in b.nr_samples buf_offset remain) sum filled
        left (omega arith))

-- With an empty next buffer and coefficients to go, the loop takes any number of rounds without an
-- end.
pub filter_bufs-spins :
    (fuel : ℕ) (fir : Fir) (bufs : Bufs) (b : SampleBuf) (remain : ℕ) (acc : Complex)
    → deref bufs fir.sb_next ≡ some b
    → b.nr_samples ≡ 0
    → 0 < remain
    → filter_bufs fuel fir bufs fir.sb_next 0 remain acc ≡ some none
unfolding filter_bufs filter_buf
filter_bufs-spins zero fir bufs b remain acc there empty more = refl
filter_bufs-spins (suc fuel) fir bufs b remain acc there empty more =
    let nothing : samples_in b.nr_samples 0 remain ≡ 0 =
      let all : (b.nr_samples + (2 ^ 64 - 0)) % 2 ^ 64 ≡ 0 = omega arith in ground (arith, all) in
    let same : remain - 0 ≡ remain = omega arith in
    let again : (remain == 0) ≡ false = ground arith in
    rw (there, nothing, same, again) (filter_bufs-spins fuel fir bufs b remain acc there empty more)
