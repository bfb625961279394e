-- ===== src/Filter/DirectFir/Setup.antt =====
-- Setting up and cleaning up a filter of filter/direct_fir.c, handing it buffers and asking about
-- it. `none` is undefined behaviour or a failed TSL_BUG_ON, both of which stop the program.
use tsl_sdr.Prelude.{
  ℕ, ◌+◌, ◌/◌, ◌%◌, ◌^◌, Bool, true, false, not, ◌||◌, Option, none, some, List, ◌>>=◌, ◌>>◌, leb,
  ◌==◌, if◌then◌else◌,
}
use tsl_sdr.Prelude.Int.{ℤ, pos}
use tsl_sdr.Tsl.Result.{Result, a_ok, a_e_busy, a_e_badargs}
use tsl_sdr.Filter.Fixed.{Complex, int16, q_15_shift}
use tsl_sdr.Filter.DirectFir.State.{SampleBuf, Bufs, Ptr, deref, sample_buf_decref, Fir}

-- TSL_BUG_ON
unfoldable pub bug_on : Bool → Option (Unit {0})
bug_on b = if b then none else some tt

abbrev pub is_null : Ptr → Bool
is_null none = true
is_null (some p) = false

abbrev pub same : Ptr → ℕ → Bool
same none p = false
same (some q) p = q == p

-- A filter that is set up; `incr` is the increment that the C library's `cexp` gives, in Q.15 and
-- cut to `int32_t`. The filter takes copies of the coefficients.
abbrev pub fresh_fir :
    (nr_coeffs : ℕ) (real imag : List ℤ) (decimation_factor : ℕ) (derotate : Bool) (incr : Complex)
    → Fir
fresh_fir nr_coeffs real imag decimation_factor derotate (incr_re, incr_im) = record {
  fir_real_coeff = some real;
  fir_imag_coeff = some imag;
  nr_coeffs = nr_coeffs;
  decimate_factor = decimation_factor;
  sample_offset = 0;
  nr_samples = 0;
  sb_active = none;
  sb_next = none;
  rot = record {
    rot_phase_incr = if derotate then (int16 incr_re, int16 incr_im) else (pos 0, pos 0);
    rot_phase = if derotate then (pos (2 ^ q_15_shift), pos 0) else (pos 0, pos 0);
    rot_counter = 0;
  };
}

-- `memory` is whether there is memory for the copies of the real and of the imaginary parts.
unfoldable pub direct_fir_init :
    (memory : Bool × Bool) (nr_coeffs : ℕ) (real imag : List ℤ) (decimation_factor : ℕ)
    (derotate : Bool) (incr : Complex) (old : Fir)
    → Option (Result × Fir)
unfolding bug_on
direct_fir_init memory nr_coeffs real imag decimation_factor derotate incr old =
    if (nr_coeffs == 0) || (decimation_factor == 0) then some (a_e_badargs, old) else (do
      bug_on (not memory.0)
      bug_on (not memory.1)
      some (a_ok, fresh_fir nr_coeffs real imag decimation_factor derotate incr))

abbrev pub decref_any : Bufs → Ptr → Option Bufs
decref_any bufs none = some bufs
decref_any bufs (some p) = sample_buf_decref bufs p

unfoldable pub direct_fir_cleanup : Fir → Bufs → Option (Fir × Bufs)
direct_fir_cleanup fir bufs = do
  bufs ← decref_any bufs fir.sb_active
  bufs ← decref_any bufs fir.sb_next
  some (
    record fir {
      fir_real_coeff = none;
      fir_imag_coeff = none;
      sb_active = none;
      sb_next = none;
      decimate_factor = 0;
    },
    bufs,
  )

-- The buffer's samples are counted in.
abbrev pub counted : Fir → SampleBuf → Result × Fir
counted fir b = (a_ok, record fir { nr_samples = (fir.nr_samples + b.nr_samples) % 2 ^ 64 })

unfoldable pub direct_fir_push_sample_buf : Fir → Bufs → ℕ → Option (Result × Fir)
direct_fir_push_sample_buf fir bufs buf = do
  bug_on (same fir.sb_active buf)
  bug_on (same fir.sb_next buf)
  if is_null fir.sb_active
      then (do
        bug_on (not (is_null fir.sb_next))
        b ← deref bufs (some buf)
        some (counted (record fir { sb_active = some buf }) b))
      else if is_null fir.sb_next
      then (do b ← deref bufs (some buf); some (counted (record fir { sb_next = some buf }) b))
      else some (a_e_busy, fir)

-- Whether there are enough samples and, if the caller wants it, an estimate of how many come out,
-- for which the code divides by the number of coefficients.
unfoldable pub direct_fir_can_process : (estimate : Bool) → Fir → Option (Result × Bool × Option ℕ)
direct_fir_can_process estimate fir =
    if not estimate
    then some (a_ok, leb fir.nr_coeffs fir.nr_samples, none)
    else if fir.nr_coeffs == 0
    then none
    else some (a_ok, leb fir.nr_coeffs fir.nr_samples, some (fir.nr_samples / fir.nr_coeffs))

unfoldable pub direct_fir_full : Fir → Result × Bool
direct_fir_full fir = (a_ok, not (is_null fir.sb_next))
