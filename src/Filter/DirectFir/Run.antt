-- ===== src/Filter/DirectFir/Run.antt =====
-- `direct_fir_process` of filter/direct_fir.c as a whole.
use tsl_sdr.Prelude.{
  ℕ, zero, suc, ◌≡◌, refl, ap, ◌∙◌, inl, inr, true, false, Option, none, some, Option-cases, ◌>>=◌,
  List, ◌∷◌, length, drop, ltb, ◌==◌, arith,
}
use tsl_sdr.Prelude.Int.{ℤ}
use tsl_sdr.Filter.Fixed.{Complex}
use tsl_sdr.Filter.DirectFir.State.{Bufs, Rotation, Fir}
use tsl_sdr.Filter.DirectFir.Ops.{uncounted, rotate_sample, process_loop, direct_fir_process}
use tsl_sdr.Filter.DirectFir.Setup.{bug_on}
use tsl_sdr.Tsl.Result.{Result, a_ok}
use tsl_sdr.Filter.DirectFir.Convolve.{zip, stream, dot}
use tsl_sdr.Filter.DirectFir.Sum.{length-coeffs}
use tsl_sdr.Filter.DirectFir.Stream.{IsFit, Moves}
use tsl_sdr.Filter.DirectFir.Move.{moves}
use tsl_sdr.Filter.DirectFir.Decimate.{
  silence, decimated, le-cases, process_sample-exhausted, process_sample-produced, given, StaysFit,
}

-- A run with a sample before it.
abbrev before : Complex → Option (Fir × Bufs × List Complex) → Option (Fir × Bufs × List Complex)
before out run = run >>= λ rest. some (rest.0, rest.1, out ∷ rest.2)

given-before :
    (out : Complex) (run : Option (Fir × Bufs × List Complex))
    → given (before out run) ≡ (given run >>= λ more. some (out ∷ more.0, more.1))
given-before out none = refl
given-before out (some r) = refl

StaysFit-before :
    (size : ℕ) (real imag : List ℤ) (out : Complex) (run : Option (Fir × Bufs × List Complex))
    → StaysFit run size real imag
    → StaysFit (before out run) size real imag
StaysFit-before size real imag out none fit = tt
StaysFit-before size real imag out (some r) fit = fit

module _ (size : ℕ) (real imag : List ℤ) (fuel : ℕ) where
  -- The loop gives out what the stream gives, and leaves a filter that is fit.
  abbrev Runs : (left : ℕ) → Fir → Bufs → Type 0
  Runs left fir bufs =
      (given (process_loop (suc (suc fuel)) left fir bufs)
        ≡ decimated left (zip real imag) fir.decimate_factor fir.rot (stream fir bufs))
      × StaysFit (process_loop (suc (suc fuel)) left fir bufs) size real imag

  -- After a sample, the rest of the run.
  Runs-before :
      (left : ℕ) {fir fir' : Fir} {bufs bufs' : Bufs} (turned : Rotation × Complex)
      → Moves fir fir' bufs bufs' size real imag
      → Runs left (record (uncounted fir') { rot = turned.0 }) bufs'
      → (given (
            before turned.1 (
              process_loop
                (suc (suc fuel))
                left
                (record (uncounted fir') { rot = turned.0 })
                bufs'))
          ≡ (decimated left
                (zip real imag)
                fir.decimate_factor
                turned.0
                (drop fir.decimate_factor (stream fir bufs))
              >>= λ more. some (turned.1 ∷ more.0, more.1)))
        × StaysFit
            (before turned.1 (
              process_loop
                (suc (suc fuel))
                left
                (record (uncounted fir') { rot = turned.0 })
                bufs'))
            size
            real
            imag
  unfolding stream
  Runs-before left {fir} {fir'} {bufs} {bufs'} turned moved (runs, stays) =
      let rest =
        process_loop (suc (suc fuel)) left (record (uncounted fir') { rot = turned.0 }) bufs' in
      let same =
        decimated left (zip real imag) fir'.decimate_factor turned.0 (stream fir' bufs')
        ≡ decimated left (zip real imag) fir.decimate_factor turned.0
            (drop fir.decimate_factor (stream fir bufs)) in
      let moved_on : same = rw (moved.passes, moved.factor) refl in
      (
        given-before turned.1 rest
            ∙ ap (λ r. r >>= λ more. some (turned.1 ∷ more.0, more.1)) (runs ∙ moved_on),
        StaysFit-before size real imag turned.1 rest stays,
      )

  process_loop-Runs :
      (left : ℕ) (fir : Fir) (bufs : Bufs) → IsFit fir bufs size real imag → Runs left fir bufs
  unfolding process_loop decimated
  process_loop-Runs zero fir bufs fit = (refl, fit)
  process_loop-Runs (suc left) fir bufs fit =
      elim (le-cases fir.nr_coeffs (length (stream fir bufs))) [
        | inr short ↦
            let ends : ltb (length (stream fir bufs)) (length (zip real imag)) ≡ true =
              let all = length-coeffs fit.has in ground arith in
            rw (process_sample-exhausted fit (suc (suc fuel)) short, ends) (refl, fit)
        | inl enough ↦
            let more : ltb (length (stream fir bufs)) (length (zip real imag)) ≡ false =
              let all = length-coeffs fit.has in ground arith in
            let (fir', bufs', moved) = moves fit enough in
            rw (process_sample-produced fit fuel moved enough, more)
              (elim (Option-cases (dot (zip real imag) (stream fir bufs) silence)) [
                | inl e ↦ rw e (refl, tt)
                | inr (sum, e) ↦ rw e (elim (Option-cases (rotate_sample fir.rot sum)) [
                  | inl f ↦ rw f (refl, tt)
                  | inr (turned, f) ↦ rw f (
                      Runs-before left turned moved
                        (process_loop-Runs left _ bufs' (moved.stays turned.0)))
                ])
              ])
      ]

-- A run of `direct_fir_process` is A_OK with the filter, the memory and the samples.
abbrev pub succeeds :
    Option (Fir × Bufs × List Complex) → Option (Result × Fir × Bufs × List Complex)
succeeds run = run >>= λ r. some (a_ok, r.0, r.1, r.2)

-- With two rounds of fuel and more: on a filter that holds one or two buffers of one size, no
-- shorter than the coefficients are many, which are no fewer than the decimation, a call for at
-- least one sample is a run whose samples are the sums of the coefficients against the stream, each
-- window one decimation on, turned and rounded, for as long as there is a sample for every
-- coefficient; the stream has lost what they passed over, and the filter is as before. It stops
-- where a 32-bit sum overflows.
pub direct_fir_process-decimated :
    {size : ℕ} {real imag : List ℤ} (fuel left : ℕ) (fir : Fir) (bufs : Bufs)
    → IsFit fir bufs size real imag
    → (run : Option (Fir × Bufs × List Complex)) × (direct_fir_process
          (suc (suc fuel))
          fir
          bufs
          (suc left)
        ≡ succeeds run)
      × (given run
          ≡ decimated (suc left) (zip real imag) fir.decimate_factor fir.rot (stream fir bufs))
      × StaysFit run size real imag
unfolding direct_fir_process bug_on
direct_fir_process-decimated {size} {real} {imag} fuel left fir bufs fit =
    let (runs, stays) = process_loop-Runs size real imag fuel (suc left) fir bufs fit in
    let some_coeffs : (fir.nr_coeffs == 0) ≡ false =
      let positive = fit.has.some_coeffs in ground arith in
    let some_room : (suc left == 0) ≡ false = ground arith in
    (
      process_loop (suc (suc fuel)) (suc left) fir bufs,
      rw (some_room, fit.has.real_is, fit.has.imag_is, some_coeffs, fit.active) refl,
      runs,
      stays,
    )
