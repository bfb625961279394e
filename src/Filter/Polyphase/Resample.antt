-- ===== src/Filter/Polyphase/Resample.antt =====
-- `polyphase_fir_process` of filter/polyphase_fir.c as a whole.
use tsl_sdr.Prelude.{
  ℕ, zero, suc, ◌+◌, ◌/◌, ◌%◌, ◌≡◌, refl, ap, ◌∙◌, inl, inr, true, false, Option, none, some,
  Option-cases, ◌>>=◌, List, [], ◌∷◌, length, drop, leb, ◌==◌, if◌then◌else◌, arith,
}
use tsl_sdr.Prelude.Int.{ℤ, pos}
use tsl_sdr.Tsl.Result.{Result, a_ok}
use tsl_sdr.Filter.Fixed.{round_q30_q15}
use tsl_sdr.Filter.DirectFir.State.{Bufs}
use tsl_sdr.Filter.DirectFir.Setup.{bug_on}
use tsl_sdr.Filter.Polyphase.Ops.{Polyphase, process_loop, polyphase_fir_process}
use tsl_sdr.Filter.Polyphase.Window.{next_sum, dot_product-stream}
use tsl_sdr.Filter.Polyphase.Dot.{phase_dot}
use tsl_sdr.Filter.Polyphase.Stream.{stream, IsFit}
use tsl_sdr.Filter.Polyphase.Advance.{stepped, advances, le-cases}

-- What a stream at rate 1 gives at rate `up`/`down`, at most `left` samples, and what is left of
-- it: each sample is the sum of one phase of `h` against the stream, and `down` phases on, every
-- `up` of them a sample of the stream, comes the next; as long as there are more samples than
-- coefficients in a phase.
unfoldable pub resampled :
    (left : ℕ) (h : List ℤ) (up down taps phase : ℕ) (stream : List ℤ) → Option (List ℤ × List ℤ)
resampled zero h up down taps phase ss = some ([], ss)
resampled (suc left) h up down taps phase ss = if leb (length ss) taps then some ([], ss) else (do
  sum ← phase_dot h up phase 0 taps ss (pos 0)
  more ← resampled left h up down taps ((phase + down) % up) (drop ((phase + down) / up) ss)
  some (round_q30_q15 sum ∷ more.0, more.1))

-- What a run gives out: its samples, and the stream that is left.
abbrev pub given : Option (Polyphase × Bufs × List ℤ) → Option (List ℤ × List ℤ)
given run = run >>= λ r. some (r.2, stream r.0 r.1)

-- The state after a run is fit.
abbrev pub StaysFit : Option (Polyphase × Bufs × List ℤ) → (size : ℕ) (h : List ℤ) → Type 0
StaysFit none size h = Unit
StaysFit (some r) size h = IsFit r.0 r.1 size h

-- A run with a sample before it.
abbrev before : ℤ → Option (Polyphase × Bufs × List ℤ) → Option (Polyphase × Bufs × List ℤ)
before out run = run >>= λ rest. some (rest.0, rest.1, out ∷ rest.2)

given-before :
    (out : ℤ) (run : Option (Polyphase × Bufs × List ℤ))
    → given (before out run) ≡ (given run >>= λ more. some (out ∷ more.0, more.1))
given-before out none = refl
given-before out (some r) = refl

StaysFit-before :
    (size : ℕ) (h : List ℤ) (out : ℤ) (run : Option (Polyphase × Bufs × List ℤ))
    → StaysFit run size h
    → StaysFit (before out run) size h
StaysFit-before size h out none fit = tt
StaysFit-before size h out (some r) fit = fit

module _ (size : ℕ) (h : List ℤ) (fuel : ℕ) where
  -- The loop gives out what the stream gives, and leaves a filter that is fit.
  abbrev Runs : (left : ℕ) → Polyphase → Bufs → Type 0
  Runs left fir bufs =
      (given (process_loop (suc (suc fuel)) left fir bufs)
        ≡ resampled left h fir.interpolation fir.decimation fir.nr_filter_coeffs fir.last_phase
            (stream fir bufs))
      × StaysFit (process_loop (suc (suc fuel)) left fir bufs) size h

  process_loop-Runs :
      (left : ℕ) (fir : Polyphase) (bufs : Bufs) → IsFit fir bufs size h → Runs left fir bufs
  unfolding process_loop resampled bug_on
  process_loop-Runs zero fir bufs fit = (refl, fit)
  process_loop-Runs (suc left) fir bufs fit =
      elim (le-cases (length (stream fir bufs)) fir.nr_filter_coeffs) [
        | inl short ↦
            let stops : leb (length (stream fir bufs)) fir.nr_filter_coeffs ≡ true = ground arith in
            let no_more : leb fir.nr_samples fir.nr_filter_coeffs ≡ true =
              let counts = fit.counts in ground arith in
            rw (no_more, stops) (refl, fit)
        | inr enough ↦
            let more : leb (length (stream fir bufs)) fir.nr_filter_coeffs ≡ false = ground arith in
            let in_phases : leb fir.nr_phase_filters fir.last_phase ≡ false =
              let phases = fit.phases in let phase = fit.phase in ground arith in
            let step = advances fit enough in
            let (runs, stays) =
              process_loop-Runs left (stepped fir step.offset step.p step.second) step.bufs'
                step.stays in
            let goes_on : leb fir.nr_samples fir.nr_filter_coeffs ≡ false =
              let counts = fit.counts in ground arith in
            rw (goes_on, more, in_phases, dot_product-stream fit fuel (omega arith))
              (elim (Option-cases (next_sum fit)) [
                | inl e ↦ rw e (refl, tt)
                | inr (sum, e) ↦
                    rw (e, step.runs)
                      (
                        given-before (round_q30_q15 sum) _
                            ∙ ap (λ r. r >>= λ m. some (round_q30_q15 sum ∷ m.0, m.1))
                                (runs ∙ rw step.passes refl),
                        StaysFit-before size h (round_q30_q15 sum) _ stays,
                      )
              ])
      ]

-- A run of `polyphase_fir_process` is A_OK with the filter, the memory and the samples.
abbrev pub succeeds :
    Option (Polyphase × Bufs × List ℤ) → Option (Result × Polyphase × Bufs × List ℤ)
succeeds run = run >>= λ r. some (a_ok, r.0, r.1, r.2)

-- With two rounds of fuel and more: on a filter with the rows of `h` that holds one or two buffers
-- of one size, no shorter than a row, and passes over at most as many samples in a step, a call for
-- at least one sample is a run whose samples are those that the stream gives at the rate of the two
-- factors, rounded; no index check fires; the stream has lost what was passed over, and the filter
-- is as before. It stops where a 32-bit sum overflows.
pub polyphase_fir_process-resampled :
    {size : ℕ} {h : List ℤ} (fuel left : ℕ) (fir : Polyphase) (bufs : Bufs)
    → IsFit fir bufs size h
    → (run : Option (Polyphase × Bufs × List ℤ)) × (polyphase_fir_process
          (suc (suc fuel))
          fir
          bufs
          (suc left)
        ≡ succeeds run)
      × (given run
          ≡ resampled
              (suc left)
              h
              fir.interpolation
              fir.decimation
              fir.nr_filter_coeffs
              fir.last_phase
              (stream fir bufs))
      × StaysFit run size h
unfolding polyphase_fir_process
polyphase_fir_process-resampled {size} {h} fuel left fir bufs fit =
    let (runs, stays) = process_loop-Runs size h fuel (suc left) fir bufs fit in
    let some_room : (suc left == 0) ≡ false = ground arith in
    (
      process_loop (suc (suc fuel)) (suc left) fir bufs,
      rw (some_room, fit.active) refl,
      runs,
      stays,
    )
