-- ===== src/Filter/Polyphase/Stream.antt =====
-- The state of a filter of filter/polyphase_fir.c between samples.
use native.Mathlib.Nat.{mul-le-mul_right, div-lt_iff_lt-mul}
use tsl_sdr.Prelude.{
  ℕ, suc, ◌+◌, ◌-◌, ◌*◌, ◌^◌, ◌≤◌, ◌<◌, ◌≡◌, ◌≢◌, refl, ap, ◌∙◌, ◌⊎◌, inl, inr, true, Option, none,
  some, List, [], ◌++◌, length, drop, length-drop, length-append, arith,
}
use tsl_sdr.Prelude.Int.{ℤ}
use tsl_sdr.Filter.DirectFir.State.{SampleBuf, Bufs, deref}
use mathlib.Core.List.{append-nil}
use tsl_sdr.Filter.Polyphase.Ops.{Polyphase, passed_over}
use tsl_sdr.Filter.Polyphase.Layout.{IsFilled, within}
use tsl_sdr.Filter.Polyphase.Dot.{samples, IsFull, length-samples, HasRow}

-- A buffer of this many samples, with a reference for the filter to give up.
pub record IsHeld (bufs : Bufs) (size p : ℕ) (b : SampleBuf) : Type 0 where
  pub at : deref bufs (some p) ≡ some b
  pub full : IsFull b
  pub sized : b.nr_samples ≡ size
  pub releases : b.has_release ≡ true

abbrev pub samples_of : Option SampleBuf → List ℤ
samples_of none = []
samples_of (some b) = samples b

-- The samples from the next one on.
unfoldable pub stream : Polyphase → Bufs → List ℤ
stream fir bufs =
    drop fir.sample_offset (samples_of (deref bufs fir.sb_active))
    ++ samples_of (deref bufs fir.sb_next)

-- The filter has the rows of `h`; it holds one or two buffers of `size` samples, no fewer than a
-- row has coefficients; a step passes over no more samples than that; and the filter counts the
-- samples that are left.
pub record IsFit (fir : Polyphase) (bufs : Bufs) (size : ℕ) (h : List ℤ) : Type 0 where
  pub filled : IsFilled h fir.phase_filters fir.interpolation fir.nr_filter_coeffs (length h)
  pub phases : fir.nr_phase_filters ≡ fir.interpolation
  pub phase : fir.last_phase < fir.interpolation
  pub narrow : fir.decimation + fir.interpolation ≤ fir.nr_filter_coeffs * fir.interpolation
  pub fits : fir.nr_filter_coeffs ≤ size
  pub small : size < 2 ^ 31
  pub p : ℕ
  pub a : SampleBuf
  pub active : fir.sb_active ≡ some p
  pub holds : IsHeld bufs size p a
  pub inside : fir.sample_offset ≤ size
  pub next :
      (fir.sb_next ≡ none)
      ⊎ ((q : ℕ) × (b : SampleBuf) × (fir.sb_next ≡ some q) × (q ≢ p) × IsHeld bufs size q b)
  pub counts : fir.nr_samples ≡ length (stream fir bufs)

module _ {fir : Polyphase} {bufs : Bufs} {size : ℕ} {h : List ℤ} (fit : IsFit fir bufs size h) where
  -- What is left of the active buffer.
  abbrev pub rest : List ℤ
  rest = drop fir.sample_offset (samples fit.a)

  pub length-rest : length rest ≡ size - fir.sample_offset
  length-rest =
      length-drop fir.sample_offset (samples fit.a)
      ∙ ap (λ l. l - fir.sample_offset) (length-samples fit.a fit.holds.full ∙ fit.holds.sized)

  pub stream-one : fir.sb_next ≡ none → stream fir bufs ≡ rest
  unfolding stream deref
  stream-one alone = rw (fit.active, fit.holds.at, alone) (append-nil rest)

  pub stream-two :
      (q : ℕ) (b : SampleBuf)
      → fir.sb_next ≡ some q
      → deref bufs (some q) ≡ some b
      → stream fir bufs ≡ rest ++ samples b
  unfolding stream deref
  stream-two q b second at = rw (fit.active, fit.holds.at, second, at) refl

  pub length-stream : length (stream fir bufs) < 2 ^ 32
  length-stream = elim fit.next [
    | inl alone ↦ rw (stream-one alone) (omega (arith, length-rest, fit.small))
    | inr (q, b, second, other, held) ↦ rw (stream-two q b second held.at) (
        omega (
          arith,
          length-append rest (samples b),
          length-rest,
          fit.small,
          length-samples b held.full,
          held.sized,
        ))
  ]

  -- A step passes over no more samples than a row has coefficients.
  pub passed-narrow : passed_over fir ≤ fir.nr_filter_coeffs
  passed-narrow =
      let positive : 0 < fir.interpolation = omega (arith, fit.phase) in
      let above : fir.last_phase + fir.decimation < suc fir.nr_filter_coeffs * fir.interpolation =
        omega (arith, fit.phase, fit.narrow) in
      let below : passed_over fir < suc fir.nr_filter_coeffs =
        (div-lt_iff_lt-mul positive).1 above in
      omega arith

  -- The row of the phase.
  pub row :
      HasRow fir.phase_filters h
        (fir.nr_filter_coeffs * fir.last_phase)
        fir.nr_filter_coeffs
        fir.interpolation
        fir.last_phase
  row = record {
    inside =
        let rows : suc fir.last_phase * fir.nr_filter_coeffs
            ≤ fir.interpolation * fir.nr_filter_coeffs =
          mul-le-mul_right fir.nr_filter_coeffs fit.phase in
        omega (arith, fit.filled.size, rows);
    stands = λ j below.
        let swap : fir.nr_filter_coeffs * fir.last_phase + j
            ≡ fir.last_phase * fir.nr_filter_coeffs + j =
          omega arith in
        rw swap (fit.filled.stands fir.last_phase j fit.phase below)
        ∙ within h (fir.last_phase + j * fir.interpolation);
    small = omega (arith, fit.fits, fit.small);
  }
