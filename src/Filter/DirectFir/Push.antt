-- ===== src/Filter/DirectFir/Push.antt =====
-- Setting up a filter of filter/direct_fir.c, handing it buffers, and asking it whether a sample
-- can come.
use tsl_sdr.Prelude.{
  ℕ, suc, ◌+◌, ◌%◌, ◌^◌, ◌≤◌, ◌<◌, ◌≡◌, ◌≢◌, refl, sym, ap, ◌∙◌, ◌⊎◌, inl, inr, ◌↔◌, Bool, true,
  false, Option, none, some, Option-cases, ◌>>=◌, List, ◌++◌, length, length-append, leb, ◌==◌,
  arith,
}
use tsl_sdr.Prelude.Int.{ℤ}
use tsl_sdr.Tsl.Result.{a_ok, a_e_busy}
use tsl_sdr.Filter.Fixed.{Complex}
use tsl_sdr.Filter.DirectFir.State.{SampleBuf, Bufs, Ptr, deref, Rotation, Fir}
use tsl_sdr.Filter.DirectFir.Ops.{rotate_sample, exhausted, process_sample, uncounted}
use tsl_sdr.Filter.DirectFir.Setup.{
  bug_on, same, direct_fir_init, direct_fir_push_sample_buf, direct_fir_can_process, fresh_fir,
}
use tsl_sdr.Filter.DirectFir.Convolve.{zip, samples, stream, dot, length-samples}
use tsl_sdr.Filter.DirectFir.Buffers.{IsHeld}
use mathlib.Core.List.{append-nil}
use tsl_sdr.Filter.DirectFir.Stream.{IsFit, stream-one, length-stream}
use tsl_sdr.Filter.DirectFir.Move.{moves}
use tsl_sdr.Filter.DirectFir.Decimate.{
  silence, le-cases, process_sample-exhausted, process_sample-produced, turned_to,
}

same-other : (x : Ptr) (q p : ℕ) → x ≡ some p → q ≢ p → same x q ≡ false
same-other x q p e other = rw e (let no : (p == q) ≡ false = ground arith in no)

not_exhausted :
    (sum : Option Complex) (rot : Rotation) (fir : Fir) (bufs : Bufs)
    → (sum >>= λ s. rotate_sample rot s >>= turned_to fir bufs) ≢ some exhausted
not_exhausted none rot fir bufs e = absurd cc
not_exhausted (some s) rot fir bufs e = elim (Option-cases (rotate_sample rot s)) [
  | inl f ↦ absurd (let no = rw f at e in cc)
  | inr (turned, f) ↦ absurd (let no = rw f at e in cc)
]

module _ {fir : Fir} {bufs : Bufs} {size : ℕ} {real imag : List ℤ}
    (fit : IsFit fir bufs size real imag) where
  -- The filter with a second buffer.
  abbrev second_held : ℕ → SampleBuf → Fir
  second_held q b = record fir {
    sb_next = some q;
    nr_samples = (fir.nr_samples + b.nr_samples) % 2 ^ 64;
  }

  stream-second :
      (q : ℕ) (b : SampleBuf)
      → fir.sb_next ≡ none
      → IsHeld bufs size q b
      → stream (second_held q b) bufs ≡ stream fir bufs ++ samples b
  unfolding stream
  stream-second q b alone held = rw (stream-one fit alone, fit.active, fit.holds.at, held.at) refl

  IsFit-second :
      (q : ℕ) (b : SampleBuf)
      → fir.sb_next ≡ none
      → q ≢ fit.p
      → IsHeld bufs size q b
      → IsFit (second_held q b) bufs size real imag
  IsFit-second q b alone other held = record {
    has = record {
      real_is = fit.has.real_is;
      imag_is = fit.has.imag_is;
      real_length = fit.has.real_length;
      imag_length = fit.has.imag_length;
      some_coeffs = fit.has.some_coeffs;
      small = fit.has.small;
    };
    narrow = fit.narrow;
    fits = fit.fits;
    small = fit.small;
    p = fit.p;
    a = fit.a;
    active = fit.active;
    holds = fit.holds;
    inside = fit.inside;
    next = inr (q, b, refl, other, held);
    counts =
        let total : (fir.nr_samples + b.nr_samples) % 2 ^ 64 ≡ fir.nr_samples + b.nr_samples =
          omega (arith, fit.counts, length-stream fit, held.sized, fit.small) in
        let both = length-append (stream fir bufs) (samples b) in
        let added = ap length (stream-second q b alone held) in
        omega (arith, total, fit.counts, both, added, length-samples b held.full);
  }

  -- Handing a filter that is fit another buffer: with none waiting, A_OK, the filter stays fit and
  -- the stream goes on with the buffer's samples; else A_E_BUSY and nothing changes.
  pub push-stream :
      (q : ℕ) (b : SampleBuf)
      → q ≢ fit.p
      → fir.sb_next ≢ some q
      → IsHeld bufs size q b
      → (fir' : Fir) × (((direct_fir_push_sample_buf fir bufs q ≡ some (a_ok, fir'))
            × (stream fir' bufs ≡ stream fir bufs ++ samples b))
          ⊎ ((direct_fir_push_sample_buf fir bufs q ≡ some (a_e_busy, fir'))
              × (fir.sb_next ≢ none)
              × (fir' ≡ fir)))
        × IsFit fir' bufs size real imag
  unfolding direct_fir_push_sample_buf bug_on
  push-stream q b other waits held =
      let first = same-other fir.sb_active q fit.p fit.active other in
      elim fit.next [
        | inl alone ↦ (
          second_held q b,
          inl (rw (first, alone) (rw (fit.active, held.at) refl), stream-second q b alone held),
          IsFit-second q b alone other held,
        )
        | inr (r, c, second, apart, has) ↦
            let differs : q ≢ r = λ e. waits (second ∙ ap some (sym e)) in
            (
              fir,
              inr (
                rw (first, same-other fir.sb_next q r second differs)
                    (rw (fit.active, second) refl),
                (λ e. let no : none ≡ some r = sym e ∙ second in cc),
                refl,
              ),
              fit,
            )
      ]

  -- `direct_fir_can_process` says no exactly when a call for a sample would give none.
  pub can_process-exhausted :
      (fuel : ℕ)
      → (direct_fir_can_process false fir ≡ some (a_ok, false, none))
        ↔ (process_sample (suc (suc fuel)) fir bufs ≡ some exhausted)
  unfolding direct_fir_can_process
  can_process-exhausted fuel = elim (le-cases fir.nr_coeffs (length (stream fir bufs))) [
    | inr short ↦
        let few : leb fir.nr_coeffs fir.nr_samples ≡ false =
          let counts = fit.counts in ground arith in
        rw few ((λ e. process_sample-exhausted fit (suc (suc fuel)) short), (λ e. refl))
    | inl enough ↦
        let many : leb fir.nr_coeffs fir.nr_samples ≡ true =
          let counts = fit.counts in ground arith in
        let (fir', bufs', moved) = moves fit enough in
        rw (many, process_sample-produced fit fuel moved enough)
          (
            (λ e. absurd (let no : true ≡ false = cc in cc)),
            (λ e. absurd (
                not_exhausted (dot (zip real imag) (stream fir bufs) silence) fir.rot
                  (uncounted fir') bufs' e)),
          )
  ]

-- With memory for the coefficients, at least one and no fewer than the decimation, which is at least
-- 1, and a held buffer of one size, from that many samples on and below 2^31: `direct_fir_init` gives
-- A_OK and `direct_fir_push_sample_buf` then A_OK, the filter is fit, and its stream is that buffer's
-- samples.
pub init-push :
    {bufs : Bufs} {size : ℕ} (real imag : List ℤ) (decimation : ℕ) (derotate : Bool)
    (incr : Complex) (old : Fir) (q : ℕ) (b : SampleBuf)
    → length imag ≡ length real
    → 0 < decimation
    → decimation ≤ length real
    → length real ≤ size
    → size < 2 ^ 31
    → IsHeld bufs size q b
    → (fresh : Fir) × (fir : Fir) × (direct_fir_init
          (true, true)
          (length real)
          real
          imag
          decimation
          derotate
          incr
          old
        ≡ some (a_ok, fresh))
      × (direct_fir_push_sample_buf fresh bufs q ≡ some (a_ok, fir))
      × IsFit fir bufs size real imag
      × (stream fir bufs ≡ samples b)
unfolding direct_fir_init direct_fir_push_sample_buf bug_on stream deref
init-push {bufs} {size} real imag decimation derotate incr old q b same_length positive narrow fits
      small held =
    let some_coeffs : (length real == 0) ≡ false = ground arith in
    let some_step : (decimation == 0) ≡ false = ground arith in
    let fresh = fresh_fir (length real) real imag decimation derotate incr in
    let total : (0 + b.nr_samples) % 2 ^ 64 ≡ b.nr_samples = omega (arith, held.full.small) in
    let all = append-nil (samples b) in
    (
      fresh,
      record fresh { sb_active = some q; nr_samples = (0 + b.nr_samples) % 2 ^ 64 },
      rw (some_coeffs, some_step) refl,
      rw held.at refl,
      record {
        has = record {
          real_is = refl;
          imag_is = refl;
          real_length = refl;
          imag_length = same_length;
          some_coeffs = omega arith;
          small = omega arith;
        };
        narrow = narrow;
        fits = fits;
        small = small;
        p = q;
        a = b;
        active = refl;
        holds = held;
        inside = omega arith;
        next = inl refl;
        counts = total ∙ rw held.at (sym (ap length all ∙ length-samples b held.full));
      },
      rw held.at all,
    )
