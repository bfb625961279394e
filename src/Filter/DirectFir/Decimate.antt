-- ===== src/Filter/DirectFir/Decimate.antt =====
-- What filter/direct_fir.c produces from a stream: the sum over a window of it for every sample,
-- each window one decimation further on.
use tsl_sdr.Prelude.{
  ℕ, zero, suc, ◌+◌, ◌-◌, ◌≤◌, ◌<◌, ◌≡◌, refl, sym, ap, ◌∙◌, ◌⊎◌, inl, inr, true, false, Option,
  none, some, Option-cases, ◌>>=◌, List, [], ◌∷◌, ◌++◌, length, drop, length-append, ltb, arith,
  if◌then◌else◌,
}
use tsl_sdr.Prelude.Int.{ℤ, pos}
use tsl_sdr.Filter.Fixed.{Complex}
use tsl_sdr.Filter.DirectFir.State.{Bufs, deref, Rotation, Fir}
use tsl_sdr.Filter.DirectFir.Ops.{
  is_done, filter_bufs, finish_sample, uncounted, rotate_sample, Sample, exhausted, produced,
  process_sample,
}
use tsl_sdr.Filter.DirectFir.Convolve.{zip, samples, stream, dot, dot-enough, length-samples}
use tsl_sdr.Filter.DirectFir.Sum.{length-coeffs, filter_bufs-last, filter_bufs-dot}
use mathlib.Core.List.{append-nil}
use tsl_sdr.Filter.DirectFir.Stream.{IsFit, rest, length-rest, stream-one, stream-two, Moves}

abbrev pub silence : Complex
silence = (pos 0, pos 0)

-- The samples that a stream gives, and what is left of it: at most `left`, as long as there is a
-- sample for every coefficient.
unfoldable pub decimated :
    (left : ℕ) (coeffs : List Complex) (decimation : ℕ)
    → Rotation
    → (stream : List Complex) → Option (List Complex × List Complex)
decimated zero coeffs decimation rot ss = some ([], ss)
decimated (suc left) coeffs decimation rot ss =
    if ltb (length ss) (length coeffs) then some ([], ss) else (do
      sum ← dot coeffs ss silence
      turned ← rotate_sample rot sum
      more ← decimated left coeffs decimation turned.0 (drop decimation ss)
      some (turned.1 ∷ more.0, more.1))

pub le-cases : (m n : ℕ) → (m ≤ n) ⊎ (n < m)
le-cases m n = omega arith

-- The sample that a sum gives, with the filter and the memory after it.
abbrev pub turned_to : Fir → Bufs → Rotation × Complex → Option Sample
turned_to fir bufs turned = some (produced (record fir { rot = turned.0 }) bufs turned.1)

module _ {fir : Fir} {bufs : Bufs} {size : ℕ} {real imag : List ℤ}
    (fit : IsFit fir bufs size real imag) where
  active-at : deref bufs fir.sb_active ≡ some fit.a
  active-at = rw fit.active fit.holds.at

  -- What is left of the active buffer comes first.
  stream-rest : (tail : List Complex) × (stream fir bufs ≡ rest fit ++ tail)
  stream-rest = elim fit.next [
    | inl alone ↦ ([], stream-one fit alone ∙ sym (append-nil (rest fit)))
    | inr (q, b, second, other, held) ↦ (samples b, stream-two fit q b second held.at)
  ]

  -- The active buffer has samples for all coefficients.
  sum-inside :
      (fuel : ℕ)
      → fir.sample_offset + fir.nr_coeffs ≤ fit.a.nr_samples
      → filter_bufs (suc (suc fuel)) fir bufs fir.sb_active fir.sample_offset fir.nr_coeffs silence
        ≡ (dot (zip real imag) (stream fir bufs) silence >>= λ sum. some (some sum))
  sum-inside fuel inside =
      let (tail, split) = stream-rest in
      let sum =
        filter_bufs-last fit.has (suc fuel) bufs fir.sb_active fit.a fir.sample_offset fir.nr_coeffs
          silence active-at fit.holds.full (omega arith) inside in
      let all : fir.nr_coeffs - fir.nr_coeffs ≡ 0 = omega arith in
      let few =
        dot-enough (zip real imag) (rest fit) tail silence
          (omega (arith, length-coeffs fit.has, length-rest fit, fit.holds.sized)) in
      rw (split, few) (sum ∙ rw all refl)

  -- The loops compute the sum over the stream.
  filter_bufs-stream :
      (fuel : ℕ)
      → fir.nr_coeffs ≤ length (stream fir bufs)
      → filter_bufs (suc (suc fuel)) fir bufs fir.sb_active fir.sample_offset fir.nr_coeffs silence
        ≡ (dot (zip real imag) (stream fir bufs) silence >>= λ sum. some (some sum))
  filter_bufs-stream fuel enough =
      elim (le-cases (fir.sample_offset + fir.nr_coeffs) fit.a.nr_samples) [
        | inl inside ↦ sum-inside fuel inside
        | inr beyond ↦ elim fit.next [
          | inl alone ↦ absurd (
              omega
                (arith, enough, ap length (stream-one fit alone), length-rest fit, fit.holds.sized))
          | inr (q, b, second, other, held) ↦ rw (stream-two fit q b second held.at) (
              filter_bufs-dot fit.has fuel bufs fit.a b silence active-at (rw second held.at)
                fit.holds.full held.full (omega (arith, fit.inside, fit.holds.sized)) beyond
                (omega (arith, fit.inside, fit.holds.sized, held.sized, fit.fits)))
        ]
      ]

  -- With samples for a pass, the code goes on.
  is_done-enough : fir.nr_coeffs ≤ length (stream fir bufs) → is_done fir fit.a ≡ false
  unfolding is_done
  is_done-enough enough = elim fit.next [
    | inl alone ↦
        let inside : ltb fit.a.nr_samples (fir.sample_offset + fir.nr_coeffs) ≡ false =
          let short = ap length (stream-one fit alone) in
          let left = length-rest fit in
          let sized = fit.holds.sized in
          let within = fit.inside in let some_coeffs = fit.has.some_coeffs in ground arith in
        rw inside refl
    | inr (q, b, second, other, held) ↦ rw second (ground arith)
  ]

  -- With fewer, it is the end: there is no next buffer.
  is_done-short : length (stream fir bufs) < fir.nr_coeffs → is_done fir fit.a ≡ true
  unfolding is_done
  is_done-short short = elim fit.next [
    | inl alone ↦
        let beyond : ltb fit.a.nr_samples (fir.sample_offset + fir.nr_coeffs) ≡ true =
          let one = ap length (stream-one fit alone) in
          let left = length-rest fit in
          let sized = fit.holds.sized in let within = fit.inside in ground arith in
        rw (beyond, alone) refl
    | inr (q, b, second, other, held) ↦ absurd (
        omega (
          arith,
          short,
          ap length (stream-two fit q b second held.at),
          length-append (rest fit) (samples b),
          length-samples b held.full,
          held.sized,
          fit.fits,
        ))
  ]

  pub process_sample-exhausted :
      (fuel : ℕ)
      → length (stream fir bufs) < fir.nr_coeffs
      → process_sample fuel fir bufs ≡ some exhausted
  unfolding process_sample
  process_sample-exhausted fuel short = rw (active-at, is_done-short short) refl

  pub process_sample-produced :
      {fir' : Fir} {bufs' : Bufs} (fuel : ℕ)
      → Moves fir fir' bufs bufs' size real imag
      → fir.nr_coeffs ≤ length (stream fir bufs)
      → process_sample (suc (suc fuel)) fir bufs ≡ (
          dot (zip real imag) (stream fir bufs) silence >>= λ sum.
          rotate_sample fir.rot sum >>= turned_to (uncounted fir') bufs')
  unfolding process_sample finish_sample
  process_sample-produced {fir'} fuel moved enough =
      rw (active-at, is_done-enough enough, filter_bufs-stream fuel enough)
        (elim (Option-cases (dot (zip real imag) (stream fir bufs) silence)) [
          | inl e ↦ rw e refl
          | inr (sum, e) ↦ rw (e, moved.runs, moved.phase) refl
        ])

-- What a run gives out: its samples, and the stream that is left.
abbrev pub given : Option (Fir × Bufs × List Complex) → Option (List Complex × List Complex)
given run = run >>= λ r. some (r.2, stream r.0 r.1)

-- The state after a run is fit.
abbrev pub StaysFit : Option (Fir × Bufs × List Complex) → (size : ℕ) (real imag : List ℤ) → Type 0
StaysFit none size real imag = Unit
StaysFit (some r) size real imag = IsFit r.0 r.1 size real imag
