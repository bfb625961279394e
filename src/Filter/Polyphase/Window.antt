-- ===== src/Filter/Polyphase/Window.antt =====
-- The sum that a filter of filter/polyphase_fir.c takes for a sample, over its stream.
use tsl_sdr.Prelude.{
  ℕ, suc, ◌+◌, ◌*◌, ◌≤◌, ◌≡◌, refl, sym, ap, ◌∙◌, inl, inr, false, Option, some, Option-cases,
  ◌>>=◌, List, [], ◌++◌, length, ltb, ◌&&◌, arith,
}
use tsl_sdr.Prelude.Int.{ℤ, pos}
use tsl_sdr.Filter.Fixed.{round_q30_q15}
use tsl_sdr.Filter.DirectFir.State.{Bufs, deref}
use tsl_sdr.Filter.DirectFir.Setup.{is_null}
use mathlib.Core.List.{append-nil}
use tsl_sdr.Filter.Polyphase.Ops.{
  Polyphase, dot_bufs, product, rounded_product, dot_product_sample_buffers_real,
}
use tsl_sdr.Filter.Polyphase.Dot.{samples, phase_dot, phase_dot-enough, dot_bufs-one, dot_bufs-two}
use tsl_sdr.Filter.Polyphase.Stream.{stream, IsFit, rest, length-rest, stream-one, stream-two, row}
use tsl_sdr.Filter.Polyphase.Advance.{le-cases}

module _ {fir : Polyphase} {bufs : Bufs} {size : ℕ} {h : List ℤ} (fit : IsFit fir bufs size h) where
  abbrev pub taps : ℕ
  taps = fir.nr_filter_coeffs

  -- The sum that the filter takes next.
  abbrev pub next_sum : Option ℤ
  next_sum = phase_dot h fir.interpolation fir.last_phase 0 taps (stream fir bufs) (pos 0)

  stream-rest : (tail : List ℤ) × (stream fir bufs ≡ rest fit ++ tail)
  stream-rest = elim fit.next [
    | inl alone ↦ ([], stream-one fit alone ∙ sym (append-nil (rest fit)))
    | inr (q, b, second, other, held) ↦ (samples b, stream-two fit q b second held.at)
  ]

  -- The loops compute the sum.
  dot_bufs-stream :
      (fuel : ℕ)
      → taps ≤ length (stream fir bufs)
      → dot_bufs
          (suc (suc fuel))
          fir.phase_filters
          (taps * fir.last_phase)
          taps
          bufs
          fir.sb_active
          fir.sb_next
          fir.sample_offset
          taps
          (pos 0)
        ≡ (next_sum >>= λ sum. some (some sum))
  dot_bufs-stream fuel enough = elim (le-cases (fir.sample_offset + taps) fit.a.nr_samples) [
    | inl inside ↦
        let (tail, split) = stream-rest in
        let few =
          phase_dot-enough h fir.interpolation fir.last_phase 0 taps (rest fit) tail (pos 0)
            (omega (arith, length-rest fit, fit.holds.sized)) in
        rw (split, few)
          (dot_bufs-one (row fit) (suc fuel) bufs fir.sb_active fir.sb_next fit.a fir.sample_offset
            (pos 0) (rw fit.active fit.holds.at) fit.holds.full inside)
    | inr beyond ↦ elim fit.next [
      | inl alone ↦ absurd (
          omega (arith, enough, ap length (stream-one fit alone), length-rest fit, fit.holds.sized))
      | inr (q, b, second, other, held) ↦ rw (stream-two fit q b second held.at) (
          dot_bufs-two (row fit) fuel bufs fir.sb_active fir.sb_next fit.a b fir.sample_offset
            (pos 0) (rw fit.active fit.holds.at) (rw second held.at) fit.holds.full held.full
            (omega (arith, fit.inside, fit.holds.sized)) beyond
            (omega (arith, fit.inside, fit.holds.sized, held.sized, fit.fits)))
    ]
  ]

  pub dot_product-stream :
      (fuel : ℕ)
      → taps ≤ length (stream fir bufs)
      → dot_product_sample_buffers_real
          (suc (suc fuel))
          bufs
          fir.sb_active
          fir.sb_next
          fir.sample_offset
          fir.phase_filters
          (taps * fir.last_phase)
          taps
        ≡ (next_sum >>= λ sum. some (product (round_q30_q15 sum)))
  unfolding dot_product_sample_buffers_real rounded_product
  dot_product-stream fuel enough =
      let goes_on : (ltb fit.a.nr_samples (fir.sample_offset + taps) && is_null fir.sb_next)
          ≡ false =
        elim fit.next [
          | inl alone ↦
              let inside : ltb fit.a.nr_samples (fir.sample_offset + taps) ≡ false =
                let one = ap length (stream-one fit alone) in
                let left = length-rest fit in
                let sized = fit.holds.sized in let within = fit.inside in ground arith in
              rw inside refl
          | inr (q, b, second, other, held) ↦ rw second (ground arith)
        ] in
      let active_at : deref bufs fir.sb_active ≡ some fit.a = rw fit.active fit.holds.at in
      rw (active_at, goes_on, dot_bufs-stream fuel enough)
        (elim (Option-cases next_sum) [ inl e ↦ rw e refl | inr (sum, e) ↦ rw e refl ])
