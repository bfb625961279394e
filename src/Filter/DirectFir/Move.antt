-- ===== src/Filter/DirectFir/Move.antt =====
-- Moving along the stream in filter/direct_fir.c keeps the filter fit and passes over as many
-- samples as it decimates by.
use tsl_sdr.Prelude.{
  ℕ, ◌+◌, ◌-◌, ◌%◌, ◌^◌, ◌≤◌, ◌<◌, ◌≡◌, ◌≢◌, refl, sym, ap, ◌∙◌, ◌⊎◌, inl, inr, true, false, none,
  some, List, ◌++◌, length, drop, ltb, arith,
}
use tsl_sdr.Prelude.Int.{ℤ}
use tsl_sdr.Filter.DirectFir.State.{SampleBuf, Bufs, Ptr, deref, Rotation, Fir}
use tsl_sdr.Filter.DirectFir.Ops.{move_along}
use tsl_sdr.Filter.DirectFir.Convolve.{samples, stream}
use tsl_sdr.Filter.DirectFir.Buffers.{IsHeld, sample_buf_decref-others}
use mathlib.Core.List.{append-nil}
use tsl_sdr.Filter.DirectFir.Stream.{
  drop-append_le, drop-append_add, drop-drop, IsFit, rest, length-rest, stream-one, stream-two,
  count_left, keep_coeffs, Moves,
}

leb-cases : (m n : ℕ) → (m ≤ n) ⊎ (n < m)
leb-cases m n = omega arith

module _ {fir : Fir} {bufs : Bufs} {size : ℕ} {real imag : List ℤ}
    (fit : IsFit fir bufs size real imag) (enough : fir.nr_coeffs ≤ length (stream fir bufs)) where
  -- Where the next sample begins, from the start of the active buffer.
  abbrev ahead : ℕ
  ahead = fir.sample_offset + fir.decimate_factor

  ahead_fits : ahead % 2 ^ 32 ≡ ahead
  ahead_fits = omega (arith, fit.inside, fit.narrow, fit.fits, fit.small)

  -- The active buffer stays, for one buffer and for two.
  passes-stay :
      ahead ≤ size
      → stream (record fir { sample_offset = ahead; sb_active = some fit.p }) bufs
        ≡ drop fir.decimate_factor (stream fir bufs)
  unfolding stream deref
  passes-stay inside = elim fit.next [
    | inl alone ↦
        rw (stream-one fit alone, drop-drop fir.sample_offset fir.decimate_factor (samples fit.a))
          (rw (fit.holds.at, alone) (append-nil (drop ahead (samples fit.a))))
    | inr (q, b, second, other, held) ↦
        let short =
          drop-append_le fir.decimate_factor (rest fit) (samples b)
            (omega (arith, length-rest fit)) in
        rw
          (
            stream-two fit q b second held.at,
            short,
            drop-drop fir.sample_offset fir.decimate_factor (samples fit.a),
          )
          (rw (fit.holds.at, second, held.at) refl)
  ]

  -- The filter at an offset, between two buffers of this size, where the stream has moved on.
  IsFit-at :
      (offset : ℕ) (second : Ptr) (bufs' : Bufs) (p : ℕ) (a : SampleBuf) (r : Rotation)
      → IsHeld bufs' size p a
      → offset ≤ size
      → (second ≡ none)
        ⊎ ((q : ℕ) × (b : SampleBuf) × (second ≡ some q) × (q ≢ p) × IsHeld bufs' size q b)
      → stream (record fir { sample_offset = offset; sb_active = some p; sb_next = second }) bufs'
        ≡ drop fir.decimate_factor (stream fir bufs)
      → IsFit
          (record fir {
            sample_offset = offset;
            nr_samples = (fir.nr_samples + (2 ^ 64 - fir.decimate_factor)) % 2 ^ 64;
            sb_active = some p;
            sb_next = second;
            rot = r;
          })
          bufs'
          size
          real
          imag
  unfolding stream
  IsFit-at offset second bufs' p a r holds inside next passes = record {
    has = keep_coeffs fit offset _ (some p) second r;
    narrow = fit.narrow;
    fits = fit.fits;
    small = fit.small;
    p = p;
    a = a;
    active = refl;
    holds = holds;
    inside = inside;
    next = next;
    counts = count_left fit enough ∙ ap length (sym passes);
  }

  Moves-stay :
      ahead ≤ size
      → Moves fir
          (record fir { sample_offset = ahead; sb_active = some fit.p })
          bufs
          bufs
          size
          real
          imag
  unfolding move_along stream
  Moves-stay inside = record {
    runs =
        let here : ltb fit.a.nr_samples ahead ≡ false =
          let sized = fit.holds.sized in ground arith in
        rw (fit.active, fit.holds.at, ahead_fits, here) refl;
    phase = refl;
    factor = refl;
    stays = λ r.
        IsFit-at ahead fir.sb_next bufs fit.p fit.a r fit.holds inside fit.next
          (passes-stay inside);
    passes = passes-stay inside;
  }

  passes-cross :
      (q : ℕ) (b : SampleBuf) (bufs' : Bufs)
      → fir.sb_next ≡ some q
      → IsHeld bufs size q b
      → IsHeld bufs' size q b
      → size < ahead
      → stream
          (record fir { sample_offset = ahead - size; sb_active = some q; sb_next = none })
          bufs'
        ≡ drop fir.decimate_factor (stream fir bufs)
  unfolding stream deref
  passes-cross q b bufs' second held kept beyond =
      let over : fir.decimate_factor ≡ length (rest fit) + (ahead - size) =
        omega (arith, length-rest fit, fit.inside) in
      let moved = drop-append_add (ahead - size) (rest fit) (samples b) in
      rw (stream-two fit q b second held.at) (
        rw kept.at (append-nil (drop (ahead - size) (samples b)))
        ∙ sym moved
        ∙ ap (λ d. drop d (rest fit ++ samples b)) (sym over))

  -- The offset in the next buffer.
  cross_offset :
      size < ahead
      → (nr_samples : ℕ) → nr_samples ≡ size
      → (ahead + (2 ^ 32 - nr_samples)) % 2 ^ 32 ≡ ahead - size
  cross_offset beyond nr_samples sized = omega (arith, fit.inside, fit.narrow, fit.fits, fit.small)

  -- The next buffer takes the place of the active one.
  Moves-cross :
      size < ahead
      → (q : ℕ) (b : SampleBuf) → fir.sb_next ≡ some q
      → q ≢ fit.p
      → IsHeld bufs size q b
      → (bufs' : Bufs) × Moves fir
          (record fir { sample_offset = ahead - size; sb_active = some q; sb_next = none })
          bufs
          bufs'
          size
          real
          imag
  unfolding move_along stream
  Moves-cross beyond q b second other held =
      let (bufs', dropped, others) =
        sample_buf_decref-others bufs fit.p fit.a fit.holds.at fit.holds.releases in
      let kept : IsHeld bufs' size q b = record {
        at = others q other ∙ held.at;
        full = held.full;
        sized = held.sized;
        held = held.held;
        releases = held.releases;
      } in
      let passes = passes-cross q b bufs' second held kept beyond in
      (
        bufs',
        record {
          runs =
              let here : ltb fit.a.nr_samples ahead ≡ true =
                let sized = fit.holds.sized in ground arith in
              rw
                (
                  fit.active,
                  fit.holds.at,
                  ahead_fits,
                  here,
                  dropped,
                  second,
                  kept.at,
                  cross_offset beyond b.nr_samples held.sized,
                )
                refl;
          phase = refl;
          factor = refl;
          stays = λ r.
              IsFit-at (ahead - size) none bufs' q b r kept
                (omega (arith, fit.inside, fit.narrow, fit.fits)) (inl refl) passes;
          passes = passes;
        },
      )

  -- A fit filter with samples for a pass moves on.
  pub moves : (fir' : Fir) × (bufs' : Bufs) × Moves fir fir' bufs bufs' size real imag
  moves = elim (leb-cases ahead size) [
    | inl inside ↦ (_, bufs, Moves-stay inside)
    | inr beyond ↦ elim fit.next [
      | inl alone ↦
          let short : length (stream fir bufs) ≡ size - fir.sample_offset =
            ap length (stream-one fit alone) ∙ length-rest fit in
          absurd (omega (arith, short, enough, fit.narrow))
      | inr (q, b, second, other, held) ↦
          let (bufs', moved) = Moves-cross beyond q b second other held in (_, bufs', moved)
    ]
  ]
