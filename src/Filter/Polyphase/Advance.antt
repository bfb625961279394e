-- ===== src/Filter/Polyphase/Advance.antt =====
-- After a sample, filter/polyphase_fir.c moves to the next phase and along the stream.
use native.Mathlib.Nat.{mod-lt}
use tsl_sdr.Prelude.{
  ℕ, ◌+◌, ◌-◌, ◌%◌, ◌^◌, ◌≤◌, ◌<◌, ◌≡◌, ◌≢◌, refl, sym, ap, ◌∙◌, ◌⊎◌, inl, inr, true, false, none,
  some, List, ◌++◌, length, drop, length-drop, ltb, arith,
}
use tsl_sdr.Prelude.Int.{ℤ}
use tsl_sdr.Filter.DirectFir.State.{SampleBuf, Bufs, Ptr, deref}
use tsl_sdr.Filter.DirectFir.Sum.{wrapped}
use tsl_sdr.Filter.DirectFir.Buffers.{sample_buf_decref-others}
use mathlib.Core.List.{append-nil}
use tsl_sdr.Filter.DirectFir.Stream.{drop-append_le, drop-append_add, drop-drop}
use tsl_sdr.Filter.Polyphase.Ops.{Polyphase, move_along, next_phase, passed_over, advance}
use tsl_sdr.Filter.Polyphase.Dot.{samples}
use tsl_sdr.Filter.Polyphase.Stream.{
  IsHeld, stream, IsFit, rest, length-rest, stream-one, stream-two, length-stream, passed-narrow,
}

pub le-cases : (m n : ℕ) → (m ≤ n) ⊎ (n < m)
le-cases m n = omega arith

-- The filter after a step, at an offset of a buffer.
abbrev pub stepped : Polyphase → (offset p : ℕ) → (second : Ptr) → Polyphase
stepped fir offset p second = record fir {
  last_phase = next_phase fir;
  sb_active = some p;
  sb_next = second;
  nr_samples = (fir.nr_samples + (2 ^ 64 - passed_over fir)) % 2 ^ 64;
  sample_offset = offset;
}

-- A step goes to such a filter, which is fit, and the stream has lost what the step passes over.
pub record Advances (fir : Polyphase) (bufs : Bufs) (size : ℕ) (h : List ℤ) : Type 0 where
  pub offset : ℕ
  pub p : ℕ
  pub second : Ptr
  pub bufs' : Bufs
  pub runs : advance fir bufs ≡ some (stepped fir offset p second, bufs')
  pub stays : IsFit (stepped fir offset p second) bufs' size h
  pub passes : stream (stepped fir offset p second) bufs' ≡ drop (passed_over fir) (stream fir bufs)

module _ {fir : Polyphase} {bufs : Bufs} {size : ℕ} {h : List ℤ} (fit : IsFit fir bufs size h)
    (enough : fir.nr_filter_coeffs < length (stream fir bufs)) where
  -- Where the next sample begins, from the start of the active buffer.
  abbrev ahead : ℕ
  ahead = fir.sample_offset + passed_over fir

  count_left :
      (fir.nr_samples + (2 ^ 64 - passed_over fir)) % 2 ^ 64
      ≡ length (drop (passed_over fir) (stream fir bufs))
  count_left =
      wrapped fir.nr_samples (passed_over fir) (omega (arith, fit.counts, length-stream fit))
        (omega (arith, fit.counts, passed-narrow fit))
      ∙ ap (λ l. l - passed_over fir) fit.counts
      ∙ sym (length-drop (passed_over fir) (stream fir bufs))

  IsFit-stepped :
      (offset p : ℕ) (second : Ptr) (bufs' : Bufs) (a : SampleBuf)
      → IsHeld bufs' size p a
      → offset ≤ size
      → (second ≡ none)
        ⊎ ((q : ℕ) × (b : SampleBuf) × (second ≡ some q) × (q ≢ p) × IsHeld bufs' size q b)
      → stream (stepped fir offset p second) bufs' ≡ drop (passed_over fir) (stream fir bufs)
      → IsFit (stepped fir offset p second) bufs' size h
  IsFit-stepped offset p second bufs' a holds inside next passes = record {
    filled = record { size = fit.filled.size; stands = fit.filled.stands };
    phases = fit.phases;
    phase = mod-lt (fir.last_phase + fir.decimation) (omega (arith, fit.phase));
    narrow = fit.narrow;
    fits = fit.fits;
    small = fit.small;
    p = p;
    a = a;
    active = refl;
    holds = holds;
    inside = inside;
    next = next;
    counts = count_left ∙ ap length (sym passes);
  }

  passes-stay :
      ahead ≤ size
      → stream (stepped fir ahead fit.p fir.sb_next) bufs ≡ drop (passed_over fir) (stream fir bufs)
  unfolding stream deref
  passes-stay inside = elim fit.next [
    | inl alone ↦
        rw (stream-one fit alone, drop-drop fir.sample_offset (passed_over fir) (samples fit.a))
          (rw (fit.holds.at, alone) (append-nil (drop ahead (samples fit.a))))
    | inr (q, b, second, other, held) ↦
        let short =
          drop-append_le (passed_over fir) (rest fit) (samples b)
            (omega (arith, length-rest fit)) in
        rw
          (
            stream-two fit q b second held.at,
            short,
            drop-drop fir.sample_offset (passed_over fir) (samples fit.a),
          )
          (rw (fit.holds.at, second, held.at) refl)
  ]

  Advances-stay : ahead ≤ size → Advances fir bufs size h
  unfolding advance move_along
  Advances-stay inside = record {
    offset = ahead;
    p = fit.p;
    second = fir.sb_next;
    bufs' = bufs;
    runs =
        let here : ltb fit.a.nr_samples ahead ≡ false =
          let sized = fit.holds.sized in ground arith in
        rw (fit.active, fit.holds.at, here) refl;
    stays =
        IsFit-stepped ahead fit.p fir.sb_next bufs fit.a fit.holds inside fit.next
          (passes-stay inside);
    passes = passes-stay inside;
  }

  passes-cross :
      (q : ℕ) (b : SampleBuf) (bufs' : Bufs)
      → fir.sb_next ≡ some q
      → IsHeld bufs size q b
      → IsHeld bufs' size q b
      → size < ahead
      → stream (stepped fir (ahead - size) q none) bufs' ≡ drop (passed_over fir) (stream fir bufs)
  unfolding stream deref
  passes-cross q b bufs' second held kept beyond =
      let over : passed_over fir ≡ length (rest fit) + (ahead - size) =
        omega (arith, length-rest fit, fit.inside) in
      let moved = drop-append_add (ahead - size) (rest fit) (samples b) in
      rw (stream-two fit q b second held.at) (
        rw kept.at (append-nil (drop (ahead - size) (samples b)))
        ∙ sym moved
        ∙ ap (λ d. drop d (rest fit ++ samples b)) (sym over))

  -- The next buffer takes the place of the active one.
  Advances-cross :
      size < ahead
      → (q : ℕ) (b : SampleBuf) → fir.sb_next ≡ some q
      → q ≢ fit.p
      → IsHeld bufs size q b
      → Advances fir bufs size h
  unfolding advance move_along
  Advances-cross beyond q b second other held =
      let (bufs', dropped, others) =
        sample_buf_decref-others bufs fit.p fit.a fit.holds.at fit.holds.releases in
      let kept : IsHeld bufs' size q b = record {
        at = others q other ∙ held.at;
        full = held.full;
        sized = held.sized;
        releases = held.releases;
      } in
      let passes = passes-cross q b bufs' second held kept beyond in
      record {
        offset = ahead - size;
        p = q;
        second = none;
        bufs' = bufs';
        runs =
            let here : ltb fit.a.nr_samples ahead ≡ true =
              let sized = fit.holds.sized in ground arith in
            rw (fit.active, fit.holds.at, here, dropped, second)
              (ap (λ n. some (stepped fir (ahead - n) q none, bufs')) fit.holds.sized);
        stays =
            IsFit-stepped (ahead - size) q none bufs' b kept
              (omega (arith, fit.inside, passed-narrow fit, fit.fits)) (inl refl) passes;
        passes = passes;
      }

  -- A fit filter with samples for a pass moves on.
  pub advances : Advances fir bufs size h
  advances = elim (le-cases ahead size) [
    | inl inside ↦ Advances-stay inside
    | inr beyond ↦ elim fit.next [
      | inl alone ↦
          let short = ap length (stream-one fit alone) ∙ length-rest fit in
          absurd (omega (arith, short, enough, passed-narrow fit))
      | inr (q, b, second, other, held) ↦ Advances-cross beyond q b second other held
    ]
  ]
