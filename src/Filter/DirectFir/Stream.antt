-- ===== src/Filter/DirectFir/Stream.antt =====
-- The state of a filter of filter/direct_fir.c between samples, and how the filter moves along the
-- stream.
use mathlib.Core.List.{append-nil}
use tsl_sdr.Prelude.{
  ℕ, zero, suc, ◌+◌, ◌-◌, ◌%◌, ◌^◌, ◌≤◌, ◌<◌, ◌≡◌, ◌≢◌, refl, sym, ap, ◌∙◌, ◌⊎◌, inl, inr, none,
  some, List, [], ◌∷◌, ◌++◌, length, drop, length-drop, length-append, arith,
}
use tsl_sdr.Prelude.Int.{ℤ}
use tsl_sdr.Filter.Fixed.{Complex}
use tsl_sdr.Filter.DirectFir.State.{SampleBuf, Bufs, Ptr, deref, Rotation, Fir}
use tsl_sdr.Filter.DirectFir.Ops.{move_along, uncounted}
use tsl_sdr.Filter.DirectFir.Convolve.{samples, stream, length-samples}
use tsl_sdr.Filter.DirectFir.Sum.{HasCoeffs, wrapped}
use tsl_sdr.Filter.DirectFir.Buffers.{IsHeld}

suc_add : (m n : ℕ) → suc m + n ≡ suc (m + n)
suc_add m n = omega arith

module _ {ℓ} {A : Type ℓ} where
  pub drop-append_le :
      (n : ℕ) (xs ys : List A) → n ≤ length xs → drop n (xs ++ ys) ≡ drop n xs ++ ys
  drop-append_le zero xs ys h = refl
  drop-append_le (suc n) [] ys h = absurd (omega arith)
  drop-append_le (suc n) (x ∷ xs) ys h = drop-append_le n xs ys (omega arith)

  pub drop-append_add : (n : ℕ) (xs ys : List A) → drop (length xs + n) (xs ++ ys) ≡ drop n ys
  drop-append_add n [] ys = let zero_left : 0 + n ≡ n = omega arith in rw zero_left refl
  drop-append_add n (x ∷ xs) ys = rw (suc_add (length xs) n) (drop-append_add n xs ys)

  drop-nil : (n : ℕ) → drop {A = A} n [] ≡ []
  drop-nil zero = refl
  drop-nil (suc n) = refl

  pub drop-drop : (m n : ℕ) (xs : List A) → drop n (drop m xs) ≡ drop (m + n) xs
  drop-drop zero n xs = let zero_left : 0 + n ≡ n = omega arith in rw zero_left refl
  drop-drop (suc m) n [] = drop-nil n ∙ sym (drop-nil (suc m + n))
  drop-drop (suc m) n (x ∷ xs) = rw (suc_add m n) (drop-drop m n xs)

-- The filter holds one or two buffers of `size` samples, no fewer than it has coefficients,
-- decimates by no more than it has coefficients, and counts the samples that are left.
pub record IsFit (fir : Fir) (bufs : Bufs) (size : ℕ) (real imag : List ℤ) : Type 0 where
  pub has : HasCoeffs fir real imag
  pub narrow : fir.decimate_factor ≤ fir.nr_coeffs
  pub fits : fir.nr_coeffs ≤ size
  pub small : size < 2 ^ 31
  pub p : ℕ
  pub a : SampleBuf
  pub active : fir.sb_active ≡ some p
  pub holds : IsHeld bufs size p a
  pub inside : fir.sample_offset ≤ size
  pub next :
      (fir.sb_next ≡ none)
      ⊎ ((q : ℕ) × (b : SampleBuf) × (fir.sb_next ≡ some q) × (q ≢ p) × IsHeld bufs size q b)
  pub counts : fir.nr_samples ≡ length (stream fir bufs)

module _ {fir : Fir} {bufs : Bufs} {size : ℕ} {real imag : List ℤ}
    (fit : IsFit fir bufs size real imag) where
  -- What is left of the active buffer.
  abbrev pub rest : List Complex
  rest = drop fir.sample_offset (samples fit.a)

  pub length-rest : length rest ≡ size - fir.sample_offset
  length-rest =
      length-drop fir.sample_offset (samples fit.a)
      ∙ ap (λ l. l - fir.sample_offset) (length-samples fit.a fit.holds.full ∙ fit.holds.sized)

  pub stream-one : fir.sb_next ≡ none → stream fir bufs ≡ rest
  unfolding stream deref
  stream-one alone = rw (fit.active, fit.holds.at, alone) (append-nil rest)

  pub stream-two :
      (q : ℕ) (b : SampleBuf)
      → fir.sb_next ≡ some q
      → deref bufs (some q) ≡ some b
      → stream fir bufs ≡ rest ++ samples b
  unfolding stream deref
  stream-two q b second at = rw (fit.active, fit.holds.at, second, at) refl

  pub length-stream : length (stream fir bufs) < 2 ^ 32
  length-stream = elim fit.next [
    | inl alone ↦ rw (stream-one alone) (omega (arith, length-rest, fit.small))
    | inr (q, b, second, other, held) ↦ rw (stream-two q b second held.at) (
        omega (
          arith,
          length-append rest (samples b),
          length-rest,
          fit.small,
          length-samples b held.full,
          held.sized,
        ))
  ]

  -- The count of what is left after a step.
  pub count_left :
      fir.nr_coeffs ≤ length (stream fir bufs)
      → (fir.nr_samples + (2 ^ 64 - fir.decimate_factor)) % 2 ^ 64
        ≡ length (drop fir.decimate_factor (stream fir bufs))
  count_left enough =
      wrapped fir.nr_samples fir.decimate_factor (omega (arith, fit.counts, length-stream))
        (omega (arith, fit.counts, fit.narrow))
      ∙ ap (λ l. l - fir.decimate_factor) fit.counts
      ∙ sym (length-drop fir.decimate_factor (stream fir bufs))

  -- The filter's coefficients stay.
  pub keep_coeffs :
      (o c : ℕ) (x y : Ptr) (r : Rotation)
      → HasCoeffs
          (record fir { sample_offset = o; nr_samples = c; sb_active = x; sb_next = y; rot = r })
          real
          imag
  keep_coeffs o c x y r = record {
    real_is = fit.has.real_is;
    imag_is = fit.has.imag_is;
    real_length = fit.has.real_length;
    imag_length = fit.has.imag_length;
    some_coeffs = fit.has.some_coeffs;
    small = fit.has.small;
  }

-- After a step to (fir', bufs') the filter is fit whatever its phase is, and the stream has lost
-- what one step passes over.
pub record Moves (fir fir' : Fir) (bufs bufs' : Bufs) (size : ℕ) (real imag : List ℤ) : Type 0 where
  pub runs : move_along fir bufs ≡ some (fir', bufs')
  pub phase : fir'.rot ≡ fir.rot
  pub factor : fir'.decimate_factor ≡ fir.decimate_factor
  pub stays : (r : Rotation) → IsFit (record (uncounted fir') { rot = r }) bufs' size real imag
  pub passes : stream fir' bufs' ≡ drop fir.decimate_factor (stream fir bufs)
