-- ===== src/Filter/DirectFir/Bounds.antt =====
-- When the sums of filter/direct_fir.c fit in 32 bits, and what they are then.
use tsl_sdr.Prelude.{
  ℕ, zero, suc, ◌+◌, ◌*◌, ◌^◌, ◌≤◌, ◌<◌, ◌≡◌, refl, ap, ◌∙◌, false, Option, none, some, Bool-cases,
  inl, inr, List, [], ◌∷◌, length, drop, ltb, arith, if◌then◌else◌,
}
use tsl_sdr.Prelude.Int.{ℤ, ◌+ℤ◌, ◌-ℤ◌, ◌*ℤ◌}
use tsl_sdr.Filter.Fixed.{Complex, cmul_q15_q30, round_q30_q15}
use tsl_sdr.Filter.Magnitude.{magnitude, magnitude-add, int32-fits, minus-fits, plus-fits}
use tsl_sdr.Filter.DirectFir.Ops.{accumulate, rotates, rotate_sample, direct_fir_process}
use tsl_sdr.Filter.DirectFir.Convolve.{zip, stream, dot}
use tsl_sdr.Filter.DirectFir.Decimate.{silence, decimated, given}
use tsl_sdr.Filter.DirectFir.State.{Bufs, Rotation, Fir}
use tsl_sdr.Filter.DirectFir.Stream.{IsFit}
use tsl_sdr.Filter.DirectFir.Run.{succeeds, direct_fir_process-decimated}
use tsl_sdr.Tsl.Result.{a_ok}

-- The sum of products of complex integers, without a bound on their size.
abbrev pub exact : (coeffs samples : List Complex) → Complex → Complex
exact [] ss acc = acc
exact (c ∷ cs) [] acc = acc
exact (c ∷ cs) (s ∷ ss) acc =
    exact cs ss (acc.0 +ℤ (c.0 *ℤ s.0 -ℤ c.1 *ℤ s.1), acc.1 +ℤ (c.0 *ℤ s.1 +ℤ c.1 *ℤ s.0))

-- The gain of a filter: the parts of all its coefficients together.
abbrev pub gain : List Complex → ℕ
gain [] = 0
gain (c ∷ cs) = magnitude c.0 + magnitude c.1 + gain cs

-- Every part is a signed 16-bit number.
abbrev pub AreSamples : List Complex → Type 0
AreSamples [] = Unit
AreSamples (s ∷ ss) = (magnitude s.0 ≤ 2 ^ 15) × (magnitude s.1 ≤ 2 ^ 15) × AreSamples ss

accumulate-fits :
    (acc c s : Complex) (room : ℕ)
    → magnitude c.0 + magnitude c.1 < 2 ^ 16
    → magnitude s.0 ≤ 2 ^ 15
    → magnitude s.1 ≤ 2 ^ 15
    → magnitude acc.0 ≤ room
    → magnitude acc.1 ≤ room
    → room + (magnitude c.0 + magnitude c.1) * 2 ^ 15 < 2 ^ 31
    → accumulate acc c s
      ≡ some (acc.0 +ℤ (c.0 *ℤ s.0 -ℤ c.1 *ℤ s.1), acc.1 +ℤ (c.0 *ℤ s.1 +ℤ c.1 *ℤ s.0))
unfolding accumulate cmul_q15_q30
accumulate-fits acc c s room hg h0 h1 a0 a1 hr =
    let (re, re_small) = minus-fits c.0 s.0 c.1 s.1 hg h0 h1 in
    let (im, im_small) = plus-fits c.0 s.1 c.1 s.0 hg h1 h0 in
    let f_re = c.0 *ℤ s.0 -ℤ c.1 *ℤ s.1 in
    let f_im = c.0 *ℤ s.1 +ℤ c.1 *ℤ s.0 in
    let re_fits = int32-fits (acc.0 +ℤ f_re) (omega (arith, magnitude-add acc.0 f_re)) in
    let im_fits = int32-fits (acc.1 +ℤ f_im) (omega (arith, magnitude-add acc.1 f_im)) in
    rw (re, im, re_fits, im_fits) refl

-- With room for the whole gain no sum overflows.
dot-exact :
    (cs ss : List Complex) (acc : Complex) (room : ℕ)
    → length cs ≤ length ss
    → AreSamples ss
    → magnitude acc.0 ≤ room
    → magnitude acc.1 ≤ room
    → room + gain cs * 2 ^ 15 < 2 ^ 31
    → dot cs ss acc ≡ some (exact cs ss acc)
dot-exact [] ss acc room few are a0 a1 hr = refl
dot-exact (c ∷ cs) [] acc room few are a0 a1 hr = absurd (omega arith)
dot-exact (c ∷ cs) (s ∷ ss) acc room few (s0, s1, are) a0 a1 hr =
    let re = minus-fits c.0 s.0 c.1 s.1 (omega arith) s0 s1 in
    let im = plus-fits c.0 s.1 c.1 s.0 (omega arith) s1 s0 in
    let f_re = c.0 *ℤ s.0 -ℤ c.1 *ℤ s.1 in
    let f_im = c.0 *ℤ s.1 +ℤ c.1 *ℤ s.0 in
    rw (accumulate-fits acc c s room (omega arith) s0 s1 a0 a1 (omega arith)) (
      dot-exact cs ss (acc.0 +ℤ f_re, acc.1 +ℤ f_im)
        (room + (magnitude c.0 + magnitude c.1) * 2 ^ 15) (omega arith) are
        (omega (arith, magnitude-add acc.0 f_re, re.1))
        (omega (arith, magnitude-add acc.1 f_im, im.1)) (omega arith))

AreSamples-drop : (n : ℕ) (ss : List Complex) → AreSamples ss → AreSamples (drop n ss)
AreSamples-drop zero ss are = are
AreSamples-drop (suc n) [] are = tt
AreSamples-drop (suc n) (s ∷ ss) are = AreSamples-drop n ss are.2

-- The rounded sums over the windows of a stream, at most `left` of them.
unfoldable pub windows :
    (left : ℕ) (coeffs : List Complex) (decimation : ℕ) (stream : List Complex) → List Complex
windows zero cs d ss = []
windows (suc left) cs d ss =
    if ltb (length ss) (length cs)
    then []
    else ((round_q30_q15 (exact cs ss silence).0, round_q30_q15 (exact cs ss silence).1)
        ∷ windows left cs d (drop d ss))

decimated-windows :
    (left : ℕ) (cs : List Complex) (d : ℕ) (rot : Rotation) (ss : List Complex)
    → rotates rot ≡ false
    → AreSamples ss
    → gain cs < 2 ^ 16
    → (rest : List Complex) × (decimated left cs d rot ss ≡ some (windows left cs d ss, rest))
unfolding decimated windows rotate_sample
decimated-windows zero cs d rot ss still are small = (ss, refl)
decimated-windows (suc left) cs d rot ss still are small =
    elim (Bool-cases (ltb (length ss) (length cs))) [
      | inl short ↦ (ss, rw short refl)
      | inr enough ↦
          let (rest, more) =
            decimated-windows left cs d rot (drop d ss) still (AreSamples-drop d ss are) small in
          let sum =
            dot-exact cs ss silence 0 (ground arith) are (omega arith) (omega arith)
              (omega arith) in
          (rest, rw (enough, sum, still, more) refl)
    ]

-- What a run gives, given that it gives something.
given-some :
    (run : Option (Fir × Bufs × List Complex)) (out rest : List Complex)
    → given run ≡ some (out, rest)
    → (fir' : Fir) × (bufs' : Bufs) × (run ≡ some (fir', bufs', out))
given-some none out rest e = absurd cc
given-some (some (fir', bufs', out')) out rest e =
    let same : out' ≡ out = cc in (fir', bufs', rw same refl)

-- On a filter as above that does not shift the signal, whose coefficients' parts add up to less
-- than 2^16 in size, with signed 16-bit samples: nothing overflows and no access or check fails; a
-- call for at least one sample returns A_OK with the exact sums over the windows of the stream,
-- rounded.
pub direct_fir_process-windows :
    {size : ℕ} {real imag : List ℤ} (fuel left : ℕ) (fir : Fir) (bufs : Bufs)
    → IsFit fir bufs size real imag
    → rotates fir.rot ≡ false
    → AreSamples (stream fir bufs)
    → gain (zip real imag) < 2 ^ 16
    → (fir' : Fir) × (bufs' : Bufs) × (direct_fir_process (suc (suc fuel)) fir bufs (suc left)
        ≡ some (
          a_ok,
          fir',
          bufs',
          windows (suc left) (zip real imag) fir.decimate_factor (stream fir bufs),
        ))
direct_fir_process-windows {real} {imag} fuel left fir bufs fit still are small =
    let (run, runs, gives, stays) = direct_fir_process-decimated fuel left fir bufs fit in
    let (rest, total) =
      decimated-windows (suc left) (zip real imag) fir.decimate_factor fir.rot (stream fir bufs)
        still are small in
    let (fir', bufs', done) = given-some run _ rest (gives ∙ total) in
    (fir', bufs', runs ∙ ap succeeds done)
