-- ===== src/Filter/DirectFir/Ops.antt =====
-- The functions of filter/direct_fir.c that process samples on every processor
-- (`_DIRECT_FIR_IMPLEMENTATION`). `none` is undefined behaviour or a failed TSL_BUG_ON, both of
-- which stop the program.
use tsl_sdr.Prelude.{
  ℕ, zero, suc, ◌+◌, ◌-◌, ◌*◌, ◌%◌, ◌^◌, Bool, true, false, not, ◌&&◌, Option, none, some, List, [],
  ◌∷◌, load, ◌>>=◌, ◌>>◌, ltb, leb, ◌==◌, if◌then◌else◌,
}
use tsl_sdr.Prelude.Int.{ℤ, pos, negsuc, ◌+ℤ◌}
use tsl_sdr.Tsl.Result.{Result, a_ok, a_e_badargs}
use tsl_sdr.Filter.Fixed.{Complex, int32, round_q30_q15, cmul_q15_q30, cmul_q15_q15}
use tsl_sdr.Filter.DirectFir.State.{SampleBuf, Bufs, Ptr, deref, Rotation, Fir}
use tsl_sdr.Filter.DirectFir.Setup.{bug_on, is_null, decref_any}

-- `_direct_fir_apply_derotation`: the phase of the next sample, and the sample turned by the phase
-- of this one.
unfoldable pub apply_derotation : Rotation → Complex → Option (Rotation × Complex)
apply_derotation rot acc = do
  out ← cmul_q15_q30 acc rot.rot_phase
  phase ← cmul_q15_q15 rot.rot_phase rot.rot_phase_incr
  some (record rot { rot_phase = phase; rot_counter = (rot.rot_counter + 1) % 2 ^ 32 }, out)

-- `acc += c * s`
unfoldable pub accumulate : (acc c s : Complex) → Option Complex
accumulate (acc_re, acc_im) c s = do
  f ← cmul_q15_q30 c s
  re ← int32 (acc_re +ℤ f.0)
  im ← int32 (acc_im +ℤ f.1)
  some (re, im)

-- The sample at a place of a buffer, and a coefficient.
unfoldable pub sample_at : List ℤ → ℕ → Option Complex
sample_at data_buf place = do
  re ← load data_buf (2 * place)
  im ← load data_buf (2 * place + 1)
  some (re, im)

unfoldable pub coeff_at : Fir → ℕ → Option Complex
coeff_at fir place = do
  real ← fir.fir_real_coeff
  imag ← fir.fir_imag_coeff
  re ← load real place
  im ← load imag place
  some (re, im)

-- The inner loop, with `left` rounds to go from place `i`.
unfoldable pub filter_buf :
    Fir → SampleBuf → (start_coeff buf_offset i left : ℕ) → Complex → Option Complex
filter_buf fir b start_coeff buf_offset i zero acc = some acc
filter_buf fir b start_coeff buf_offset i (suc left) acc = do
  bug_on (leb fir.nr_coeffs (i + start_coeff))
  bug_on (leb b.nr_samples (i + buf_offset))
  s ← sample_at b.data_buf (buf_offset + i)
  c ← coeff_at fir (i + start_coeff)
  acc ← accumulate acc c s
  filter_buf fir b start_coeff buf_offset (suc i) left acc

-- `BL_MIN2(cur_buf->nr_samples - buf_offset, coeffs_remain)`
abbrev pub samples_in : (nr_samples buf_offset coeffs_remain : ℕ) → ℕ
samples_in nr_samples buf_offset coeffs_remain =
    let here = (nr_samples + (2 ^ 64 - buf_offset)) % 2 ^ 64 in
    if ltb here coeffs_remain then here else coeffs_remain

-- The outer loop on fuel: the accumulator, or `none` when the fuel is used up.
unfoldable pub filter_bufs :
    (fuel : ℕ)
    → Fir
    → Bufs
    → Ptr
    → (buf_offset coeffs_remain : ℕ) → Complex
    → Option (Option Complex)
filter_bufs zero fir bufs cur_buf buf_offset coeffs_remain acc = some none
filter_bufs (suc fuel) fir bufs cur_buf buf_offset coeffs_remain acc = do
  b ← deref bufs cur_buf
  let nr_in = samples_in b.nr_samples buf_offset coeffs_remain
  acc ← filter_buf fir b (fir.nr_coeffs - coeffs_remain) buf_offset 0 nr_in acc
  let rest = filter_bufs fuel fir bufs fir.sb_next 0 (coeffs_remain - nr_in) acc
  if coeffs_remain - nr_in == 0 then some (some acc) else rest

-- Moving along by the decimation factor. Behind the active buffer's end, the next buffer becomes
-- the active one, whose samples are then taken from the offset.
unfoldable pub move_along : Fir → Bufs → Option (Fir × Bufs)
move_along fir bufs = do
  active ← deref bufs fir.sb_active
  let ahead = (fir.sample_offset + fir.decimate_factor) % 2 ^ 32
  if ltb active.nr_samples ahead
      then (do
        bufs ← decref_any bufs fir.sb_active
        b ← deref bufs fir.sb_next
        some (
          record fir {
            sb_active = fir.sb_next;
            sb_next = none;
            sample_offset = (ahead + (2 ^ 32 - b.nr_samples)) % 2 ^ 32;
          },
          bufs,
        ))
      else some (record fir { sample_offset = ahead }, bufs)

abbrev pub is_zero : ℤ → Bool
is_zero (pos n) = n == 0
is_zero (negsuc n) = false

abbrev pub rotates : Rotation → Bool
rotates rot = not (is_zero rot.rot_phase_incr.0 && is_zero rot.rot_phase_incr.1)

abbrev pub rounded : Rotation × Complex → Rotation × Complex
rounded (rot, (re, im)) = (rot, (round_q30_q15 re, round_q30_q15 im))

-- The sum turned, if the filter shifts the signal, and in Q.15.
unfoldable pub rotate_sample : Rotation → Complex → Option (Rotation × Complex)
rotate_sample rot (re, im) = do
  turned ←
      if rotates rot
      then apply_derotation rot (round_q30_q15 re, round_q30_q15 im)
      else some (rot, (re, im))
  some (rounded turned)

abbrev pub uncounted : Fir → Fir
uncounted fir = record fir {
  nr_samples = (fir.nr_samples + (2 ^ 64 - fir.decimate_factor)) % 2 ^ 64;
}

-- There are not enough samples left, as far as the code looks.
unfoldable pub is_done : Fir → SampleBuf → Bool
is_done fir active =
    ltb active.nr_samples (fir.sample_offset + fir.nr_coeffs) && is_null fir.sb_next

-- What one sample gives: A_E_DONE, or A_OK with the filter, the memory and the sample.
pub data Sample : Type 0 where
  exhausted : Sample
  produced : Fir → Bufs → Complex → Sample

-- What `_direct_fir_process_sample` does when the sum is there.
unfoldable pub finish_sample : Fir → Bufs → Option Complex → Option Sample
finish_sample fir bufs none = none
finish_sample fir bufs (some acc) = do
  moved ← move_along fir bufs
  turned ← rotate_sample moved.0.rot acc
  some (produced (record (uncounted moved.0) { rot = turned.0 }) moved.1 turned.1)

-- `fuel` bounds the rounds of the outer loop.
unfoldable pub process_sample : (fuel : ℕ) → Fir → Bufs → Option Sample
process_sample fuel fir bufs = do
  active ← deref bufs fir.sb_active
  if is_done fir active then some exhausted else (do
    acc ← filter_bufs fuel fir bufs fir.sb_active fir.sample_offset fir.nr_coeffs (pos 0, pos 0)
    finish_sample fir bufs acc)

-- `direct_fir_process` for room of `left` samples: the samples in order.
unfoldable pub process_loop : (fuel left : ℕ) → Fir → Bufs → Option (Fir × Bufs × List Complex)
process_loop fuel zero fir bufs = some (fir, bufs, [])
process_loop fuel (suc left) fir bufs = do
  one ← process_sample fuel fir bufs
  elim one [
    | exhausted ↦ some (fir, bufs, [])
    | produced fir' bufs' out ↦ do
      rest ← process_loop fuel left fir' bufs'
      some (rest.0, rest.1, out ∷ rest.2)
  ]

abbrev pub is_missing : Option (List ℤ) → Bool
is_missing none = true
is_missing (some xs) = false

unfoldable pub direct_fir_process :
    (fuel : ℕ) → Fir → Bufs → (nr_out_samples : ℕ) → Option (Result × Fir × Bufs × List Complex)
direct_fir_process fuel fir bufs nr_out_samples =
    if nr_out_samples == 0 then some (a_e_badargs, fir, bufs, []) else (do
      bug_on (is_missing fir.fir_real_coeff)
      bug_on (is_missing fir.fir_imag_coeff)
      bug_on (fir.nr_coeffs == 0)
      if is_null fir.sb_active && is_null fir.sb_next then some (a_ok, fir, bufs, []) else (do
        done ← process_loop fuel nr_out_samples fir bufs
        some (a_ok, done.0, done.1, done.2)))
