-- ===== src/Filter/Polyphase/Ops.antt =====
-- The functions of filter/polyphase_fir.c and, of filter/utils.c, `dot_product_sample_buffers_real`
-- as it is built without _TSL_DEBUG. `none` is undefined behaviour or a failed TSL_BUG_ON.
use tsl_sdr.Prelude.{
  ℕ, zero, suc, ◌+◌, ◌-◌, ◌*◌, ◌/◌, ◌%◌, ◌^◌, Bool, not, ◌&&◌, ◌||◌, Option, none, some, List, [],
  ◌∷◌, load, store, replicate, ◌>>=◌, ◌>>◌, ltb, leb, ◌==◌, if◌then◌else◌,
}
use tsl_sdr.Prelude.Int.{ℤ, pos, ◌+ℤ◌, ◌*ℤ◌}
use tsl_sdr.Tsl.Result.{Result, a_ok, a_e_nomem, a_e_badargs, a_e_busy}
use tsl_sdr.Filter.Fixed.{int32, round_q30_q15}
use tsl_sdr.Filter.DirectFir.State.{SampleBuf, Bufs, Ptr, deref}
use tsl_sdr.Filter.DirectFir.Setup.{bug_on, is_null, same, decref_any}
use tsl_sdr.Filter.DirectFir.Ops.{samples_in}

-- `struct polyphase_fir`
pub record Polyphase : Type 0 where
  pub phase_filters : List ℤ
  pub nr_phase_filters : ℕ
  pub nr_filter_coeffs : ℕ
  pub last_phase : ℕ
  pub interpolation : ℕ
  pub decimation : ℕ
  pub sb_active : Ptr
  pub sb_next : Ptr
  pub nr_samples : ℕ
  pub sample_offset : ℕ

-- `(n + 3) & ~(4 - 1)` of an unsigned int
abbrev pub round_up_4 : ℕ → ℕ
round_up_4 n = (n + 3) % 2 ^ 32 / 4 * 4

-- The coefficients of a phase: as many as one in `interpolate`, rounded up to a multiple of 4.
unfoldable pub phase_coeffs : (nr_coeffs interpolate : ℕ) → ℕ
phase_coeffs nr_coeffs interpolate =
    round_up_4 ((nr_coeffs + interpolate - 1) / interpolate % 2 ^ 32)

-- The loop that sorts the coefficients into the phases, with `left` to go from place `i`.
unfoldable pub fill_phases :
    (fir_coeff : List ℤ) (interpolate phase_coeffs i left : ℕ) → List ℤ → Option (List ℤ)
fill_phases fir_coeff interpolate phase_coeffs i zero filters = some filters
fill_phases fir_coeff interpolate phase_coeffs i (suc left) filters = do
  c ← load fir_coeff i
  filters ← store filters (i % interpolate * phase_coeffs + i / interpolate) c
  fill_phases fir_coeff interpolate phase_coeffs (suc i) left filters

abbrev pub fresh_polyphase : (interpolate decimate coeffs : ℕ) → List ℤ → Polyphase
fresh_polyphase interpolate decimate coeffs filters = record {
  phase_filters = filters;
  nr_phase_filters = interpolate;
  nr_filter_coeffs = coeffs;
  last_phase = 0;
  interpolation = interpolate;
  decimation = decimate;
  sb_active = none;
  sb_next = none;
  nr_samples = 0;
  sample_offset = 0;
}

-- `memory` and `filter_memory` are whether the two allocations succeed; the memory for the phases
-- is zeroed.
unfoldable pub polyphase_fir_new :
    (memory filter_memory : Bool) (nr_coeffs : ℕ) (fir_coeff : List ℤ) (interpolate decimate : ℕ)
    → Option (Result × Option Polyphase)
polyphase_fir_new memory filter_memory nr_coeffs fir_coeff interpolate decimate =
    if (nr_coeffs == 0) || ((interpolate == 0) || (decimate == 0))
    then some (a_e_badargs, none)
    else if not memory || not filter_memory
    then some (a_e_nomem, none)
    else (do
      let coeffs = phase_coeffs nr_coeffs interpolate
      filters ←
          fill_phases fir_coeff interpolate coeffs 0 nr_coeffs
            (replicate (interpolate * coeffs) (pos 0))
      some (a_ok, some (fresh_polyphase interpolate decimate coeffs filters)))

abbrev pub counted : Polyphase → SampleBuf → Result × Polyphase
counted fir b = (a_ok, record fir { nr_samples = (fir.nr_samples + b.nr_samples) % 2 ^ 64 })

unfoldable pub polyphase_fir_push_sample_buf : Polyphase → Bufs → ℕ → Option (Result × Polyphase)
polyphase_fir_push_sample_buf fir bufs buf = do
  bug_on (same fir.sb_active buf)
  bug_on (same fir.sb_next buf)
  if is_null fir.sb_active
      then (do
        bug_on (not (is_null fir.sb_next))
        b ← deref bufs (some buf)
        some (counted (record fir { sb_active = some buf }) b))
      else if is_null fir.sb_next
      then (do b ← deref bufs (some buf); some (counted (record fir { sb_next = some buf }) b))
      else some (a_e_busy, fir)

-- `acc_res += sample * coeff`
unfoldable pub add_product : (acc coeff sample : ℤ) → Option ℤ
add_product acc coeff sample = do product ← int32 (sample *ℤ coeff); int32 (acc +ℤ product)

-- The inner loop of `dot_product_sample_buffers_real`, with the coefficients from `base` on in
-- `coeffs`.
unfoldable pub dot_buf :
    (coeffs : List ℤ) (base : ℕ) → SampleBuf → (start_coeff buf_offset i left : ℕ) → ℤ → Option ℤ
dot_buf coeffs base b start_coeff buf_offset i zero acc = some acc
dot_buf coeffs base b start_coeff buf_offset i (suc left) acc = do
  sample ← load b.data_buf (buf_offset + i)
  coeff ← load coeffs (base + (start_coeff + i))
  acc ← add_product acc coeff sample
  dot_buf coeffs base b start_coeff buf_offset (suc i) left acc

-- Its outer loop on fuel, with `none` inside when the fuel is used up.
unfoldable pub dot_bufs :
    (fuel : ℕ) (coeffs : List ℤ) (base nr_coeffs : ℕ)
    → Bufs
    → (cur_buf sb_next : Ptr) → (buf_offset coeffs_remain : ℕ) → ℤ
    → Option (Option ℤ)
dot_bufs zero coeffs base nr_coeffs bufs cur_buf sb_next buf_offset coeffs_remain acc = some none
dot_bufs (suc fuel) coeffs base nr_coeffs bufs cur_buf sb_next buf_offset coeffs_remain acc = do
  b ← deref bufs cur_buf
  let nr_in = samples_in b.nr_samples buf_offset coeffs_remain
  acc ← dot_buf coeffs base b (nr_coeffs - coeffs_remain) buf_offset 0 nr_in acc
  let rest = dot_bufs fuel coeffs base nr_coeffs bufs sb_next sb_next 0 (coeffs_remain - nr_in) acc
  if coeffs_remain - nr_in == 0 then some (some acc) else rest

-- What the sum gives: A_E_DONE, or A_OK with the sample.
pub data Product : Type 0 where
  exhausted : Product
  product : ℤ → Product

unfoldable pub rounded_product : Option ℤ → Option Product
rounded_product none = none
rounded_product (some acc) = some (product (round_q30_q15 acc))

unfoldable pub dot_product_sample_buffers_real :
    (fuel : ℕ)
    → Bufs
    → (sb_active sb_next : Ptr) (buf_start_offset : ℕ) (coeffs : List ℤ) (base nr_coeffs : ℕ)
    → Option Product
dot_product_sample_buffers_real fuel bufs sb_active sb_next buf_start_offset coeffs base nr_coeffs =
    do
      active ← deref bufs sb_active
      if ltb active.nr_samples (buf_start_offset + nr_coeffs) && is_null sb_next
          then some exhausted
          else (do
            acc ←
                dot_bufs fuel coeffs base nr_coeffs bufs sb_active sb_next buf_start_offset
                  nr_coeffs (pos 0)
            rounded_product acc)

-- Moving along by the samples that the phase passed over; behind its end, the active buffer is
-- given up for the next one.
unfoldable pub move_along : Polyphase → Bufs → (interp_phase : ℕ) → Option (Polyphase × Bufs)
move_along fir bufs interp_phase = do
  active ← deref bufs fir.sb_active
  if ltb active.nr_samples (fir.sample_offset + interp_phase)
      then (do
        bufs ← decref_any bufs fir.sb_active
        some (
          record fir {
            sb_active = fir.sb_next;
            sb_next = none;
            sample_offset = fir.sample_offset + interp_phase - active.nr_samples;
          },
          bufs,
        ))
      else some (record fir { sample_offset = fir.sample_offset + interp_phase }, bufs)

-- After a sample: the next phase, and the samples that are left.
abbrev pub next_phase : Polyphase → ℕ
next_phase fir = (fir.last_phase + fir.decimation) % fir.interpolation

abbrev pub passed_over : Polyphase → ℕ
passed_over fir = (fir.last_phase + fir.decimation) / fir.interpolation

unfoldable pub advance : Polyphase → Bufs → Option (Polyphase × Bufs)
advance fir bufs = do
  moved ←
      move_along
        (record fir { nr_samples = (fir.nr_samples + (2 ^ 64 - passed_over fir)) % 2 ^ 64 }) bufs
        (passed_over fir)
  some (record moved.0 { last_phase = next_phase fir }, moved.1)

-- The loop of `polyphase_fir_process`, with room for `left` samples. The variable `phase_id` of the
-- code is `last_phase` at the start of every round.
unfoldable pub process_loop :
    (fuel left : ℕ) → Polyphase → Bufs → Option (Polyphase × Bufs × List ℤ)
process_loop fuel zero fir bufs = some (fir, bufs, [])
process_loop fuel (suc left) fir bufs =
    if leb fir.nr_samples fir.nr_filter_coeffs then some (fir, bufs, []) else (do
      bug_on (leb fir.nr_phase_filters fir.last_phase)
      one ←
          dot_product_sample_buffers_real fuel bufs fir.sb_active fir.sb_next fir.sample_offset
            fir.phase_filters (fir.nr_filter_coeffs * fir.last_phase) fir.nr_filter_coeffs
      elim one [
        | exhausted ↦ some (fir, bufs, [])
        | product out ↦ do
          next ← advance fir bufs
          rest ← process_loop fuel left next.0 next.1
          some (rest.0, rest.1, out ∷ rest.2)
      ])

unfoldable pub polyphase_fir_process :
    (fuel : ℕ)
    → Polyphase
    → Bufs
    → (nr_out_samples : ℕ) → Option (Result × Polyphase × Bufs × List ℤ)
polyphase_fir_process fuel fir bufs nr_out_samples =
    if nr_out_samples == 0
    then some (a_e_badargs, fir, bufs, [])
    else if is_null fir.sb_active && is_null fir.sb_next
    then some (a_ok, fir, bufs, [])
    else (do done ← process_loop fuel nr_out_samples fir bufs; some (a_ok, done.0, done.1, done.2))

unfoldable pub polyphase_fir_can_process : Polyphase → Result × Bool
polyphase_fir_can_process fir = (a_ok, leb fir.nr_filter_coeffs fir.nr_samples)

unfoldable pub polyphase_fir_full : Polyphase → Result × Bool
polyphase_fir_full fir = (a_ok, not (is_null fir.sb_next))
