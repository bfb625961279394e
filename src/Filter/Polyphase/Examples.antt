-- ===== src/Filter/Polyphase/Examples.antt =====
-- A filter of filter/polyphase_fir.c that changes the rate by 2/3, on small buffers.
use tsl_sdr.Prelude.{
  ℕ, zero, suc, ◌+◌, ◌*◌, ◌<◌, ◌≡◌, refl, inr, true, Option, none, some, List, [], ◌∷◌, length,
  get_or, ltb, if◌then◌else◌, arith,
}
use tsl_sdr.Prelude.Int.{ℤ, pos, negsuc, ◌+ℤ◌, ◌*ℤ◌}
use tsl_sdr.Tsl.Result.{a_ok}
use tsl_sdr.Filter.Fixed.{int16, int32, round_q30_q15}
use tsl_sdr.Filter.DirectFir.State.{SampleBuf, Bufs, deref, sample_buf_decref}
use tsl_sdr.Filter.DirectFir.Setup.{bug_on}
use tsl_sdr.Filter.Polyphase.Ops.{
  Polyphase, phase_coeffs, fresh_polyphase, polyphase_fir_new, add_product, dot_buf, dot_bufs,
  dot_product_sample_buffers_real, rounded_product, move_along, advance, process_loop,
  polyphase_fir_process, polyphase_fir_can_process,
}
use tsl_sdr.Filter.Polyphase.Layout.{tabulate, row_coeff, polyphase_fir_new-tabulate}
use tsl_sdr.Filter.Polyphase.Stream.{IsHeld, stream, IsFit}
use tsl_sdr.Filter.Polyphase.Resample.{
  resampled, given, StaysFit, succeeds, polyphase_fir_process-resampled,
}

abbrev taps : List ℤ
taps = pos 16384 ∷ pos 8192 ∷ pos 4096 ∷ negsuc 8191 ∷ []

abbrev rows : List ℤ
rows = pos 16384 ∷ pos 4096 ∷ pos 0 ∷ pos 0 ∷ pos 8192 ∷ negsuc 8191 ∷ pos 0 ∷ pos 0 ∷ []

rows_of_taps : tabulate 8 (row_coeff taps 2 4) ≡ rows
rows_of_taps = refl

polyphase_fir_new-tabulate_example :
    polyphase_fir_new true true 4 taps 2 3
    ≡ some (
      a_ok,
      some (
          fresh_polyphase 2 3
            (phase_coeffs 4 2)
            (tabulate (2 * phase_coeffs 4 2) (row_coeff taps 2 (phase_coeffs 4 2)))),
    )
polyphase_fir_new-tabulate_example =
    polyphase_fir_new-tabulate taps 2 3 (omega arith) (omega arith) (omega arith) (omega arith)

abbrev buf_of : (refcount : ℕ) → List ℤ → SampleBuf
buf_of refcount data_buf = record {
  refcount = refcount;
  nr_samples = 4;
  data_buf = data_buf;
  has_release = true;
  live = true;
}

abbrev early : SampleBuf
early = buf_of 1 (pos 100 ∷ pos 200 ∷ pos 300 ∷ pos 400 ∷ [])

abbrev late : SampleBuf
late = buf_of 1 (pos 500 ∷ pos 600 ∷ pos 700 ∷ pos 800 ∷ [])

abbrev memory : Bufs
memory = early ∷ late ∷ []

-- Two samples into the first of two buffers, at the second phase.
abbrev halfway : Polyphase
halfway = record (fresh_polyphase 2 3 4 rows) {
  last_phase = 1;
  sb_active = some 0;
  sb_next = some 1;
  nr_samples = 6;
  sample_offset = 2;
}

IsHeld-memory :
    (p : ℕ) (b : SampleBuf) (ws : List ℤ)
    → length ws ≡ 4
    → b ≡ buf_of 1 ws
    → deref memory (some p) ≡ some b
    → IsHeld memory 4 p b
IsHeld-memory p b ws four e at = rw e (record {
  at = rw (← e) at;
  full = record { holds = omega arith; small = omega arith };
  sized = refl;
  releases = refl;
})

rows-stand :
    (p j : ℕ)
    → p < 2
    → j < 4
    → get_or rows (p * 4 + j) (pos 0)
      ≡ (if ltb (p + j * 2) 4 then get_or taps (p + j * 2) (pos 0) else pos 0)
rows-stand zero zero hp hj = refl
rows-stand zero (suc zero) hp hj = refl
rows-stand zero (suc (suc zero)) hp hj = refl
rows-stand zero (suc (suc (suc zero))) hp hj = refl
rows-stand zero (suc (suc (suc (suc j)))) hp hj = absurd (omega arith)
rows-stand (suc zero) zero hp hj = refl
rows-stand (suc zero) (suc zero) hp hj = refl
rows-stand (suc zero) (suc (suc zero)) hp hj = refl
rows-stand (suc zero) (suc (suc (suc zero))) hp hj = refl
rows-stand (suc zero) (suc (suc (suc (suc j)))) hp hj = absurd (omega arith)
rows-stand (suc (suc p)) j hp hj = absurd (omega arith)

IsFit-halfway : IsFit halfway memory 4 taps
unfolding deref stream
IsFit-halfway = record {
  filled = record { size = refl; stands = rows-stand };
  phases = refl;
  phase = omega arith;
  narrow = omega arith;
  fits = omega arith;
  small = omega arith;
  p = 0;
  a = early;
  active = refl;
  holds = IsHeld-memory 0 early early.data_buf refl refl refl;
  inside = omega arith;
  next = inr (
    1,
    late,
    refl,
    (λ e. absurd (omega (arith, e))),
    IsHeld-memory 1 late late.data_buf refl refl refl,
  );
  counts = refl;
}

-- (8192 * 300 - 8192 * 400) / 16384 at the second phase, and then a step over two samples.
resampled_halfway :
    given (process_loop 2 9 halfway memory)
    ≡ some (negsuc 49 ∷ [], pos 500 ∷ pos 600 ∷ pos 700 ∷ pos 800 ∷ [])
unfolding process_loop bug_on dot_product_sample_buffers_real dot_bufs dot_buf add_product int32
    rounded_product round_q30_q15 int16 advance move_along deref sample_buf_decref stream ◌*ℤ◌ ◌+ℤ◌
resampled_halfway = refl

polyphase_fir_process-resampled_example :
    (run : Option (Polyphase × Bufs × List ℤ)) × (polyphase_fir_process 2 halfway memory 9
      ≡ succeeds run)
    × (given run ≡ resampled 9 taps 2 3 4 1 (stream halfway memory))
    × StaysFit run 4 taps
polyphase_fir_process-resampled_example =
    polyphase_fir_process-resampled 0 8 halfway memory IsFit-halfway

-- With just one sample for each coefficient the filter says that it can process, and gives none.
abbrev just_enough : Polyphase
just_enough = record halfway { sb_next = none; nr_samples = 4; sample_offset = 0 }

can_process_none :
    (polyphase_fir_can_process just_enough ≡ (a_ok, true))
    × (process_loop 2 9 just_enough memory ≡ some (just_enough, memory, []))
unfolding polyphase_fir_can_process process_loop
can_process_none = (refl, refl)
