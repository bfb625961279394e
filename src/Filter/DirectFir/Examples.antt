-- ===== src/Filter/DirectFir/Examples.antt =====
-- A filter of filter/direct_fir.c at work on small buffers.
use tsl_sdr.Prelude.{
  ℕ, ◌<◌, ◌≡◌, ◌≢◌, refl, ◌⊎◌, inl, inr, ◌↔◌, true, false, Option, none, some, List, [], ◌∷◌, ◌++◌,
  ◌^◌, ◌>>=◌, arith,
}
use tsl_sdr.Prelude.Int.{ℤ, pos, negsuc, ◌+ℤ◌, ◌-ℤ◌, ◌*ℤ◌}
use tsl_sdr.Tsl.Result.{a_ok, a_e_busy}
use tsl_sdr.Filter.Fixed.{
  Complex, int16, int32, round_q30_q15, products_minus, products_plus, cmul_q15_q30,
}
use tsl_sdr.Filter.DirectFir.State.{SampleBuf, Bufs, deref, sample_buf_decref, Rotation, Fir}
use tsl_sdr.Filter.DirectFir.Ops.{
  accumulate, sample_at, coeff_at, filter_buf, filter_bufs, move_along, rotate_sample, is_done,
  exhausted, finish_sample, process_sample, process_loop, direct_fir_process,
}
use tsl_sdr.Filter.DirectFir.Setup.{
  bug_on, direct_fir_init, direct_fir_push_sample_buf, direct_fir_can_process,
}
use tsl_sdr.Filter.DirectFir.Convolve.{zip, samples, stream}
use tsl_sdr.Filter.DirectFir.Buffers.{IsHeld}
use tsl_sdr.Filter.DirectFir.Stream.{IsFit}
use tsl_sdr.Filter.DirectFir.Decimate.{decimated, given, StaysFit}
use tsl_sdr.Filter.DirectFir.Run.{succeeds, direct_fir_process-decimated}
use tsl_sdr.Filter.DirectFir.Bounds.{AreSamples, windows, direct_fir_process-windows}
use tsl_sdr.Filter.DirectFir.Push.{push-stream, can_process-exhausted, init-push}
use tsl_sdr.Filter.DirectFir.Ends.{filter_bufs-ends, filter_bufs-spins}

abbrev quiet : Rotation
quiet = record { rot_phase_incr = (pos 0, pos 0); rot_phase = (pos 0, pos 0); rot_counter = 0 }

abbrev buf_of : (refcount nr_samples : ℕ) → List ℤ → SampleBuf
buf_of refcount nr_samples data_buf = record {
  refcount = refcount;
  nr_samples = nr_samples;
  data_buf = data_buf;
  has_release = true;
  live = true;
}

abbrev early : SampleBuf
early = buf_of 1 2 (pos 10 ∷ pos 20 ∷ pos 30 ∷ negsuc 39 ∷ [])

abbrev late : SampleBuf
late = buf_of 2 2 (pos 50 ∷ pos 60 ∷ pos 70 ∷ pos 80 ∷ [])

abbrev memory : Bufs
memory = early ∷ late ∷ late ∷ []

-- The sum of two neighbours, in Q.15 of 14 bits.
abbrev ones : List ℤ
ones = pos 16384 ∷ pos 16384 ∷ []

abbrev zeros : List ℤ
zeros = pos 0 ∷ pos 0 ∷ []

abbrev fir_at : (offset left : ℕ) (second : Option ℕ) → Fir
fir_at offset left second = record {
  fir_real_coeff = some ones;
  fir_imag_coeff = some zeros;
  nr_coeffs = 2;
  decimate_factor = 2;
  sample_offset = offset;
  nr_samples = left;
  sb_active = some 0;
  sb_next = second;
  rot = quiet;
}

IsHeld-early : IsHeld memory 2 0 early
unfolding deref
IsHeld-early = record {
  at = refl;
  full = record { holds = omega arith; small = omega arith };
  sized = refl;
  held = omega arith;
  releases = refl;
}

IsHeld-late : (p : ℕ) → deref memory (some p) ≡ some late → IsHeld memory 2 p late
IsHeld-late p at = record {
  at = at;
  full = record { holds = omega arith; small = omega arith };
  sized = refl;
  held = omega arith;
  releases = refl;
}

-- One sample into the first of two buffers.
abbrev two_bufs : Fir
two_bufs = fir_at 1 3 (some 1)

IsFit-two_bufs : IsFit two_bufs memory 2 ones zeros
unfolding deref stream
IsFit-two_bufs = record {
  has = record {
    real_is = refl;
    imag_is = refl;
    real_length = refl;
    imag_length = refl;
    some_coeffs = omega arith;
    small = omega arith;
  };
  narrow = omega arith;
  fits = omega arith;
  small = omega arith;
  p = 0;
  a = early;
  active = refl;
  holds = IsHeld-early;
  inside = omega arith;
  next = inr (1, late, refl, (λ e. absurd (omega (arith, e))), IsHeld-late 1 refl);
  counts = refl;
}

runs_two :
    given (process_loop 2 4 two_bufs memory) ≡ some ((pos 80, pos 20) ∷ [], (pos 70, pos 80) ∷ [])
unfolding process_loop process_sample is_done filter_bufs filter_buf sample_at coeff_at accumulate
    bug_on deref sample_buf_decref finish_sample move_along rotate_sample cmul_q15_q30
    products_minus products_plus int32 round_q30_q15 int16 stream ◌*ℤ◌ ◌-ℤ◌ ◌+ℤ◌
runs_two = refl

direct_fir_process-decimated_example :
    (run : Option (Fir × Bufs × List Complex)) × (direct_fir_process 2 two_bufs memory 4
      ≡ succeeds run)
    × (given run ≡ decimated 4 (zip ones zeros) 2 quiet (stream two_bufs memory))
    × StaysFit run 2 ones zeros
direct_fir_process-decimated_example =
    direct_fir_process-decimated 0 3 two_bufs memory IsFit-two_bufs

AreSamples-two_bufs : AreSamples (stream two_bufs memory)
unfolding stream deref
AreSamples-two_bufs =
    (omega arith, omega arith, (omega arith, omega arith, (omega arith, omega arith, tt)))

direct_fir_process-windows_example :
    (fir' : Fir) × (bufs' : Bufs) × (direct_fir_process 2 two_bufs memory 4
      ≡ some (a_ok, fir', bufs', windows 4 (zip ones zeros) 2 (stream two_bufs memory)))
direct_fir_process-windows_example =
    direct_fir_process-windows 0 3 two_bufs memory IsFit-two_bufs refl AreSamples-two_bufs
      (omega arith)

-- One buffer, and no samples for a pass.
abbrev one_buf : Fir
one_buf = fir_at 1 1 none

IsFit-one_buf : IsFit one_buf memory 2 ones zeros
unfolding deref stream
IsFit-one_buf = record {
  has = record {
    real_is = refl;
    imag_is = refl;
    real_length = refl;
    imag_length = refl;
    some_coeffs = omega arith;
    small = omega arith;
  };
  narrow = omega arith;
  fits = omega arith;
  small = omega arith;
  p = 0;
  a = early;
  active = refl;
  holds = IsHeld-early;
  inside = omega arith;
  next = inl refl;
  counts = refl;
}

push-stream_example :
    (fir' : Fir) × (((direct_fir_push_sample_buf one_buf memory 2 ≡ some (a_ok, fir'))
        × (stream fir' memory ≡ stream one_buf memory ++ samples late))
      ⊎ ((direct_fir_push_sample_buf one_buf memory 2 ≡ some (a_e_busy, fir'))
          × (one_buf.sb_next ≢ none)
          × (fir' ≡ one_buf)))
    × IsFit fir' memory 2 ones zeros
unfolding deref IsFit-one_buf
push-stream_example =
    push-stream IsFit-one_buf 2 late (λ e. absurd (omega (arith, e))) (λ e. absurd cc)
      (IsHeld-late 2 refl)

can_process-exhausted_example :
    (direct_fir_can_process false one_buf ≡ some (a_ok, false, none))
    ↔ (process_sample 2 one_buf memory ≡ some exhausted)
can_process-exhausted_example = can_process-exhausted IsFit-one_buf 0

init-push_example :
    (fresh : Fir) × (fir : Fir) × (direct_fir_init
        (true, true)
        2
        ones
        zeros
        2
        true
        (pos 16384, pos 0)
        one_buf
      ≡ some (a_ok, fresh))
    × (direct_fir_push_sample_buf fresh memory 0 ≡ some (a_ok, fir))
    × IsFit fir memory 2 ones zeros
    × (stream fir memory ≡ samples early)
init-push_example =
    init-push ones zeros 2 true (pos 16384, pos 0) one_buf 0 early refl (omega arith) (omega arith)
      (omega arith) (omega arith) IsHeld-early

NextFilled-two_bufs :
    (b : SampleBuf) → deref memory (some 1) ≡ some b → (0 < b.nr_samples) × (b.nr_samples < 2 ^ 32)
unfolding deref
NextFilled-two_bufs b e = let same : late ≡ b = cc in rw (← same) (omega arith, omega arith)

filter_bufs-ends_example : filter_bufs 4 two_bufs memory (some 0) 1 2 (pos 0, pos 0) ≢ some none
filter_bufs-ends_example =
    filter_bufs-ends 4 two_bufs memory (some 0) 1 2 (pos 0, pos 0) NextFilled-two_bufs (omega arith)

abbrev hollow : SampleBuf
hollow = buf_of 1 0 []

hollow_at : deref (early ∷ hollow ∷ []) (some 1) ≡ some hollow
unfolding deref
hollow_at = refl

filter_bufs-spins_example :
    filter_bufs 9 two_bufs (early ∷ hollow ∷ []) (some 1) 0 1 (pos 0, pos 0) ≡ some none
filter_bufs-spins_example =
    filter_bufs-spins 9 two_bufs (early ∷ hollow ∷ []) hollow 1 (pos 0, pos 0) hollow_at refl
      (omega arith)

-- The offset in a next buffer of three samples is taken from its own size: 1 + 2 - 3 in place of
-- 1 + 2 - 2.
unequal_offset :
    (move_along two_bufs (early ∷ buf_of 1 3 (pos 1 ∷ []) ∷ []) >>= λ m. some m.0.sample_offset)
    ≡ some 0
unfolding move_along deref sample_buf_decref
unequal_offset = refl

-- Moving beyond the active buffer without a next one reads through NULL.
missing_next : move_along one_buf memory ≡ none
unfolding move_along deref sample_buf_decref
missing_next = refl
