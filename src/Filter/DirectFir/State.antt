-- ===== src/Filter/DirectFir/State.antt =====
-- `struct direct_fir` of filter/direct_fir.h, and the sample buffers of filter/sample_buf.h in
-- memory.
use tsl_sdr.Prelude.{
  ℕ, ◌+◌, ◌-◌, ◌%◌, ◌^◌, Bool, false, Option, none, some, List, load, store, ◌>>=◌, ◌==◌,
  if◌then◌else◌,
}
use tsl_sdr.Prelude.Int.{ℤ}

-- Of `struct sample_buf` what the filter uses. `live` is whether the buffer has not been released.
pub record SampleBuf : Type 0 where
  pub refcount : ℕ
  pub nr_samples : ℕ
  pub data_buf : List ℤ
  pub has_release : Bool
  pub live : Bool

-- A buffer's address is its place in memory.
abbrev pub Bufs : Type 0
Bufs = List SampleBuf

-- A pointer to a buffer, with `none` for NULL.
abbrev pub Ptr : Type 0
Ptr = Option ℕ

-- Reading through NULL, or a buffer that is gone, is a fault.
abbrev pub if_live : SampleBuf → Option SampleBuf
if_live b = if b.live then some b else none

unfoldable pub deref : Bufs → Ptr → Option SampleBuf
deref bufs none = none
deref bufs (some p) = load bufs p >>= if_live

-- `sample_buf_decref`: the last reference releases the buffer, and there must be a function for it.
abbrev pub dropped : SampleBuf → Option SampleBuf
dropped b =
    if b.refcount == 1
    then (if b.has_release then some (record b { refcount = 0; live = false }) else none)
    else some (record b { refcount = (b.refcount + 2 ^ 32 - 1) % 2 ^ 32 })

unfoldable pub sample_buf_decref : Bufs → ℕ → Option Bufs
sample_buf_decref bufs p = do b ← deref bufs (some p); c ← dropped b; store bufs p c

-- The fields of the phase: its increment, the phase of the next sample, and how many were turned.
pub record Rotation : Type 0 where
  pub rot_phase_incr : ℤ × ℤ
  pub rot_phase : ℤ × ℤ
  pub rot_counter : ℕ

pub record Fir : Type 0 where
  pub fir_real_coeff : Option (List ℤ)
  pub fir_imag_coeff : Option (List ℤ)
  pub nr_coeffs : ℕ
  pub decimate_factor : ℕ
  pub sample_offset : ℕ
  pub nr_samples : ℕ
  pub sb_active : Ptr
  pub sb_next : Ptr
  pub rot : Rotation
