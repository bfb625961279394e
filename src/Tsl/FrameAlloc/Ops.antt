-- ===== src/Tsl/FrameAlloc/Ops.antt =====
-- The functions of tsl/frame_alloc.c, each run without interference: a compare and swap of the head
-- succeeds at the first attempt. `none` as a frame is NULL.
use tsl_sdr.Prelude.{
  ℕ, zero, suc, ◌+◌, ◌-◌, ◌*◌, ◌%◌, bit_and, Option, none, some, ltb, ◌==◌, if◌then◌else◌, ◌>>=◌,
  ◌||◌, List, [], ◌∷◌,
}
use tsl_sdr.Tsl.Result.{Result, a_ok, a_e_nomem, a_e_badargs}
use tsl_sdr.Tsl.FrameAlloc.State.{Ptr, counter_mod, size_mod, FrameAlloc, write}

-- `_frame_alloc_pop_free`
unfoldable pub pop_free : FrameAlloc → Result × FrameAlloc × Ptr
pop_free fa = if fa.free == 0 then (a_e_nomem, fa, 0) else (
  a_ok,
  record fa {
    free = fa.next fa.free;
    counter = (fa.counter + 1) % counter_mod;
    nr_allocs = (fa.nr_allocs + 1) % size_mod;
  },
  fa.free,
)

-- `_frame_alloc_push_free`
unfoldable pub push_free : FrameAlloc → Ptr → Result × FrameAlloc
push_free fa top = (
  a_ok,
  record fa {
    free = top;
    counter = (fa.counter + 1) % counter_mod;
    next = write fa.next top fa.free;
    nr_frees = (fa.nr_frees + 1) % size_mod;
  },
)

-- `_frame_alloc_init`, from the address `ptr` on. Each round advances by a frame of at least one
-- byte, so a fuel of the bytes left is enough; `none` is the loop that does not end.
unfoldable pub init_loop : (fuel : ℕ) → Ptr → FrameAlloc → Option FrameAlloc
init_loop zero ptr fa = if ltb ptr (fa.rgn + fa.rgn_len) then none else some fa
init_loop (suc fuel) ptr fa =
    let rest =
      init_loop fuel (ptr + fa.frame_size)
        (record fa { next = write fa.next ptr fa.free; free = ptr }) in
    if ltb ptr (fa.rgn + fa.rgn_len) then rest else some fa

unfoldable pub frame_alloc_init : FrameAlloc → Option FrameAlloc
frame_alloc_init fa = init_loop fa.rgn_len fa.rgn fa

-- The frame size that `frame_alloc_new` settles on: whole cache lines of 64 bytes, and no less than
-- `struct frame_alloc_free`, which is one line.
unfoldable pub round_frame : ℕ → ℕ
round_frame bytes =
    let lines = bit_and ((bytes + 63) % size_mod) (size_mod - 64) in
    if ltb lines 64 then 64 else lines

-- What the system answers: TZAALLOC for the object, and `mmap`, `none` being MAP_FAILED.
pub record System : Type 0 where
  pub zaalloc : Result
  pub mmap : Option Ptr

-- `frame_alloc_new` for a caller that passes the address of its pointer, which holds `old`. The
-- result is the code and `*palloc` afterwards, and the outer `none` the loop that does not end.
unfoldable pub frame_alloc_new :
    System
    → (old : Option FrameAlloc) → (frame_bytes nr_frames : ℕ) → Option (Result × Option FrameAlloc)
frame_alloc_new sys old frame_bytes nr_frames =
    if (frame_bytes == 0) || (nr_frames == 0) then some (a_e_badargs, old) else elim sys.zaalloc [
      | Result.a_ok ↦ elim sys.mmap [
        | none ↦ some (a_ok, none)
        | some rgn ↦ (do
          fa ← frame_alloc_init (record {
            free = 0;
            counter = 0;
            next = λ _. 0;
            rgn = rgn;
            rgn_len = nr_frames * round_frame frame_bytes % size_mod;
            frame_size = round_frame frame_bytes;
            nr_frames = nr_frames;
            nr_frees = 0;
            nr_allocs = 0;
          })
          some (a_ok, some fa))
      ]
      | other ↦ some (other, none)
    ]

-- `frame_alloc_delete`: the code, `*palloc` afterwards, and the regions unmapped.
unfoldable pub frame_alloc_delete : Option FrameAlloc → Result × Option FrameAlloc × List (Ptr × ℕ)
frame_alloc_delete none = (a_e_badargs, none, [])
frame_alloc_delete (some fa) = (a_ok, none, if fa.rgn == 0 then [] else (fa.rgn, fa.rgn_len) ∷ [])

-- `frame_alloc`: the frame, or NULL with A_E_NOMEM.
unfoldable pub frame_alloc : FrameAlloc → Result × FrameAlloc × Ptr
frame_alloc fa = pop_free fa

-- `frame_free`, given what `*pframe` points at; the last part is `*pframe` afterwards.
unfoldable pub frame_free : FrameAlloc → Ptr → Result × FrameAlloc × Ptr
unfolding push_free
frame_free fa frame =
    if frame == 0
    then (a_e_badargs, fa, frame)
    else (let (ret, fa') = push_free fa frame in (ret, fa', 0))

unfoldable pub frame_alloc_get_counts : FrameAlloc → Result × ℕ × ℕ
frame_alloc_get_counts fa = (a_ok, fa.nr_frees, fa.nr_allocs)

unfoldable pub frame_alloc_get_frame_size : FrameAlloc → Result × ℕ
frame_alloc_get_frame_size fa = (a_ok, fa.frame_size)
