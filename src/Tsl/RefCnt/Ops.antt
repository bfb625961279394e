-- ===== src/Tsl/RefCnt/Ops.antt =====
-- The functions of tsl/refcnt.h, each run without interference. The references are not NULL.
use tsl_sdr.Prelude.{ℕ, ◌+◌, ◌-◌, ◌%◌, ◌^◌, Bool, not, ◌&&◌, ◌==◌, if◌then◌else◌}
use tsl_sdr.Tsl.Result.{Result, a_ok, a_e_inval}

-- `struct refcnt`; of the destructor whether there is one. `destroyed` counts its calls.
pub record RefCnt : Type 0 where
  pub destructor : Bool
  pub refcnt : ℕ
  pub destroyed : ℕ

unfoldable pub refcnt_init : (destructor : Bool) → Result × RefCnt
refcnt_init destructor = (a_ok, record { destructor = destructor; refcnt = 1; destroyed = 0 })

-- The compare and swap succeeds at once, and `val` is the count it replaced.
unfoldable pub refcnt_get : RefCnt → Result × RefCnt
refcnt_get r =
    if r.refcnt == 0 then (a_e_inval, r) else (a_ok, record r { refcnt = (r.refcnt + 1) % 2 ^ 32 })

unfoldable pub refcnt_release : RefCnt → Result × RefCnt
refcnt_release r = if r.refcnt == 0 then (a_e_inval, r) else (
  a_ok,
  record r {
    refcnt = r.refcnt - 1;
    destroyed = if (r.refcnt - 1 == 0) && r.destructor then r.destroyed + 1 else r.destroyed;
  },
)

unfoldable pub refcnt_check : RefCnt → Result × Bool
refcnt_check r = (a_ok, not (r.refcnt == 0))
