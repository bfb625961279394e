-- ===== src/Tsl/RefCnt/Threads.antt =====
-- `refcnt_get` and `refcnt_release` of tsl/refcnt.h by many threads at once: a step is one access to
-- the count.
use tsl_sdr.Prelude.{ℕ, ◌+◌, ◌-◌, ◌%◌, ◌^◌, ◌≡◌, ◌≢◌, ◌==◌, if◌then◌else◌}
use tsl_sdr.Tsl.Result.{Result, a_ok, a_e_inval}
use tsl_sdr.Tsl.RefCnt.Ops.{RefCnt}

-- Where a thread stands, with its locals `initial` and the value that the decrement loaded. `got` and
-- `released` are the returns of `refcnt_get` and of `refcnt_release`; a thread makes one call.
pub data Pc : Type 0 where
  idle : Pc
  get_checked : Pc
  get_read : (initial : ℕ) → Pc
  release_checked : Pc
  release_read : (count : ℕ) → Pc
  release_stored : Pc
  got released : Result → Pc

-- One step. A swap that replaced 0 leaves 0 in `val`, and the loop ends with A_E_INVAL.
pub data Move : RefCnt → Pc → RefCnt → Pc → Type 0 where
  get_check : {r : RefCnt} → r.refcnt ≢ 0 → Move r idle r get_checked
  get_refuse : {r : RefCnt} → r.refcnt ≡ 0 → Move r idle r (got a_e_inval)
  get_load : {r : RefCnt} → Move r get_checked r (get_read r.refcnt)
  get_swap :
      {r : RefCnt} {initial : ℕ}
      → r.refcnt ≡ initial
      → initial ≢ 0
      → Move r (get_read initial) (record r { refcnt = (initial + 1) % 2 ^ 32 }) (got a_ok)
  get_swap_dead :
      {r : RefCnt} {initial : ℕ}
      → r.refcnt ≡ initial
      → initial ≡ 0
      → Move r (get_read initial) (record r { refcnt = (initial + 1) % 2 ^ 32 }) (got a_e_inval)
  get_lose :
      {r : RefCnt} {initial : ℕ}
      → r.refcnt ≢ initial
      → r.refcnt ≢ 0
      → Move r (get_read initial) r get_checked
  get_lose_dead :
      {r : RefCnt} {initial : ℕ}
      → r.refcnt ≢ initial
      → r.refcnt ≡ 0
      → Move r (get_read initial) r (got a_e_inval)
  release_check : {r : RefCnt} → r.refcnt ≢ 0 → Move r idle r release_checked
  release_refuse : {r : RefCnt} → r.refcnt ≡ 0 → Move r idle r (released a_e_inval)
  -- `ref->refcnt--`, which is a load and a store
  release_load : {r : RefCnt} → Move r release_checked r (release_read r.refcnt)
  release_store :
      {r : RefCnt} {count : ℕ}
      → Move r
          (release_read count)
          (record r { refcnt = (count + (2 ^ 32 - 1)) % 2 ^ 32 })
          release_stored
  release_keep : {r : RefCnt} → r.refcnt ≢ 0 → Move r release_stored r (released a_ok)
  release_destroy :
      {r : RefCnt}
      → r.refcnt ≡ 0
      → Move r release_stored
          (record r { destroyed = if r.destructor then r.destroyed + 1 else r.destroyed })
          (released a_ok)

pub record System : Type 0 where
  pub ref : RefCnt
  pub pc : ℕ → Pc

unfoldable pub set_pc : (ℕ → Pc) → ℕ → Pc → ℕ → Pc
set_pc pc i p j = if j == i then p else pc j

pub data Step (s : System) : System → Type 0 where
  pick :
      (i : ℕ) {r : RefCnt} {p : Pc}
      → Move s.ref (s.pc i) r p
      → Step s (record { ref = r; pc = set_pc s.pc i p })

pub data Reach (s : System) : System → Type 0 where
  here : Reach s s
  later : {t u : System} → Reach s t → Step t u → Reach s u

abbrev pub start : RefCnt → System
start r = record { ref = r; pc = λ _. idle }
