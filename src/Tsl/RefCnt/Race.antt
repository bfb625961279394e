-- ===== src/Tsl/RefCnt/Race.antt =====
-- Interleavings of tsl/refcnt.h that its functions do not guard against: the decrement is no atomic
-- operation, and the swap of `refcnt_get` may replace a count that has become 0.
use tsl_sdr.Prelude.{ℕ, suc, ◌+◌, ◌-◌, ◌%◌, ◌^◌, ◌<◌, ◌≡◌, ◌≢◌, refl, Bool, if◌then◌else◌, arith}
use tsl_sdr.Tsl.Result.{a_ok, a_e_inval}
use tsl_sdr.Tsl.RefCnt.Ops.{RefCnt}
use tsl_sdr.Tsl.RefCnt.Threads.{
  idle, got, released, get_check, get_load, get_swap_dead, release_check, release_load,
  release_store, release_keep, release_destroy, System, set_pc, pick, Reach, here, later, start,
}

abbrev pub counted : (destructor : Bool) → (refcnt destroyed : ℕ) → RefCnt
counted destructor refcnt destroyed = record {
  destructor = destructor;
  refcnt = refcnt;
  destroyed = destroyed;
}

-- Every thread but 0 and 1 has not begun a call.
abbrev pub OnlyTwo : System → Type 0
OnlyTwo t = (j : ℕ) → j ≢ 0 → j ≢ 1 → t.pc j ≡ idle

-- Two threads, and no others, that each give up one of `n + 2` references by one call of
-- `refcnt_release` can both be given A_OK and leave a count of `n + 1`, with no destructor called.
pub release-lost :
    (d : Bool) (n destroyed : ℕ)
    → suc (suc n) < 2 ^ 32
    → (t : System) × Reach (start (counted d (suc (suc n)) destroyed)) t
      × (t.pc 0 ≡ released a_ok)
      × (t.pc 1 ≡ released a_ok)
      × OnlyTwo t
      × (t.ref ≡ counted d (suc n) destroyed)
unfolding set_pc
release-lost d n destroyed small =
    let stored : (suc (suc n) + (2 ^ 32 - 1)) % 2 ^ 32 ≡ suc n = omega arith in
    let some_left : suc (suc n) ≢ 0 = λ e. absurd (omega (arith, e)) in
    let kept : (suc (suc n) + (2 ^ 32 - 1)) % 2 ^ 32 ≢ 0 = λ e. absurd (omega (arith, e, stored)) in
    let loaded : Reach (start (counted d (suc (suc n)) destroyed)) _ =
      later
        (later (later (later here (pick 0 (release_check some_left))) (pick 0 release_load))
          (pick 1 (release_check some_left)))
        (pick 1 release_load) in
    (
      _,
      later
          (later (later (later loaded (pick 0 release_store)) (pick 0 (release_keep kept)))
            (pick 1 release_store))
          (pick 1 (release_keep kept)),
      refl,
      refl,
      (λ j not_0 not_1. ground arith),
      rw stored,
    )

-- A thread that asks for a reference by one call of `refcnt_get`, while one other thread gives up the
-- last one by one call of `refcnt_release` and no other thread has called either, can be refused with
-- A_E_INVAL and yet leave a count of 1 on the object, whose destructor, if it has one, has run.
pub get-revived :
    (d : Bool) (destroyed : ℕ)
    → (t : System) × Reach (start (counted d 1 destroyed)) t
      × (t.pc 0 ≡ got a_e_inval)
      × (t.pc 1 ≡ released a_ok)
      × OnlyTwo t
      × (t.ref ≡ counted d 1 (if d then destroyed + 1 else destroyed))
unfolding set_pc
get-revived d destroyed =
    let one : 1 ≢ 0 = λ e. absurd (omega (arith, e)) in
    (
      _,
      later
          (later
            (later
              (later
                (later (later (later here (pick 0 (get_check one))) (pick 1 (release_check one)))
                  (pick 1 release_load))
                (pick 1 release_store))
              (pick 1 (release_destroy refl)))
            (pick 0 get_load))
          (pick 0 (get_swap_dead refl refl)),
      refl,
      refl,
      (λ j not_0 not_1. ground arith),
      refl,
    )
