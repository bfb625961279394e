-- ===== src/Tsl/RefCnt/Laws.antt =====
-- What a sequence of calls on one reference count of tsl/refcnt.h comes to.
use tsl_sdr.Prelude.{
  ℕ, zero, suc, ◌+◌, ◌-◌, ◌%◌, ◌^◌, ◌<◌, ◌≡◌, refl, Bool, false, ◌&&◌, List, [], ◌∷◌, length, ◌==◌,
  if◌then◌else◌, arith,
}
use tsl_sdr.Tsl.Result.{Result, a_ok, a_e_inval}
use tsl_sdr.Tsl.RefCnt.Ops.{RefCnt, refcnt_init, refcnt_get, refcnt_release}

pub data Use : Type 0 where
  get release : Use

unfoldable pub use_once : RefCnt → Use → Result × RefCnt
use_once r get = refcnt_get r
use_once r release = refcnt_release r

unfoldable pub use_all : RefCnt → List Use → List Result × RefCnt
use_all r [] = ([], r)
use_all r (u ∷ us) =
    let (code, r') = use_once r u in let (codes, last) = use_all r' us in (code ∷ codes, last)

-- The references that are left of `n`; with none left the object stays dead.
unfoldable pub left_of : (n : ℕ) → List Use → ℕ
left_of n [] = n
left_of zero (u ∷ us) = left_of zero us
left_of (suc n) (get ∷ us) = left_of (suc (suc n)) us
left_of (suc n) (release ∷ us) = left_of n us

unfoldable pub codes_of : (n : ℕ) → List Use → List Result
codes_of n [] = []
codes_of zero (u ∷ us) = a_e_inval ∷ codes_of zero us
codes_of (suc n) (get ∷ us) = a_ok ∷ codes_of (suc (suc n)) us
codes_of (suc n) (release ∷ us) = a_ok ∷ codes_of n us

-- The count at `n`, its destructor called once if that is 0.
abbrev pub counting : (destructor : Bool) → ℕ → RefCnt
counting destructor n = record {
  destructor = destructor;
  refcnt = n;
  destroyed = if (n == 0) && destructor then 1 else 0;
}

not_zero : (n : ℕ) → (suc n == 0) ≡ false
not_zero n = ground arith

get-counting :
    (d : Bool) (n : ℕ)
    → suc (suc n) < 2 ^ 32
    → use_once (counting d (suc n)) get ≡ (a_ok, counting d (suc (suc n)))
unfolding use_once refcnt_get
get-counting d n small =
    let whole : (suc n + 1) % 2 ^ 32 ≡ suc (suc n) = omega arith in
    rw (not_zero n, whole, not_zero (suc n))

release-counting : (d : Bool) (n : ℕ) → use_once (counting d (suc n)) release ≡ (a_ok, counting d n)
unfolding use_once refcnt_release
release-counting d n = let one_less : suc n - 1 ≡ n = omega arith in rw (not_zero n, one_less)

dead-counting : (d : Bool) (u : Use) → use_once (counting d 0) u ≡ (a_e_inval, counting d 0)
unfolding use_once refcnt_get refcnt_release
dead-counting d get = refl
dead-counting d release = refl

use_all-counting :
    (d : Bool) (n : ℕ) (us : List Use)
    → n + length us < 2 ^ 32
    → use_all (counting d n) us ≡ (codes_of n us, counting d (left_of n us))
unfolding use_all codes_of left_of
use_all-counting d n [] small = refl
use_all-counting d zero (u ∷ us) small =
    rw (dead-counting d u, use_all-counting d zero us (omega arith))
use_all-counting d (suc n) (get ∷ us) small =
    rw (get-counting d n (omega arith), use_all-counting d (suc (suc n)) us (omega arith))
use_all-counting d (suc n) (release ∷ us) small =
    rw (release-counting d n, use_all-counting d n us (omega arith))

-- After fewer than 2^32 - 1 calls on a new object, in any order, the count is the number of
-- references left; a call succeeds exactly while there is one, and the destructor has been called
-- once if there is none left, and else not at all.
pub use_all-refcnt_init :
    (d : Bool) (us : List Use)
    → 1 + length us < 2 ^ 32
    → use_all (refcnt_init d).1 us ≡ (codes_of 1 us, counting d (left_of 1 us))
unfolding refcnt_init
use_all-refcnt_init d us small = use_all-counting d 1 us small
