-- ===== src/Tsl/RefCnt/Examples.antt =====
-- Reference counts of tsl/refcnt.h at work.
use tsl_sdr.Prelude.{◌≡◌, refl, true, List, [], ◌∷◌, arith}
use tsl_sdr.Tsl.Result.{a_ok, a_e_inval}
use tsl_sdr.Tsl.RefCnt.Ops.{refcnt_init}
use tsl_sdr.Tsl.RefCnt.Laws.{
  Use, get, release, use_all, left_of, codes_of, counting, use_all-refcnt_init,
}
use tsl_sdr.Tsl.RefCnt.Threads.{got, released, System, Reach, start}
use tsl_sdr.Tsl.RefCnt.Race.{counted, OnlyTwo, release-lost, get-revived}

abbrev uses : List Use
uses = get ∷ release ∷ get ∷ release ∷ release ∷ get ∷ release ∷ []

use_all-refcnt_init_example :
    use_all (refcnt_init true).1 uses ≡ (codes_of 1 uses, counting true (left_of 1 uses))
use_all-refcnt_init_example = use_all-refcnt_init true uses (omega arith)

refused_once_dead : codes_of 1 uses ≡ a_ok ∷ a_ok ∷ a_ok ∷ a_ok ∷ a_ok ∷ a_e_inval ∷ a_e_inval ∷ []
unfolding codes_of
refused_once_dead = refl

release-lost_example :
    (t : System) × Reach (start (counted true 2 0)) t
    × (t.pc 0 ≡ released a_ok)
    × (t.pc 1 ≡ released a_ok)
    × OnlyTwo t
    × (t.ref ≡ counted true 1 0)
release-lost_example = release-lost true 0 0 (omega arith)

get-revived_example :
    (t : System) × Reach (start (counted true 1 0)) t
    × (t.pc 0 ≡ got a_e_inval)
    × (t.pc 1 ≡ released a_ok)
    × OnlyTwo t
    × (t.ref ≡ counted true 1 1)
get-revived_example = get-revived true 0
