-- ===== src/Tsl/LinkedList/Examples.antt =====
-- A list of tsl/list.h with a few entries.
use tsl_sdr.Prelude.{ℕ, ◌≡◌, refl, false, ◌≢◌, ◌==◌, if◌then◌else◌, some, List, [], ◌∷◌, arith}
use tsl_sdr.Tsl.LinkedList.Checked.{list_debug-checked}
use tsl_sdr.Tsl.LinkedList.Ops.{
  aborted, Links, list_init, list_for_each, list_splice, list_splice_after, list_debug_append,
  list_debug_prepend, list_debug_insert_at,
}
use tsl_sdr.Tsl.LinkedList.Splice.{AreApart, splices-IsRing}
use tsl_sdr.Tsl.LinkedList.Calls.{Call, append, prepend, insert_at, del}
use tsl_sdr.Tsl.LinkedList.Ring.{IsRing}
use tsl_sdr.Tsl.LinkedList.Run.{meant_all, AreFair, perform_all, perform_all-list_for_each}

abbrev calls : List Call
calls = append 10 ∷ append 20 ∷ prepend 30 ∷ insert_at 10 40 ∷ del 20 ∷ []

meant_calls : meant_all calls [] ≡ 30 ∷ 10 ∷ 40 ∷ []
meant_calls = refl

ne : (a b : ℕ) → (a == b) ≡ false → a ≢ b
ne a b h = ground arith

AreFair-calls : AreFair 1 calls []
AreFair-calls = (
  (ne 10 1 refl, tt),
  (
    (ne 20 1 refl, (ne 20 10 refl, tt)),
    (
      (ne 30 1 refl, (ne 30 10 refl, (ne 30 20 refl, tt))),
      ((ne 40 1 refl, (ne 40 30 refl, (ne 40 10 refl, (ne 40 20 refl, tt))), refl), (refl, tt)),
    ),
  ),
)

abbrev blank : Links
blank = record { prev = λ _. 0; next = λ _. 0 }

perform_all-list_for_each_example :
    IsRing (perform_all 1 calls (list_init 1 blank)) 1 (30 ∷ 10 ∷ 40 ∷ [])
    × (list_for_each 4 1
          ((perform_all 1 calls (list_init 1 blank)).next 1)
          (perform_all 1 calls (list_init 1 blank))
        ≡ some (30 ∷ 10 ∷ 40 ∷ []))
perform_all-list_for_each_example =
    perform_all-list_for_each blank 1 calls 4 AreFair-calls (omega arith)

-- The list of 1 with the entries 10 and 20, and the list of 2 with 30 and 40.
abbrev two_lists : Links
two_lists = record {
  next = λ x.
      if x == 1
      then 10
      else if x == 10
      then 20
      else if x == 20
      then 1
      else if x == 2
      then 30
      else if x == 30
      then 40
      else 2;
  prev = λ x.
      if x == 1
      then 20
      else if x == 10
      then 1
      else if x == 20
      then 10
      else if x == 2
      then 40
      else if x == 30
      then 2
      else 30;
}

two_lists-IsRing : IsRing two_lists 1 (10 ∷ 20 ∷ [])
two_lists-IsRing = record {
  links = (refl, refl, (refl, refl, (refl, refl)));
  apart = (ne 1 10 refl, (ne 1 20 refl, tt));
  distinct = ((ne 10 20 refl, tt), (tt, tt));
}

two_lists-IsRing_second : IsRing two_lists 2 (30 ∷ 40 ∷ [])
two_lists-IsRing_second = record {
  links = (refl, refl, (refl, refl, (refl, refl)));
  apart = (ne 2 30 refl, (ne 2 40 refl, tt));
  distinct = ((ne 30 40 refl, tt), (tt, tt));
}

AreApart-two_lists : AreApart (1 ∷ 10 ∷ 20 ∷ []) (30 ∷ 40 ∷ [])
AreApart-two_lists = (
  (ne 1 30 refl, (ne 1 40 refl, tt)),
  ((ne 10 30 refl, (ne 10 40 refl, tt)), ((ne 20 30 refl, (ne 20 40 refl, tt)), tt)),
)

splices-IsRing_example :
    IsRing (list_splice 2 1 two_lists) 1 (30 ∷ 40 ∷ 10 ∷ 20 ∷ [])
    × IsRing (list_splice_after 2 1 two_lists) 1 (10 ∷ 20 ∷ 30 ∷ 40 ∷ [])
splices-IsRing_example =
    splices-IsRing two_lists 1 2 (10 ∷ 20 ∷ []) (30 ∷ 40 ∷ []) two_lists-IsRing
      two_lists-IsRing_second AreApart-two_lists

list_debug-checked_example :
    (list_debug_append 3 1 20 two_lists ≡ aborted)
    × (list_debug_prepend 3 1 20 two_lists ≡ aborted)
    × (list_debug_insert_at 3 1 10 20 two_lists ≡ aborted)
list_debug-checked_example =
    list_debug-checked two_lists 1 10 20 (10 ∷ 20 ∷ []) 3 two_lists-IsRing (omega arith)
