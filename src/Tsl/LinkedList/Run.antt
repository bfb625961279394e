-- ===== src/Tsl/LinkedList/Run.antt =====
-- The functions of tsl/list.h on the list of an entry do what they say on a list of addresses.
use mathlib.Core.Path.{subst, subst₂}
use tsl_sdr.Prelude.{
  ℕ, zero, suc, ◌<◌, ◌≡◌, ◌≢◌, refl, sym, ap, ◌∙◌, true, false, some, List, [], ◌∷◌, ◌++◌, length,
  ◌==◌, arith,
}
use mathlib.Core.List.{append-nil}
use tsl_sdr.Tsl.LinkedList.Calls.{
  Call, append, prepend, insert_at, del, perform, insert_after, remove, meant, has, IsFair,
  has-Split,
}
use tsl_sdr.Tsl.LinkedList.Ops.{
  list_for_each, Links, add_between, list_init, list_insert_at, list_append, list_prepend, list_del,
}
use tsl_sdr.Tsl.LinkedList.Ring.{Seg, NotIn, IsRing, last_of, first_of, update_same}
use tsl_sdr.Tsl.LinkedList.Segment.{Seg-neighbours, Seg-ends}
use tsl_sdr.Tsl.LinkedList.Add.{add_between-IsRing}
use tsl_sdr.Tsl.LinkedList.Del.{list_del-IsRing}

one_on : (xs : List ℕ) (x : ℕ) (ys : List ℕ) → (xs ++ x ∷ []) ++ ys ≡ xs ++ x ∷ ys
one_on [] x ys = refl
one_on (w ∷ xs) x ys = ap (λ l. w ∷ l) (one_on xs x ys)

last_of-append : (p : ℕ) (xs : List ℕ) (x : ℕ) → last_of p (xs ++ x ∷ []) ≡ x
unfolding last_of
last_of-append p [] x = refl
last_of-append p (w ∷ xs) x = last_of-append w xs x

module _ (m : Links) (head : ℕ) (xs : List ℕ) (ring : IsRing m head xs) where
  list_append-IsRing :
      (new : ℕ) → new ≢ head → NotIn new xs → IsRing (list_append head new m) head (xs ++ new ∷ [])
  unfolding list_append first_of
  list_append-IsRing new nh not =
      let all = sym (append-nil xs) in
      let last = (Seg-ends m head xs head ring.links).1 in
      rw last (
        add_between-IsRing m head new xs [] (subst (IsRing m head) all ring) nh
          (subst (NotIn new) all not))

  list_prepend-IsRing :
      (new : ℕ) → new ≢ head → NotIn new xs → IsRing (list_prepend head new m) head (new ∷ xs)
  unfolding list_prepend last_of
  list_prepend-IsRing new nh not =
      let first = (Seg-ends m head xs head ring.links).0 in
      rw first (add_between-IsRing m head new [] xs ring nh not)

  list_insert_at-IsRing :
      (pos new : ℕ)
      → new ≢ head
      → NotIn new xs
      → has pos xs ≡ true
      → IsRing (list_insert_at pos new m) head (insert_after pos new xs)
  unfolding list_insert_at
  list_insert_at-IsRing pos new nh not there =
      let split = has-Split pos xs there in
      let one = sym (one_on split.before pos split.after) in
      let ring' = subst (IsRing m head) split.whole ring in
      let next = (Seg-neighbours m head split.before pos split.after head ring'.links).1 in
      let done =
        add_between-IsRing m head new (split.before ++ pos ∷ []) split.after
          (subst (IsRing m head) one ring') nh (subst (NotIn new) (split.whole ∙ one) not) in
      rw (next, split.insert new)
        (subst₂ (λ p l. IsRing (add_between new p (first_of split.after head) m) head l)
          (last_of-append head split.before pos) (one_on split.before pos (new ∷ split.after)) done)

  list_del-has : (old : ℕ) → has old xs ≡ true → IsRing (list_del old m) head (remove old xs)
  list_del-has old there =
      let split = has-Split old xs there in
      rw split.without (
        list_del-IsRing m head old split.before split.after
          (subst (IsRing m head) split.whole ring))

  perform-IsRing : (c : Call) → IsFair head c xs → IsRing (perform head c m) head (meant c xs)
  unfolding perform
  perform-IsRing (append new) fair = list_append-IsRing new fair.0 fair.1
  perform-IsRing (prepend new) fair = list_prepend-IsRing new fair.0 fair.1
  perform-IsRing (insert_at pos new) fair = list_insert_at-IsRing pos new fair.0 fair.1 fair.2
  perform-IsRing (del old) fair = list_del-has old fair

pub perform_all : (head : ℕ) → List Call → Links → Links
perform_all head [] m = m
perform_all head (c ∷ cs) m = perform_all head cs (perform head c m)

abbrev pub meant_all : List Call → List ℕ → List ℕ
meant_all [] xs = xs
meant_all (c ∷ cs) xs = meant_all cs (meant c xs)

abbrev pub AreFair : (head : ℕ) → List Call → List ℕ → Type 0
AreFair head [] xs = Unit
AreFair head (c ∷ cs) xs = IsFair head c xs × AreFair head cs (meant c xs)

perform_all-IsRing :
    (m : Links) (head : ℕ) (cs : List Call) (xs : List ℕ)
    → IsRing m head xs
    → AreFair head cs xs
    → IsRing (perform_all head cs m) head (meant_all cs xs)
unfolding perform_all
perform_all-IsRing m head [] xs ring fair = ring
perform_all-IsRing m head (c ∷ cs) xs ring (now, later) =
    perform_all-IsRing (perform head c m) head cs (meant c xs) (perform-IsRing m head xs ring c now)
      later

list_init-IsRing : (m : Links) (head : ℕ) → IsRing (list_init head m) head []
unfolding list_init
list_init-IsRing m head = record {
  links = (update_same m.next head head, update_same m.prev head head);
  apart = tt;
  distinct = tt;
}

list_for_each-Seg :
    (m : Links) (head : ℕ) (fuel p : ℕ) (xs : List ℕ)
    → Seg m p xs head
    → NotIn head xs
    → length xs < fuel
    → list_for_each fuel head (m.next p) m ≡ some xs
unfolding list_for_each
list_for_each-Seg m head zero p xs seg out enough = absurd (omega arith)
list_for_each-Seg m head (suc fuel) p [] (e, f) out enough =
    let ends : (m.next p == head) ≡ true = ground arith in rw ends refl
list_for_each-Seg m head (suc fuel) p (x ∷ xs) (e, f, seg) (ne, out) enough =
    let goes_on : (x == head) ≡ false = ground arith in
    rw (e, goes_on, list_for_each-Seg m head fuel x xs seg out (omega arith)) refl

-- After `list_init` of a head and any number of additions before, behind and after an entry and
-- removals, each of an entry that is not listed or is, memory holds the list that the calls mean,
-- in both directions, and `list_for_each` ends after as many rounds as it has entries and comes
-- upon these in order.
pub perform_all-list_for_each :
    (m : Links) (head : ℕ) (cs : List Call) (fuel : ℕ)
    → AreFair head cs []
    → length (meant_all cs []) < fuel
    → IsRing (perform_all head cs (list_init head m)) head (meant_all cs [])
      × (list_for_each fuel head
            ((perform_all head cs (list_init head m)).next head)
            (perform_all head cs (list_init head m))
          ≡ some (meant_all cs []))
perform_all-list_for_each m head cs fuel fair enough =
    let ring = perform_all-IsRing (list_init head m) head cs [] (list_init-IsRing m head) fair in
    (
      ring,
      list_for_each-Seg (perform_all head cs (list_init head m)) head fuel head _ ring.links
          ring.apart enough,
    )
