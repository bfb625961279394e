-- ===== src/Tsl/LinkedList/Add.antt =====
-- Adding an entry to a list of tsl/list.h.
use tsl_sdr.Prelude.{ℕ, ◌≡◌, ◌≢◌, ◌∙◌, List, [], ◌∷◌, ◌++◌}
use tsl_sdr.Tsl.LinkedList.Ops.{Links, update, add_between}
use tsl_sdr.Tsl.LinkedList.Ring.{
  Seg, NotIn, AreDistinct, IsRing, last_of, first_of, update_same, update_other, NotIn-add,
  NotIn-first, NotIn-last, flip, AreDistinct-add,
}
use tsl_sdr.Tsl.LinkedList.Segment.{Seg-frame}

-- `new` is put between `a` and `b`, and nothing else changes.
record Adds (m m' : Links) (new a b : ℕ) : Type 0 where
  next_a : m'.next a ≡ new
  next_new : m'.next new ≡ b
  next_else : (x : ℕ) → x ≢ a → x ≢ new → m'.next x ≡ m.next x
  prev_b : m'.prev b ≡ new
  prev_new : m'.prev new ≡ a
  prev_else : (x : ℕ) → x ≢ b → x ≢ new → m'.prev x ≡ m.prev x

Adds-add_between :
    (m : Links) (new a b : ℕ) → new ≢ a → new ≢ b → Adds m (add_between new a b m) new a b
unfolding add_between
Adds-add_between m new a b na nb = record {
  next_a = update_other (update m.next a new) new b a (flip na) ∙ update_same m.next a new;
  next_new = update_same (update m.next a new) new b;
  next_else =
      λ x xa xn. update_other (update m.next a new) new b x xn ∙ update_other m.next a new x xa;
  prev_b = update_same (update m.prev new a) b new;
  prev_new = update_other (update m.prev new a) b new new nb ∙ update_same m.prev new a;
  prev_else =
      λ x xb xn. update_other (update m.prev new a) b new x xb ∙ update_other m.prev new a x xn;
}

Seg-add :
    {m m' : Links} (new p : ℕ) (xs ys : List ℕ) (q : ℕ)
    → Adds m m' new (last_of p xs) (first_of ys q)
    → Seg m p (xs ++ ys) q
    → new ≢ p
    → NotIn new (xs ++ ys)
    → new ≢ q
    → NotIn p (xs ++ ys)
    → AreDistinct (xs ++ ys)
    → NotIn q (xs ++ ys)
    → Seg m' p (xs ++ new ∷ ys) q
unfolding last_of first_of
Seg-add new p [] [] q adds seg np nx nq px dist qx =
    (adds.next_a, adds.prev_new, (adds.next_new, adds.prev_b))
Seg-add new p [] (y ∷ ys) q adds (e, f, seg) np (ny, nys) nq (py, pys) (yys, dist) (qy, qys) = (
  adds.next_a,
  adds.prev_new,
  (
    adds.next_new,
    adds.prev_b,
    Seg-frame p new y new adds.next_else adds.prev_else y ys q (py, pys) (ny, nys) yys (flip qy) nys
        nq seg,
  ),
)
Seg-add new p (x ∷ xs) ys q adds (e, f, seg) np (nx, nxs) nq (px, pxs) (xxs, dist) (qx, qxs) = (
  adds.next_else p (NotIn-last p new x xs ys px pxs) (flip np) ∙ e,
  adds.prev_else x (NotIn-first x new xs ys q xxs (flip qx)) (flip nx) ∙ f,
  Seg-add new x xs ys q adds seg nx nxs nq xxs dist qxs,
)

-- In the list of `head`, an entry that is not of it goes between two that stand side by side.
pub add_between-IsRing :
    (m : Links) (head new : ℕ) (xs ys : List ℕ)
    → IsRing m head (xs ++ ys)
    → new ≢ head
    → NotIn new (xs ++ ys)
    → IsRing (add_between new (last_of head xs) (first_of ys head) m) head (xs ++ new ∷ ys)
add_between-IsRing m head new xs ys ring nh not = record {
  links =
      Seg-add new head xs ys head
        (Adds-add_between m new (last_of head xs) (first_of ys head)
          (NotIn-last new new head xs ys nh not) (NotIn-first new new xs ys head not nh))
        ring.links nh not nh ring.apart ring.distinct ring.apart;
  apart = NotIn-add head new xs ys (flip nh) ring.apart;
  distinct = AreDistinct-add new xs ys not ring.distinct;
}
