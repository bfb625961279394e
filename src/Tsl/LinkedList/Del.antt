-- ===== src/Tsl/LinkedList/Del.antt =====
-- Taking an entry out of a list of tsl/list.h.
use tsl_sdr.Prelude.{ℕ, ◌≡◌, ◌≢◌, ◌∙◌, List, [], ◌∷◌, ◌++◌}
use tsl_sdr.Tsl.LinkedList.Ops.{
  Links, update, list_poison_next, list_poison_prev, del_between, list_del,
}
use tsl_sdr.Tsl.LinkedList.Ring.{
  Seg, NotIn, AreDistinct, IsRing, last_of, first_of, update_same, update_other, NotIn-remove,
  NotIn-first, NotIn-last, flip, AreDistinct-remove, NotIn-others,
}
use tsl_sdr.Tsl.LinkedList.Segment.{Seg-frame, Seg-neighbours}

-- `old` between `a` and `b` is passed over, and nothing else changes but its own links.
record Dels (m m' : Links) (old a b : ℕ) : Type 0 where
  next_a : m'.next a ≡ b
  next_else : (x : ℕ) → x ≢ a → x ≢ old → m'.next x ≡ m.next x
  prev_b : m'.prev b ≡ a
  prev_else : (x : ℕ) → x ≢ b → x ≢ old → m'.prev x ≡ m.prev x

Dels-list_del :
    (m : Links) (old a b : ℕ)
    → m.prev old ≡ a
    → m.next old ≡ b
    → old ≢ a
    → old ≢ b
    → Dels m (list_del old m) old a b
unfolding list_del del_between
Dels-list_del m old a b e f na nb =
    rw (e, f)
      (record {
        next_a =
            update_other (update m.next a b) old list_poison_next a (flip na)
            ∙ update_same m.next a b;
        next_else = λ x xa xo.
            update_other (update m.next a b) old list_poison_next x xo
            ∙ update_other m.next a b x xa;
        prev_b =
            update_other (update m.prev b a) old list_poison_prev b (flip nb)
            ∙ update_same m.prev b a;
        prev_else = λ x xb xo.
            update_other (update m.prev b a) old list_poison_prev x xo
            ∙ update_other m.prev b a x xb;
      })

Seg-del :
    {m m' : Links} (old p : ℕ) (xs ys : List ℕ) (q : ℕ)
    → Dels m m' old (last_of p xs) (first_of ys q)
    → Seg m p (xs ++ old ∷ ys) q
    → old ≢ p
    → NotIn old (xs ++ ys)
    → old ≢ q
    → NotIn p (xs ++ ys)
    → AreDistinct (xs ++ ys)
    → NotIn q (xs ++ ys)
    → Seg m' p (xs ++ ys) q
unfolding last_of first_of
Seg-del old p [] [] q dels seg np nx nq px dist qx = (dels.next_a, dels.prev_b)
Seg-del old p [] (y ∷ ys) q dels (e, f, (g, h, seg)) np (ny, nys) nq (py, pys) (yys, dist)
      (qy, qys) =
    (
      dels.next_a,
      dels.prev_b,
      Seg-frame p old y old dels.next_else dels.prev_else y ys q (py, pys) (ny, nys) yys (flip qy)
          nys nq seg,
    )
Seg-del old p (x ∷ xs) ys q dels (e, f, seg) np (nx, nxs) nq (px, pxs) (xxs, dist) (qx, qxs) = (
  dels.next_else p (NotIn-last p old x xs ys px pxs) (flip np) ∙ e,
  dels.prev_else x (NotIn-first x old xs ys q xxs (flip qx)) (flip nx) ∙ f,
  Seg-del old x xs ys q dels seg nx nxs nq xxs dist qxs,
)

-- An entry of the list of `head` is taken out.
pub list_del-IsRing :
    (m : Links) (head old : ℕ) (xs ys : List ℕ)
    → IsRing m head (xs ++ old ∷ ys)
    → IsRing (list_del old m) head (xs ++ ys)
list_del-IsRing m head old xs ys ring =
    let (hn, apart) = NotIn-remove head old xs ys ring.apart in
    let oh = flip hn in
    let out = NotIn-others old xs ys ring.distinct in
    let dist = AreDistinct-remove old xs ys ring.distinct in
    let (before, after) = Seg-neighbours m head xs old ys head ring.links in
    record {
      links =
          Seg-del old head xs ys head
            (Dels-list_del m old (last_of head xs) (first_of ys head) before after
              (NotIn-last old old head xs ys oh out) (NotIn-first old old xs ys head out oh))
            ring.links oh out oh apart dist apart;
      apart = apart;
      distinct = dist;
    }
