-- ===== src/Tsl/LinkedList/Splice.antt =====
-- The splices of tsl/list.h.
use tsl_sdr.Prelude.{ℕ, ◌≡◌, ◌≢◌, sym, ◌∙◌, true, false, List, [], ◌∷◌, ◌++◌, ◌==◌, arith}
use mathlib.Core.List.{append-nil}
use mathlib.Core.Path.{subst}
use tsl_sdr.Tsl.LinkedList.Ops.{
  Links, update, list_empty, splice_between, list_splice, list_splice_after,
}
use tsl_sdr.Tsl.LinkedList.Ring.{
  Seg, NotIn, AreDistinct, IsRing, last_of, first_of, update_same, update_other, NotIn-first, flip,
}
use tsl_sdr.Tsl.LinkedList.Segment.{Seg-frame, Seg-ends}

-- No entry of the one list is in the other.
abbrev pub AreApart : List ℕ → List ℕ → Type 0
AreApart [] ys = Unit
AreApart (x ∷ xs) ys = NotIn x ys × AreApart xs ys

AreApart-last : (p : ℕ) (xs ys : List ℕ) → AreApart (p ∷ xs) ys → NotIn (last_of p xs) ys
unfolding last_of
AreApart-last p [] ys (out, _) = out
AreApart-last p (x ∷ xs) ys (_, outs) = AreApart-last x xs ys outs

AreApart-cons :
    (xs : List ℕ) (y : ℕ) (ys : List ℕ) → NotIn y xs → AreApart xs ys → AreApart xs (y ∷ ys)
AreApart-cons [] y ys out apart = tt
AreApart-cons (x ∷ xs) y ys (ne, out) (now, later) =
    ((flip ne, now), AreApart-cons xs y ys out later)

AreApart-nil : (xs : List ℕ) → AreApart xs []
AreApart-nil [] = tt
AreApart-nil (x ∷ xs) = (tt, AreApart-nil xs)

AreApart-sym : (xs ys : List ℕ) → AreApart xs ys → AreApart ys xs
AreApart-sym [] ys apart = AreApart-nil ys
AreApart-sym (x ∷ xs) ys (out, apart) = AreApart-cons ys x xs out (AreApart-sym xs ys apart)

NotIn-last_of : (x p : ℕ) (xs : List ℕ) → x ≢ p → NotIn x xs → x ≢ last_of p xs
unfolding last_of
NotIn-last_of x p [] ne out = ne
NotIn-last_of x p (y ∷ xs) ne (other, out) = NotIn-last_of x y xs other out

NotIn-append : (x : ℕ) (xs ys : List ℕ) → NotIn x xs → NotIn x ys → NotIn x (xs ++ ys)
NotIn-append x [] ys out also = also
NotIn-append x (y ∷ xs) ys (ne, out) also = (ne, NotIn-append x xs ys out also)

AreDistinct-append :
    (xs ys : List ℕ) → AreDistinct xs → AreDistinct ys → AreApart xs ys → AreDistinct (xs ++ ys)
AreDistinct-append [] ys one two apart = two
AreDistinct-append (x ∷ xs) ys (out, one) two (now, later) =
    (NotIn-append x xs ys out now, AreDistinct-append xs ys one two later)

-- Two segments that meet in an entry.
Seg-join :
    (m : Links) (p : ℕ) (xs : List ℕ) (z : ℕ) (ys : List ℕ) (q : ℕ)
    → Seg m p xs z
    → Seg m z ys q
    → Seg m p (xs ++ z ∷ ys) q
Seg-join m p [] z ys q (e, f) two = (e, f, two)
Seg-join m p (x ∷ xs) z ys q (e, f, one) two = (e, f, Seg-join m x xs z ys q one two)

-- A segment whose last entry is led to another end.
Seg-turn :
    {m m' : Links} (w z z' p : ℕ) (xs : List ℕ) (q r : ℕ)
    → ((x : ℕ) → x ≢ last_of p xs → x ≢ w → m'.next x ≡ m.next x)
    → ((x : ℕ) → x ≢ z → x ≢ z' → m'.prev x ≡ m.prev x)
    → m'.next (last_of p xs) ≡ r
    → m'.prev r ≡ last_of p xs
    → NotIn w (p ∷ xs)
    → NotIn z xs
    → NotIn z' xs
    → AreDistinct (p ∷ xs)
    → Seg m p xs q
    → Seg m' p xs r
unfolding last_of
Seg-turn w z z' p [] q r n v e f wp zs z's dist seg = (e, f)
Seg-turn w z z' p (x ∷ xs) q r n v e f (wp, ws) (zx, zs) (z'x, z's) ((px, pxs), dist) (g, h, seg) =
    (
      n p (NotIn-last_of p x xs px pxs) (flip wp) ∙ g,
      v x (flip zx) (flip z'x) ∙ h,
      Seg-turn w z z' x xs q r n v e f ws zs z's dist seg,
    )

-- The entries from `f` to `l` are put between `a` and `b`, and nothing else changes.
record Splices (m m' : Links) (a b f l : ℕ) : Type 0 where
  next_a : m'.next a ≡ f
  next_l : m'.next l ≡ b
  next_else : (x : ℕ) → x ≢ a → x ≢ l → m'.next x ≡ m.next x
  prev_f : m'.prev f ≡ a
  prev_b : m'.prev b ≡ l
  prev_else : (x : ℕ) → x ≢ f → x ≢ b → m'.prev x ≡ m.prev x

Splices-splice_between :
    (m : Links) (list a b f l : ℕ)
    → m.next list ≡ f
    → m.prev list ≡ l
    → a ≢ l
    → f ≢ b
    → Splices m (splice_between list a b m) a b f l
unfolding splice_between
Splices-splice_between m list a b f l first last al fb =
    rw (first, last)
      (record {
        next_a = update_other (update m.next a f) l b a al ∙ update_same m.next a f;
        next_l = update_same (update m.next a f) l b;
        next_else =
            λ x xa xl. update_other (update m.next a f) l b x xl ∙ update_other m.next a f x xa;
        prev_f = update_other (update m.prev f a) b l f fb ∙ update_same m.prev f a;
        prev_b = update_same (update m.prev f a) b l;
        prev_else =
            λ x xf xb. update_other (update m.prev f a) b l x xb ∙ update_other m.prev f a x xf;
      })

-- The list of `list` has entries, and none of them is of the list of `head`.
module _ (m : Links) (list z : ℕ) (zs : List ℕ) (other : IsRing m list (z ∷ zs)) where
  last-NotIn : (ws : List ℕ) → AreApart ws (z ∷ zs) → NotIn (last_of z zs) ws
  last-NotIn ws apart = AreApart-last z zs ws (AreApart-sym ws (z ∷ zs) apart)

  first-NotIn : (ws : List ℕ) → AreApart ws (z ∷ zs) → NotIn z ws
  first-NotIn ws apart = (AreApart-sym ws (z ∷ zs) apart).0

  moved_last : m.prev list ≡ last_of z zs
  unfolding last_of
  moved_last = (Seg-ends m list (z ∷ zs) list other.links).1

  Seg-before :
      {m' : Links} (head : ℕ) (xs : List ℕ)
      → IsRing m head xs
      → AreApart (head ∷ xs) (z ∷ zs)
      → Splices m m' head (first_of xs head) z (last_of z zs)
      → Seg m' head (z ∷ zs ++ xs) head
  unfolding first_of
  Seg-before {m'} head [] ring apart s =
      let turned =
        Seg-turn head z head z zs list head (λ x xl xh. s.next_else x xh xl) s.prev_else s.next_l
          s.prev_b apart.0 other.distinct.0 apart.0.1 other.distinct other.links.2 in
      (s.next_a, s.prev_f, subst (λ l. Seg m' z l head) (sym (append-nil zs)) turned)
  Seg-before {m'} head (w ∷ ws) ring apart s =
      let last = last-NotIn (w ∷ ws) apart.1 in
      let first = first-NotIn (w ∷ ws) apart.1 in
      (
        s.next_a,
        s.prev_f,
        Seg-join m' z zs w ws head
            (Seg-turn head z w z zs list w (λ x xl xh. s.next_else x xh xl) s.prev_else s.next_l
              s.prev_b apart.0 other.distinct.0 apart.1.0.1 other.distinct other.links.2)
            (Seg-frame head (last_of z zs) z w s.next_else s.prev_else w ws head ring.apart last
              first.1 (flip apart.0.0) ring.distinct.0 (flip ring.apart.0) ring.links.2),
      )

  Seg-after :
      {m' : Links} (head : ℕ) (xs : List ℕ)
      → IsRing m head xs
      → AreApart (head ∷ xs) (z ∷ zs)
      → Splices m m' (last_of head xs) head z (last_of z zs)
      → Seg m' head (xs ++ z ∷ zs) head
  Seg-after {m'} head xs ring apart s =
      Seg-join m' head xs z zs head
        (Seg-turn (last_of z zs) z head head xs head z s.next_else s.prev_else s.next_a s.prev_f
          (last-NotIn (head ∷ xs) apart) (first-NotIn xs apart.1) ring.apart
          (ring.apart, ring.distinct) ring.links)
        (Seg-turn (last_of head xs) z head z zs list head (λ x xl xa. s.next_else x xa xl)
          s.prev_else s.next_l s.prev_b (AreApart-last head xs (z ∷ zs) apart) other.distinct.0
          apart.0.1 other.distinct other.links.2)

  module _ (head : ℕ) (xs : List ℕ) (ring : IsRing m head xs)
      (apart : AreApart (head ∷ xs) (z ∷ zs)) where
    Splices-before :
        Splices m
          (splice_between list head (m.next head) m)
          head
          (first_of xs head)
          z
          (last_of z zs)
    unfolding first_of
    Splices-before = rw ((Seg-ends m head xs head ring.links).0) (
        Splices-splice_between m list head (first_of xs head) z (last_of z zs) other.links.0
          moved_last (flip (last-NotIn (head ∷ xs) apart).0)
          (NotIn-first z z [] xs head (first-NotIn xs apart.1) (flip apart.0.0)))

    Splices-after :
        Splices m (splice_between list (m.prev head) head m) (last_of head xs) head z (last_of z zs)
    Splices-after =
        let last = last-NotIn (head ∷ xs) apart in
        rw ((Seg-ends m head xs head ring.links).1) (
          Splices-splice_between m list (last_of head xs) head z (last_of z zs) other.links.0
            moved_last (flip (NotIn-last_of (last_of z zs) head xs last.0 last.1)) (flip apart.0.0))

    splice_between-IsRing :
        IsRing (splice_between list head (m.next head) m) head (z ∷ zs ++ xs)
        × IsRing (splice_between list (m.prev head) head m) head (xs ++ z ∷ zs)
    splice_between-IsRing = (
      record {
        links = Seg-before head xs ring apart Splices-before;
        apart = NotIn-append head (z ∷ zs) xs apart.0 ring.apart;
        distinct =
            AreDistinct-append (z ∷ zs) xs other.distinct ring.distinct
              (AreApart-sym xs (z ∷ zs) apart.1);
      },
      record {
        links = Seg-after head xs ring apart Splices-after;
        apart = NotIn-append head xs (z ∷ zs) ring.apart apart.0;
        distinct = AreDistinct-append xs (z ∷ zs) ring.distinct other.distinct apart.1;
      },
    )

-- Given two lists of which the second has no entry that is the first's head or one of its entries,
-- `list_splice` makes the first list begin with the second's entries, in order, before its own, and
-- `list_splice_after` makes it end with them, with the links of both directions; an empty second
-- list adds nothing.
pub splices-IsRing :
    (m : Links) (head list : ℕ) (xs ys : List ℕ)
    → IsRing m head xs
    → IsRing m list ys
    → AreApart (head ∷ xs) ys
    → IsRing (list_splice list head m) head (ys ++ xs)
      × IsRing (list_splice_after list head m) head (xs ++ ys)
unfolding list_splice list_splice_after list_empty
splices-IsRing m head list xs [] ring other apart =
    let none_there : (m.next list == list) ≡ true = ground arith in
    rw none_there (ring, subst (IsRing m head) (sym (append-nil xs)) ring)
splices-IsRing m head list xs (z ∷ zs) ring other apart =
    let some_there : (m.next list == list) ≡ false = ground arith in
    rw some_there (splice_between-IsRing m list z zs other head xs ring apart)
