-- ===== src/Tsl/LinkedList/Segment.antt =====
-- Parts of a list of tsl/list.h: what they need of memory, and their ends.
use tsl_sdr.Prelude.{ℕ, ◌≡◌, ◌≢◌, ◌∙◌, List, [], ◌∷◌, ◌++◌}
use tsl_sdr.Tsl.LinkedList.Ops.{Links}
use tsl_sdr.Tsl.LinkedList.Ring.{Seg, NotIn, last_of, first_of, flip}

-- Memory that differs at two entries each of `next` and `prev`, none of them of the segment.
pub Seg-frame :
    {m m' : Links} (w w' z z' : ℕ)
    → ((x : ℕ) → x ≢ w → x ≢ w' → m'.next x ≡ m.next x)
    → ((x : ℕ) → x ≢ z → x ≢ z' → m'.prev x ≡ m.prev x)
    → (p : ℕ) (xs : List ℕ) (q : ℕ) → NotIn w (p ∷ xs)
    → NotIn w' (p ∷ xs)
    → NotIn z xs
    → z ≢ q
    → NotIn z' xs
    → z' ≢ q
    → Seg m p xs q
    → Seg m' p xs q
Seg-frame w w' z z' n v p [] q (wp, _) (w'p, _) zs zq z's z'q (e, f) =
    (n p (flip wp) (flip w'p) ∙ e, v q (flip zq) (flip z'q) ∙ f)
Seg-frame w w' z z' n v p (x ∷ xs) q (wp, ws) (w'p, w's) (zx, zs) zq (z'x, z's) z'q (e, f, seg) = (
  n p (flip wp) (flip w'p) ∙ e,
  v x (flip zx) (flip z'x) ∙ f,
  Seg-frame w w' z z' n v x xs q ws w's zs zq z's z'q seg,
)

-- The neighbours of an entry.
pub Seg-neighbours :
    (m : Links) (p : ℕ) (xs : List ℕ) (x : ℕ) (ys : List ℕ) (q : ℕ)
    → Seg m p (xs ++ x ∷ ys) q
    → (m.prev x ≡ last_of p xs) × (m.next x ≡ first_of ys q)
unfolding last_of first_of
Seg-neighbours m p [] x [] q (e, f, (g, h)) = (f, g)
Seg-neighbours m p [] x (y ∷ ys) q (e, f, (g, h, seg)) = (f, g)
Seg-neighbours m p (w ∷ xs) x ys q (e, f, seg) = Seg-neighbours m w xs x ys q seg

-- The ends of a segment.
pub Seg-ends :
    (m : Links) (p : ℕ) (xs : List ℕ) (q : ℕ)
    → Seg m p xs q
    → (m.next p ≡ first_of xs q) × (m.prev q ≡ last_of p xs)
unfolding last_of first_of
Seg-ends m p [] q (e, f) = (e, f)
Seg-ends m p (x ∷ xs) q (e, f, seg) = (e, (Seg-ends m x xs q seg).1)
