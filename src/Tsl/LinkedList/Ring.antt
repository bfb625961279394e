-- ===== src/Tsl/LinkedList/Ring.antt =====
-- Memory that holds a list of tsl/list.h.
use tsl_sdr.Prelude.{ℕ, ◌≡◌, ◌≢◌, refl, sym, false, true, List, [], ◌∷◌, ◌++◌, ◌==◌, arith}
use tsl_sdr.Tsl.LinkedList.Ops.{Links, update}

-- From the entry `p` on, the entries `xs` in order, and then `q`: each is the next of the one
-- before, which is its previous one.
abbrev pub Seg : Links → ℕ → List ℕ → ℕ → Type 0
Seg m p [] q = (m.next p ≡ q) × (m.prev q ≡ p)
Seg m p (x ∷ xs) q = (m.next p ≡ x) × (m.prev x ≡ p) × Seg m x xs q

abbrev pub NotIn : ℕ → List ℕ → Type 0
NotIn x [] = Unit
NotIn x (y ∷ ys) = (x ≢ y) × NotIn x ys

abbrev pub AreDistinct : List ℕ → Type 0
AreDistinct [] = Unit
AreDistinct (x ∷ xs) = NotIn x xs × AreDistinct xs

-- The list of `head`: its entries are apart from each other and from `head`.
pub record IsRing (m : Links) (head : ℕ) (xs : List ℕ) : Type 0 where
  pub links : Seg m head xs head
  pub apart : NotIn head xs
  pub distinct : AreDistinct xs

unfoldable pub last_of : ℕ → List ℕ → ℕ
last_of p [] = p
last_of p (x ∷ xs) = last_of x xs

unfoldable pub first_of : List ℕ → ℕ → ℕ
first_of [] q = q
first_of (x ∷ xs) q = x

pub update_same : (f : ℕ → ℕ) (p v : ℕ) → update f p v p ≡ v
update_same f p v = let same : (p == p) ≡ true = ground arith in rw same refl

pub update_other : (f : ℕ → ℕ) (p v x : ℕ) → x ≢ p → update f p v x ≡ f x
update_other f p v x ne = let other : (x == p) ≡ false = ground arith in rw other refl

-- What is true of a list without an entry, and with one.
module _ (x new : ℕ) where
  pub NotIn-add : (xs ys : List ℕ) → x ≢ new → NotIn x (xs ++ ys) → NotIn x (xs ++ new ∷ ys)
  NotIn-add [] ys ne not = (ne, not)
  NotIn-add (y ∷ xs) ys ne (other, not) = (other, NotIn-add xs ys ne not)

  pub NotIn-remove : (xs ys : List ℕ) → NotIn x (xs ++ new ∷ ys) → (x ≢ new) × NotIn x (xs ++ ys)
  NotIn-remove [] ys (ne, not) = (ne, not)
  NotIn-remove (y ∷ xs) ys (other, not) =
      let (ne, rest) = NotIn-remove xs ys not in (ne, (other, rest))

  pub NotIn-first : (xs ys : List ℕ) (q : ℕ) → NotIn x (xs ++ ys) → x ≢ q → x ≢ first_of ys q
  unfolding first_of
  NotIn-first [] [] q not ne = ne
  NotIn-first [] (y ∷ ys) q (other, not) ne = other
  NotIn-first (y ∷ xs) ys q (other, not) ne = NotIn-first xs ys q not ne

  pub NotIn-last : (p : ℕ) (xs ys : List ℕ) → x ≢ p → NotIn x (xs ++ ys) → x ≢ last_of p xs
  unfolding last_of
  NotIn-last p [] ys ne not = ne
  NotIn-last p (y ∷ xs) ys ne (other, not) = NotIn-last y xs ys other not

pub flip : {a b : ℕ} → a ≢ b → b ≢ a
flip ne e = ne (sym e)

pub AreDistinct-add :
    (new : ℕ) (xs ys : List ℕ)
    → NotIn new (xs ++ ys)
    → AreDistinct (xs ++ ys)
    → AreDistinct (xs ++ new ∷ ys)
AreDistinct-add new [] ys not dist = (not, dist)
AreDistinct-add new (x ∷ xs) ys (ne, not) (out, dist) =
    (NotIn-add x new xs ys (flip ne) out, AreDistinct-add new xs ys not dist)

pub AreDistinct-remove :
    (new : ℕ) (xs ys : List ℕ) → AreDistinct (xs ++ new ∷ ys) → AreDistinct (xs ++ ys)
AreDistinct-remove new [] ys (out, dist) = dist
AreDistinct-remove new (x ∷ xs) ys (out, dist) =
    ((NotIn-remove x new xs ys out).1, AreDistinct-remove new xs ys dist)

-- The entry that is taken out is not among the others.
pub NotIn-others : (new : ℕ) (xs ys : List ℕ) → AreDistinct (xs ++ new ∷ ys) → NotIn new (xs ++ ys)
NotIn-others new [] ys (out, dist) = out
NotIn-others new (x ∷ xs) ys (out, dist) =
    (flip (NotIn-remove x new xs ys out).0, NotIn-others new xs ys dist)
