-- ===== src/Tsl/LinkedList/Calls.antt =====
-- Calls of the functions of tsl/list.h, and what they mean for a list of addresses.
use tsl_sdr.Prelude.{
  ℕ, ◌≡◌, ◌≢◌, refl, sym, ap, inl, inr, Bool, true, false, ◌||◌, Bool-cases, List, [], ◌∷◌, ◌++◌,
  ◌==◌, if◌then◌else◌, arith,
}
use tsl_sdr.Tsl.LinkedList.Ops.{Links, list_insert_at, list_append, list_prepend, list_del}
use tsl_sdr.Tsl.LinkedList.Ring.{NotIn}

pub data Call : Type 0 where
  append prepend : (new : ℕ) → Call
  insert_at : (pos new : ℕ) → Call
  del : (old : ℕ) → Call

unfoldable pub perform : (head : ℕ) → Call → Links → Links
perform head (append new) = list_append head new
perform head (prepend new) = list_prepend head new
perform head (insert_at pos new) = list_insert_at pos new
perform head (del old) = list_del old

-- The calls on a list of addresses.
abbrev pub insert_after : (pos new : ℕ) → List ℕ → List ℕ
insert_after pos new [] = []
insert_after pos new (x ∷ xs) = if pos == x then x ∷ new ∷ xs else x ∷ insert_after pos new xs

abbrev pub remove : ℕ → List ℕ → List ℕ
remove old [] = []
remove old (x ∷ xs) = if old == x then xs else x ∷ remove old xs

abbrev pub meant : Call → List ℕ → List ℕ
meant (append new) xs = xs ++ new ∷ []
meant (prepend new) xs = new ∷ xs
meant (insert_at pos new) xs = insert_after pos new xs
meant (del old) xs = remove old xs

abbrev pub has : ℕ → List ℕ → Bool
has x [] = false
has x (y ∷ ys) = (x == y) || has x ys

-- What is added is not in the list nor its head, and what is named is in it.
abbrev pub IsFair : (head : ℕ) → Call → List ℕ → Type 0
IsFair head (append new) xs = (new ≢ head) × NotIn new xs
IsFair head (prepend new) xs = (new ≢ head) × NotIn new xs
IsFair head (insert_at pos new) xs = (new ≢ head) × NotIn new xs × (has pos xs ≡ true)
IsFair head (del old) xs = has old xs ≡ true

-- The list up to an entry and after it.
pub record Split (x : ℕ) (xs : List ℕ) : Type 0 where
  pub before : List ℕ
  pub after : List ℕ
  pub whole : xs ≡ before ++ x ∷ after
  pub insert : (new : ℕ) → insert_after x new xs ≡ before ++ x ∷ new ∷ after
  pub without : remove x xs ≡ before ++ after

pub has-Split : (x : ℕ) (xs : List ℕ) → has x xs ≡ true → Split x xs
has-Split x [] h = absurd cc
has-Split x (y ∷ ys) h = elim (Bool-cases (x == y)) [
  | inl here ↦
      let same : x ≡ y = ground arith in
      record {
        before = [];
        after = ys;
        whole = ap (λ z. z ∷ ys) (sym same);
        insert = λ new. rw here (ap (λ z. z ∷ new ∷ ys) (sym same));
        without = rw here refl;
      }
  | inr other ↦
      let rest = has-Split x ys (rw other at h) in
      record {
        before = y ∷ rest.before;
        after = rest.after;
        whole = ap (λ l. y ∷ l) rest.whole;
        insert = λ new. rw other (ap (λ l. y ∷ l) (rest.insert new));
        without = rw other (ap (λ l. y ∷ l) rest.without);
      }
]
