-- ===== src/Tsl/RbTree/Shape.antt =====
-- Trees as the memory of tsl/rbtree.c represents them: which nodes stand where, in what order.
use tsl_sdr.Prelude.{ℕ, suc, ◌+◌, ◌≡◌, ◌≢◌, ◌⊎◌, inl, inr, refl, List, [], ◌∷◌, ◌++◌}
use tsl_sdr.Tsl.RbTree.Heap.{Ptr, Sign, lower, same, higher, Node}

-- The addresses of a binary tree's nodes.
pub data Shape : Type 0 where
  leaf : Shape
  branch : (node : Ptr) → (l r : Shape) → Shape

abbrev pub height : Shape → ℕ
height leaf = 0
height (branch q l r) = suc (height l + height r)

-- `p` points at a tree of this shape.
abbrev pub IsTree : (Ptr → Node) → Ptr → Shape → Type 0
IsTree h p leaf = p ≡ 0
IsTree h p (branch q l r) = (p ≡ q) × (q ≢ 0) × IsTree h (h q).left l × IsTree h (h q).right r

abbrev pub In : Ptr → Shape → Type 0
In x leaf = ⊥
In x (branch q l r) = (x ≡ q) ⊎ (In x l ⊎ In x r)

-- The nodes from left to right.
abbrev pub in_order : Shape → List Ptr
in_order leaf = []
in_order (branch q l r) = in_order l ++ q ∷ in_order r

module _ (compare : Ptr → Ptr → Sign) (h : Ptr → Node) where
  -- Smaller keys stand to the left and greater ones to the right.
  abbrev pub IsOrdered : Shape → Type 0
  IsOrdered leaf = Unit
  IsOrdered (branch q l r) =
      ((x : Ptr) → In x l → compare (h x).key (h q).key ≡ lower)
      × ((x : Ptr) → In x r → compare (h x).key (h q).key ≡ higher)
      × IsOrdered l
      × IsOrdered r

-- Keys that compare as the same compare alike with every key.
abbrev pub IsConsistent : (Ptr → Ptr → Sign) → Type 0
IsConsistent compare = (a b c : Ptr) → compare a b ≡ same → compare a c ≡ compare b c

pub Sign-cases : (s : Sign) → (s ≡ lower) ⊎ ((s ≡ same) ⊎ (s ≡ higher))
Sign-cases lower = inl refl
Sign-cases same = inr (inl refl)
Sign-cases higher = inr (inr refl)
