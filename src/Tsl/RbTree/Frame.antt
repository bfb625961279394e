-- ===== src/Tsl/RbTree/Frame.antt =====
-- A tree in memory is the same tree in any memory that agrees with it on the tree's nodes.
use mathlib.Core.Path.{subst}
use tsl_sdr.Prelude.{◌≡◌, refl, inl, inr}
use tsl_sdr.Tsl.RbTree.Heap.{Ptr, Sign, Node}
use tsl_sdr.Tsl.RbTree.Shape.{Shape, leaf, branch, IsTree, In, IsOrdered}

module _ (h h' : Ptr → Node) where
  pub IsTree-frame :
      (p : Ptr) (shape : Shape)
      → ((x : Ptr) → In x shape → h x ≡ h' x)
      → IsTree h p shape
      → IsTree h' p shape
  IsTree-frame p leaf agree tree = tree
  IsTree-frame p (branch q l r) agree (here, ne, left, right) =
      let same = agree q (inl refl) in
      (
        here,
        ne,
        subst (λ (n : Node). IsTree h' n.left l) same
            (IsTree-frame (h q).left l (λ x i. agree x (inr (inl i))) left),
        subst (λ (n : Node). IsTree h' n.right r) same
            (IsTree-frame (h q).right r (λ x i. agree x (inr (inr i))) right),
      )

  pub IsOrdered-frame :
      (compare : Ptr → Ptr → Sign) (shape : Shape)
      → ((x : Ptr) → In x shape → h x ≡ h' x)
      → IsOrdered compare h shape
      → IsOrdered compare h' shape
  IsOrdered-frame compare leaf agree ordered = tt
  IsOrdered-frame compare (branch q l r) agree (below, above, ol, or) = (
    λ x i. rw (← agree x (inr (inl i)), ← agree q (inl refl)) (below x i),
    λ x i. rw (← agree x (inr (inr i)), ← agree q (inl refl)) (above x i),
    IsOrdered-frame compare l (λ x i. agree x (inr (inl i))) ol,
    IsOrdered-frame compare r (λ x i. agree x (inr (inr i))) or,
  )
