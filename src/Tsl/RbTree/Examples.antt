-- ===== src/Tsl/RbTree/Examples.antt =====
-- The theorems about tsl/rbtree.c on small trees, with numbers for keys.
use Prim.Native.Nat.{compare, Ordering}
use tsl_sdr.Prelude.{◌≡◌, ◌≢◌, ◌⊎◌, inl, inr, refl, List, [], ◌∷◌, ◌++◌, ◌==◌, if◌then◌else◌, arith}
use tsl_sdr.Tsl.Result.{a_ok, a_e_notfound, a_e_busy}
use tsl_sdr.Tsl.RbTree.Heap.{Ptr, black, red, Sign, lower, same, higher, Rb, ok}
use tsl_sdr.Tsl.RbTree.Walk.{rb_tree_find, find_minimum, find_maximum}
use tsl_sdr.Tsl.RbTree.Insert.{rb_tree_insert, rb_tree_find_or_insert}
use tsl_sdr.Tsl.RbTree.Shape.{Shape, leaf, branch, IsTree, In, IsOrdered, IsConsistent, in_order}
use tsl_sdr.Tsl.RbTree.Find.{Answers, rb_tree_find-Answers}
use tsl_sdr.Tsl.RbTree.Extremes.{extremes-in_order}
use tsl_sdr.Tsl.RbTree.Duplicate.{rb_tree_insert-busy}
use tsl_sdr.Tsl.RbTree.First.{rb_tree_find_or_insert-not-IsTree}

abbrev by_number : Ptr → Ptr → Sign
by_number a b = elim (compare a b) [
  | Ordering.lt ↦ lower
  | Ordering.eq ↦ same
  | Ordering.gt ↦ higher
]

by_number-IsConsistent : IsConsistent by_number
by_number-IsConsistent a b c e = let equal : a ≡ b = ground arith in rw equal

-- The node 2 with the node 1 to its left, each its own key.
abbrev two_nodes : Rb
two_nodes = record {
  root = 2;
  rightmost = 2;
  node = λ p. record {
    left = if p == 2 then 1 else 0;
    right = 0;
    parent = if p == 1 then 2 else 0;
    key = p;
    color = if p == 1 then red else black;
  };
}

abbrev two_shape : Shape
two_shape = branch 2 (branch 1 leaf leaf) leaf

two_nodes-IsTree : IsTree two_nodes.node 2 two_shape
two_nodes-IsTree =
    (refl, λ e. absurd (omega (arith, e)), (refl, λ e. absurd (omega (arith, e)), refl, refl), refl)

nowhere : (x : Ptr) → ⊥ ⊎ ⊥ → ⊥
nowhere x (inl h) = h
nowhere x (inr h) = h

two_nodes-IsOrdered : IsOrdered by_number two_nodes.node two_shape
two_nodes-IsOrdered = (
  λ x h. elim h [ inl at_one ↦ rw at_one refl | inr none ↦ absurd (nowhere x none) ],
  λ x h. absurd h,
  (λ x h. absurd h, λ x h. absurd h, tt, tt),
  tt,
)

rb_tree_find-Answers_example :
    (answer : Ptr) × (rb_tree_find by_number 3 1 two_nodes
      ≡ ok (if answer == 0 then a_e_notfound else a_ok, answer) two_nodes)
    × Answers by_number two_nodes.node 1 two_shape answer
rb_tree_find-Answers_example =
    rb_tree_find-Answers by_number by_number-IsConsistent 1 two_nodes 3 two_shape two_nodes-IsTree
      two_nodes-IsOrdered (omega arith)

-- An empty tree, and nodes that hold remains of an earlier use.
abbrev empty_tree : Rb
empty_tree = record {
  root = 0;
  rightmost = 0;
  node = λ _. record { left = 8; right = 9; parent = 5; key = 0; color = red };
}

rb_tree_find_or_insert-not-IsTree_example :
    (t : Rb) × (rb_tree_find_or_insert by_number 1 7 4 empty_tree ≡ ok (a_ok, 4) t)
    × (t.root ≡ 4)
    × ((t.node 4).left ≡ 8)
    × (¬ IsTree t.node t.root (branch 4 leaf leaf))
rb_tree_find_or_insert-not-IsTree_example =
    rb_tree_find_or_insert-not-IsTree by_number 1 7 4 empty_tree refl
      (λ e. absurd (omega (arith, e))) (λ e. absurd (omega (arith, e)))

extremes-in_order_example :
    (first : Ptr) × (rest : List Ptr) × (front : List Ptr) × (last : Ptr) × (find_minimum 3 2
        two_nodes
      ≡ ok first two_nodes)
    × (find_maximum 3 2 two_nodes ≡ ok last two_nodes)
    × (in_order two_shape ≡ first ∷ rest)
    × (in_order two_shape ≡ front ++ last ∷ [])
extremes-in_order_example =
    extremes-in_order two_nodes 3 2 (branch 1 leaf leaf) leaf two_nodes-IsTree (omega arith)

four-outside : In 4 two_shape → ⊥
four-outside (inl e) = absurd (omega (arith, e))
four-outside (inr (inl (inl e))) = absurd (omega (arith, e))
four-outside (inr (inl (inr none))) = nowhere 4 none
four-outside (inr (inr none)) = none

rb_tree_insert-busy_example :
    (t : Rb) × (rb_tree_insert by_number 3 1 4 two_nodes ≡ ok a_e_busy t)
    × (t.root ≡ 2)
    × (t.rightmost ≡ 2)
    × ((p : Ptr) → p ≢ 4 → two_nodes.node p ≡ t.node p)
rb_tree_insert-busy_example =
    rb_tree_insert-busy by_number 3 1 4 1 two_nodes two_shape by_number-IsConsistent
      two_nodes-IsTree two_nodes-IsOrdered (omega arith) (λ e. absurd (omega (arith, e)))
      four-outside (inr (inl (inl refl))) refl
