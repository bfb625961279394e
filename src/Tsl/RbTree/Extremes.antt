-- ===== src/Tsl/RbTree/Extremes.antt =====
-- The walks of tsl/rbtree.c to the least and the greatest node of a tree.
use mathlib.Core.List.{append_assoc}
use tsl_sdr.Prelude.{
  ℕ, zero, suc, ◌<◌, ◌≡◌, ◌≢◌, refl, sym, ap, ◌∙◌, List, [], ◌∷◌, ◌++◌, ◌==◌, false, arith,
}
use tsl_sdr.Tsl.RbTree.Heap.{Ptr, Rb, ok, load, ◌>>=◌}
use tsl_sdr.Tsl.RbTree.Walk.{find_minimum, find_maximum}
use tsl_sdr.Tsl.RbTree.Shape.{Shape, leaf, branch, height, IsTree, in_order}

module _ (s : Rb) where
  find_minimum-last :
      (fuel q : ℕ) → q ≢ 0 → (s.node q).left ≡ 0 → find_minimum (suc fuel) q s ≡ ok q s
  unfolding find_minimum
  find_minimum-last fuel q ne e =
      let some_node : (q == 0) ≡ false = ground arith in rw (load, ◌>>=◌, some_node, e)

  find_minimum-next :
      (fuel q : ℕ)
      → q ≢ 0
      → (s.node q).left ≢ 0
      → find_minimum (suc fuel) q s ≡ find_minimum fuel (s.node q).left s
  unfolding find_minimum
  find_minimum-next fuel q ne e =
      let some_node : (q == 0) ≡ false = ground arith in
      let goes_on : ((s.node q).left == 0) ≡ false = ground arith in
      rw (load, ◌>>=◌, some_node, goes_on)

  find_maximum-last :
      (fuel q : ℕ) → q ≢ 0 → (s.node q).right ≡ 0 → find_maximum (suc fuel) q s ≡ ok q s
  unfolding find_maximum
  find_maximum-last fuel q ne e =
      let some_node : (q == 0) ≡ false = ground arith in rw (load, ◌>>=◌, some_node, e)

  find_maximum-next :
      (fuel q : ℕ)
      → q ≢ 0
      → (s.node q).right ≢ 0
      → find_maximum (suc fuel) q s ≡ find_maximum fuel (s.node q).right s
  unfolding find_maximum
  find_maximum-next fuel q ne e =
      let some_node : (q == 0) ≡ false = ground arith in
      let goes_on : ((s.node q).right == 0) ≡ false = ground arith in
      rw (load, ◌>>=◌, some_node, goes_on)

  -- From the root of a tree, given more rounds than it has nodes, the walk to the left ends at the
  -- first of its nodes in order, and changes nothing.
  find_minimum-in_order :
      (fuel q : ℕ) (l r : Shape)
      → IsTree s.node q (branch q l r)
      → height (branch q l r) < fuel
      → (first : Ptr) × (rest : List Ptr) × (find_minimum fuel q s ≡ ok first s)
        × (in_order (branch q l r) ≡ first ∷ rest)
  find_minimum-in_order zero q l r tree enough = absurd (omega arith)
  find_minimum-in_order (suc fuel) q leaf r (here, ne, left, right) enough =
      (q, in_order r, find_minimum-last fuel q ne left, refl)
  find_minimum-in_order (suc fuel) q (branch a ll lr) r (here, ne, left, right) enough =
      let linked : (s.node q).left ≡ a = left.0 in
      let (first, rest, runs, order) =
        find_minimum-in_order fuel a ll lr (refl, left.1, left.2, left.3) (omega arith) in
      (
        first,
        rest ++ q ∷ in_order r,
        find_minimum-next fuel q ne (λ e. left.1 (sym linked ∙ e))
            ∙ ap (λ (x : ℕ). find_minimum fuel x s) linked
            ∙ runs,
        ap (λ l. l ++ q ∷ in_order r) order,
      )

  -- From the root of a tree, given more rounds than it has nodes, the walk to the right ends at the
  -- last of its nodes in order, and changes nothing.
  find_maximum-in_order :
      (fuel q : ℕ) (l r : Shape)
      → IsTree s.node q (branch q l r)
      → height (branch q l r) < fuel
      → (front : List Ptr) × (last : Ptr) × (find_maximum fuel q s ≡ ok last s)
        × (in_order (branch q l r) ≡ front ++ last ∷ [])
  find_maximum-in_order zero q l r tree enough = absurd (omega arith)
  find_maximum-in_order (suc fuel) q l leaf (here, ne, left, right) enough =
      (in_order l, q, find_maximum-last fuel q ne right, refl)
  find_maximum-in_order (suc fuel) q l (branch a rl rr) (here, ne, left, right) enough =
      let linked : (s.node q).right ≡ a = right.0 in
      let (front, last, runs, order) =
        find_maximum-in_order fuel a rl rr (refl, right.1, right.2, right.3) (omega arith) in
      (
        in_order l ++ q ∷ front,
        last,
        find_maximum-next fuel q ne (λ e. right.1 (sym linked ∙ e))
            ∙ ap (λ (x : ℕ). find_maximum fuel x s) linked
            ∙ runs,
        ap (λ t. in_order l ++ q ∷ t) order
            ∙ sym (append_assoc (in_order l) (q ∷ front) (last ∷ [])),
      )

  -- From the root of a tree, with more rounds than it has nodes, the walk to the left ends at the
  -- first of its nodes in order and the walk to the right at the last, and neither changes memory.
  pub extremes-in_order :
      (fuel q : ℕ) (l r : Shape)
      → IsTree s.node q (branch q l r)
      → height (branch q l r) < fuel
      → (first : Ptr) × (rest : List Ptr) × (front : List Ptr) × (last : Ptr) × (find_minimum fuel q
            s
          ≡ ok first s)
        × (find_maximum fuel q s ≡ ok last s)
        × (in_order (branch q l r) ≡ first ∷ rest)
        × (in_order (branch q l r) ≡ front ++ last ∷ [])
  extremes-in_order fuel q l r tree enough =
      let (first, rest, left_runs, left_order) = find_minimum-in_order fuel q l r tree enough in
      let (front, last, right_runs, right_order) = find_maximum-in_order fuel q l r tree enough in
      (first, rest, front, last, left_runs, right_runs, left_order, right_order)
