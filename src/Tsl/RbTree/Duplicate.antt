-- ===== src/Tsl/RbTree/Duplicate.antt =====
-- `rb_tree_insert` of tsl/rbtree.c with a key that the tree has.
use mathlib.Core.Path.{subst}
use tsl_sdr.Prelude.{
  ℕ, zero, suc, ◌<◌, ◌≡◌, ◌≢◌, refl, sym, ap, ◌∙◌, inl, inr, ◌==◌, Bool, true, false, arith,
}
use tsl_sdr.Tsl.Result.{a_e_busy}
use tsl_sdr.Tsl.RbTree.Heap.{Ptr, red, Sign, lower, same, higher, Node, Rb, ok, write}
use tsl_sdr.Tsl.RbTree.Insert.{taken, descend, finish_insert, rb_tree_insert}
use tsl_sdr.Tsl.RbTree.Shape.{
  Shape, leaf, branch, height, IsTree, In, IsOrdered, IsConsistent, Sign-cases,
}
use tsl_sdr.Tsl.RbTree.Find.{lower-ne-same, higher-ne-same, lower-ne-higher, excluded}
use tsl_sdr.Tsl.RbTree.Frame.{IsTree-frame, IsOrdered-frame}
use tsl_sdr.Tsl.RbTree.First.{
  changed, load-ok, set_left-ok, set_right-ok, set_parent-ok, set_key-ok, set_color-ok, fresh_node,
}

-- A tree with a node has a root.
IsTree-In : (h : Ptr → Node) (p x : Ptr) (shape : Shape) → IsTree h p shape → In x shape → p ≢ 0
IsTree-In h p x leaf tree inside = absurd inside
IsTree-In h p x (branch q l r) (here, ne, left, right) inside = λ e. ne (sym here ∙ e)

module _ (compare : Ptr → Ptr → Sign) (s : Rb) (node : Ptr) (ne_node : node ≢ 0) where
  -- One turn of the descent.
  descend-same :
      (fuel q : ℕ) (flag : Bool)
      → q ≢ 0
      → compare (s.node node).key (s.node q).key ≡ same
      → descend compare (suc fuel) node q flag s ≡ ok taken s
  unfolding descend
  descend-same fuel q flag ne e = rw (load-ok q ne s, load-ok node ne_node s, e)

  descend-lower :
      (fuel q : ℕ) (flag : Bool)
      → q ≢ 0
      → (s.node q).left ≢ 0
      → compare (s.node node).key (s.node q).key ≡ lower
      → descend compare (suc fuel) node q flag s ≡ descend compare fuel node (s.node q).left false s
  unfolding descend
  descend-lower fuel q flag ne child e =
      let more : ((s.node q).left == 0) ≡ false = ground arith in
      rw (load-ok q ne s, load-ok node ne_node s, e, more)

  descend-higher :
      (fuel q : ℕ) (flag : Bool)
      → q ≢ 0
      → (s.node q).right ≢ 0
      → compare (s.node node).key (s.node q).key ≡ higher
      → descend compare (suc fuel) node q flag s ≡ descend compare fuel node (s.node q).right flag s
  unfolding descend
  descend-higher fuel q flag ne child e =
      let more : ((s.node q).right == 0) ≡ false = ground arith in
      rw (load-ok q ne s, load-ok node ne_node s, e, more)

  -- The descent for a key that the node `x` of the tree has ends there.
  descend-taken :
      (fuel p x : ℕ) (shape : Shape) (flag : Bool)
      → IsConsistent compare
      → IsTree s.node p shape
      → IsOrdered compare s.node shape
      → height shape < fuel
      → In x shape
      → compare (s.node node).key (s.node x).key ≡ same
      → descend compare fuel node p flag s ≡ ok taken s
  descend-taken zero p x shape flag consistent tree ordered enough inside e = absurd (omega arith)
  descend-taken (suc fuel) p x leaf flag consistent tree ordered enough inside e = absurd inside
  descend-taken (suc fuel) p x (branch q l r) flag consistent (here, ne, left, right)
        (below, above, ol, or) enough inside e =
      let key = (s.node node).key in
      elim (Sign-cases (compare key (s.node q).key)) [
        | inl less ↦ elim inside [
          | inl at_q ↦ absurd (lower-ne-same (sym less ∙ rw (← at_q) e))
          | inr (inl in_l) ↦ rw here (
              descend-lower fuel q flag ne (IsTree-In s.node (s.node q).left x l left in_l) less
              ∙ descend-taken fuel (s.node q).left x l false consistent left ol (omega arith) in_l
                  e)
          | inr (inr in_r) ↦ absurd (
              excluded compare consistent key s lower higher q x lower-ne-higher less (above x in_r)
                e)
        ]
        | inr (inl equal) ↦ rw here (descend-same fuel q flag ne equal)
        | inr (inr more) ↦ elim inside [
          | inl at_q ↦ absurd (higher-ne-same (sym more ∙ rw (← at_q) e))
          | inr (inl in_l) ↦ absurd (
              excluded compare consistent key s higher lower q x (λ f. lower-ne-higher (sym f)) more
                (below x in_l) e)
          | inr (inr in_r) ↦ rw here (
              descend-higher fuel q flag ne (IsTree-In s.node (s.node q).right x r right in_r) more
              ∙ descend-taken fuel (s.node q).right x r flag consistent right or (omega arith) in_r
                  e)
        ]
      ]

-- What `rb_tree_insert` has written when the descent begins.
abbrev prepared : (key node : Ptr) → Rb → Rb
prepared key node s = changed node (λ n. record n { color = red }) (fresh_node key node s)

prepared-other :
    (key node : Ptr) (s : Rb) (x : Ptr) → x ≢ node → s.node x ≡ (prepared key node s).node x
unfolding write
prepared-other key node s x ne = let other : (x == node) ≡ false = ground arith in rw other refl

prepared-key : (key node : Ptr) (s : Rb) → ((prepared key node s).node node).key ≡ key
unfolding write
prepared-key key node s = let itself : (node == node) ≡ true = ground arith in rw itself refl

rb_tree_insert-taken :
    (compare : Ptr → Ptr → Sign) (fuel key node : Ptr) (s : Rb)
    → node ≢ 0
    → s.root ≢ 0
    → descend compare fuel node s.root true (prepared key node s) ≡ ok taken (prepared key node s)
    → rb_tree_insert compare fuel key node s ≡ ok a_e_busy (prepared key node s)
unfolding rb_tree_insert finish_insert
rb_tree_insert-taken compare fuel key node s ne some_node ends =
    let s1 = changed node (λ n. record n { left = 0 }) s in
    let s2 = changed node (λ n. record n { right = 0 }) s1 in
    let s3 = changed node (λ n. record n { parent = 0 }) s2 in
    let some_root : (s.root == 0) ≡ false = ground arith in
    rw (
      set_left-ok node ne s 0,
      set_right-ok node ne s1 0,
      set_parent-ok node ne s2 0,
      set_key-ok node ne s3 key,
      some_root,
      set_color-ok node ne (fresh_node key node s) red,
      ends,
    )

-- Inserting a node that is not in the tree under a key that the tree has, given more rounds than the
-- tree has nodes, ends with A_E_BUSY; the root, the rightmost node and the memory of every other
-- node are as before.
pub rb_tree_insert-busy :
    (compare : Ptr → Ptr → Sign) (fuel key node x : Ptr) (s : Rb) (shape : Shape)
    → IsConsistent compare
    → IsTree s.node s.root shape
    → IsOrdered compare s.node shape
    → height shape < fuel
    → node ≢ 0
    → ¬ In node shape
    → In x shape
    → compare key (s.node x).key ≡ same
    → (t : Rb) × (rb_tree_insert compare fuel key node s ≡ ok a_e_busy t)
      × (t.root ≡ s.root)
      × (t.rightmost ≡ s.rightmost)
      × ((p : Ptr) → p ≢ node → s.node p ≡ t.node p)
rb_tree_insert-busy compare fuel key node x s shape consistent tree ordered enough ne out inside e =
    let t = prepared key node s in
    let agree : (p : Ptr) → In p shape → s.node p ≡ t.node p =
      λ p i. prepared-other key node s p (λ f. out (subst (λ (q : Ptr). In q shape) f i)) in
    let same_key : compare (t.node node).key (t.node x).key ≡ same =
      ap (λ k. compare k (t.node x).key) (prepared-key key node s)
      ∙ ap (λ (n : Node). compare key n.key) (sym (agree x inside))
      ∙ e in
    let ends =
      descend-taken compare t node ne fuel s.root x shape true consistent
        (IsTree-frame s.node t.node s.root shape agree tree)
        (IsOrdered-frame s.node t.node compare shape agree ordered) enough inside same_key in
    (
      t,
      rb_tree_insert-taken compare fuel key node s ne (IsTree-In s.node s.root x shape tree inside)
          ends,
      refl,
      refl,
      prepared-other key node s,
    )
