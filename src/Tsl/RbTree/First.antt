-- ===== src/Tsl/RbTree/First.antt =====
-- The first insertion into a tree, by each of the two functions of tsl/rbtree.c.
use tsl_sdr.Prelude.{◌≡◌, ◌≢◌, refl, sym, ◌∙◌, true, false, ◌==◌, arith}
use tsl_sdr.Tsl.Result.{a_ok}
use tsl_sdr.Tsl.RbTree.Heap.{
  Ptr, Color, black, Sign, Node, Rb, ok, load, store, write, set_left, set_right, set_parent,
  set_key, set_color,
}
use tsl_sdr.Tsl.RbTree.Insert.{rb_tree_insert, rb_tree_find_or_insert}
use tsl_sdr.Tsl.RbTree.Shape.{leaf, branch, IsTree}

-- The memory after a write to a field of the node at `p`.
abbrev pub changed : Ptr → (Node → Node) → Rb → Rb
changed p f s = record s { node = write s.node p (f (s.node p)) }

module _ (p : Ptr) (ne : p ≢ 0) (s : Rb) where
  some_node : (p == 0) ≡ false
  some_node = ground arith

  pub load-ok : load p s ≡ ok (s.node p) s
  unfolding load
  load-ok = rw some_node

  pub set_left-ok : (q : Ptr) → set_left p q s ≡ ok tt (changed p (λ n. record n { left = q }) s)
  unfolding set_left
  set_left-ok q = rw (load, store, some_node)

  pub set_right-ok : (q : Ptr) → set_right p q s ≡ ok tt (changed p (λ n. record n { right = q }) s)
  unfolding set_right
  set_right-ok q = rw (load, store, some_node)

  pub set_parent-ok :
      (q : Ptr) → set_parent p q s ≡ ok tt (changed p (λ n. record n { parent = q }) s)
  unfolding set_parent
  set_parent-ok q = rw (load, store, some_node)

  pub set_key-ok : (k : Ptr) → set_key p k s ≡ ok tt (changed p (λ n. record n { key = k }) s)
  unfolding set_key
  set_key-ok k = rw (load, store, some_node)

  pub set_color-ok :
      (c : Color) → set_color p c s ≡ ok tt (changed p (λ n. record n { color = c }) s)
  unfolding set_color
  set_color-ok c = rw (load, store, some_node)

write_self : (h : Ptr → Node) (p : Ptr) (n : Node) → write h p n p ≡ n
unfolding write
write_self h p n = let itself : (p == p) ≡ true = ground arith in rw itself

-- What `rb_tree_insert` writes into the node before it looks at the tree.
abbrev pub fresh_node : (key node : Ptr) → Rb → Rb
fresh_node key node s =
    changed node (λ n. record n { key = key })
      (changed node (λ n. record n { parent = 0 })
        (changed node (λ n. record n { right = 0 }) (changed node (λ n. record n { left = 0 }) s)))

-- A tree whose only node is `node`, black, in memory that is otherwise as in `s`.
abbrev only_node : Ptr → Rb → Rb
only_node node s =
    changed node (λ n. record n { color = black }) (record s { root = node; rightmost = node })

rb_tree_insert-only_node :
    (compare : Ptr → Ptr → Sign) (fuel key node : Ptr) (s : Rb)
    → s.root ≡ 0
    → node ≢ 0
    → rb_tree_insert compare fuel key node s ≡ ok a_ok (only_node node (fresh_node key node s))
unfolding rb_tree_insert
rb_tree_insert-only_node compare fuel key node s empty ne =
    let s1 = changed node (λ n. record n { left = 0 }) s in
    let s2 = changed node (λ n. record n { right = 0 }) s1 in
    let s3 = changed node (λ n. record n { parent = 0 }) s2 in
    let s4 = fresh_node key node s in
    let s5 : Rb = record s4 { root = node; rightmost = node } in
    rw (
      set_left-ok node ne s 0,
      set_right-ok node ne s1 0,
      set_parent-ok node ne s2 0,
      set_key-ok node ne s3 key,
      empty,
      set_color-ok node ne s5 black,
    )

rb_tree_find_or_insert-only_node :
    (compare : Ptr → Ptr → Sign) (fuel key node : Ptr) (s : Rb)
    → s.root ≡ 0
    → node ≢ 0
    → rb_tree_find_or_insert compare fuel key node s
      ≡ ok (a_ok, node) (only_node node (changed node (λ n. record n { key = key }) s))
unfolding rb_tree_find_or_insert
rb_tree_find_or_insert-only_node compare fuel key node s empty ne =
    let s1 = changed node (λ n. record n { key = key }) s in
    rw (
      set_key-ok node ne s key,
      empty,
      set_color-ok node ne (record s1 { root = node; rightmost = node }) black,
    )

-- The first insertion by `rb_tree_insert` leaves a tree of one black node that has the key and no
-- parent, whatever the node held, and it is the rightmost node.
rb_tree_insert-IsTree :
    (compare : Ptr → Ptr → Sign) (fuel key node : Ptr) (s : Rb)
    → s.root ≡ 0
    → node ≢ 0
    → (t : Rb) × (rb_tree_insert compare fuel key node s ≡ ok a_ok t)
      × IsTree t.node t.root (branch node leaf leaf)
      × ((t.node node).color ≡ black)
      × ((t.node node).key ≡ key)
      × ((t.node node).parent ≡ 0)
      × (t.rightmost ≡ node)
unfolding write
rb_tree_insert-IsTree compare fuel key node s empty ne =
    let itself : (node == node) ≡ true = ground arith in
    (
      only_node node (fresh_node key node s),
      rb_tree_insert-only_node compare fuel key node s empty ne,
      (refl, ne, rw itself refl, rw itself refl),
      rw itself refl,
      rw itself refl,
      rw itself refl,
      refl,
    )

-- The first insertion by `rb_tree_find_or_insert` keeps the child pointer that the candidate came
-- with: unless it was NULL, the memory is not the tree of this one node.
pub rb_tree_find_or_insert-not-IsTree :
    (compare : Ptr → Ptr → Sign) (fuel key node : Ptr) (s : Rb)
    → s.root ≡ 0
    → node ≢ 0
    → (s.node node).left ≢ 0
    → (t : Rb) × (rb_tree_find_or_insert compare fuel key node s ≡ ok (a_ok, node) t)
      × (t.root ≡ node)
      × ((t.node node).left ≡ (s.node node).left)
      × (¬ IsTree t.node t.root (branch node leaf leaf))
unfolding write
rb_tree_find_or_insert-not-IsTree compare fuel key node s empty ne stale =
    let itself : (node == node) ≡ true = ground arith in
    let kept : ((only_node node (changed node (λ n. record n { key = key }) s)).node node).left
        ≡ (s.node node).left =
      rw itself refl in
    (
      only_node node (changed node (λ n. record n { key = key }) s),
      rb_tree_find_or_insert-only_node compare fuel key node s empty ne,
      refl,
      kept,
      λ tree. stale (sym kept ∙ tree.2),
    )
