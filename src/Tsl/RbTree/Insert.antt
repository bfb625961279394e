-- ===== src/Tsl/RbTree/Insert.antt =====
-- `rb_tree_insert`, `rb_tree_find_or_insert` and `__helper_rb_tree_insert_rebalance` of
-- tsl/rbtree.c.
use tsl_sdr.Prelude.{ℕ, zero, suc, Bool, true, false, not, ◌==◌, ◌&&◌, if◌then◌else◌}
use tsl_sdr.Tsl.Result.{Result, a_ok, a_e_busy}
use tsl_sdr.Tsl.RbTree.Heap.{
  Ptr, Color, black, red, Sign, lower, same, higher, Cmd, pure, no_fuel, abort, ◌>>=◌, ◌>>◌, skip,
  load, set_left, set_right, set_parent, set_key, set_color, get_root, set_root, set_rightmost,
  is_black_at,
}
use tsl_sdr.Tsl.RbTree.Rotate.{rotate_left, rotate_right, get_grandparent}

-- Cases 2 and 3: the uncle is black. `inner` is the rotation of the parent where the node is the
-- inner grandchild, `outer` that of the grandparent.
unfoldable pub rotate_cases : (uncle_is_left : Bool) → (pnode parent : Ptr) → Cmd Ptr
rotate_cases uncle_is_left pnode parent = do
  np ← load parent
  pnode ←
      if not uncle_is_left && (np.right == pnode)
      then (do rotate_left parent; pure parent)
      else if uncle_is_left && (np.left == pnode)
      then (do rotate_right parent; pure parent)
      else pure pnode
  n ← load pnode
  set_color n.parent black
  grandparent ← get_grandparent pnode
  set_color grandparent red
  if uncle_is_left then rotate_left grandparent else rotate_right grandparent
  pure pnode

-- `assert(pnode->color == COLOR_RED)`
abbrev assert_red : Color → Cmd (Unit {0})
assert_red red = skip
assert_red black = abort

-- One round of the loop for a node with a red parent: the node to go on with.
unfoldable pub rebalance_round : (pnode parent : Ptr) → Cmd Ptr
unfolding rotate_cases
rebalance_round pnode parent = do
  grandparent ← get_grandparent pnode
  n ← load pnode
  assert_red n.color
  ng ← load grandparent
  let uncle_is_left = not (parent == ng.left)
  let uncle = if uncle_is_left then ng.left else ng.right
  uncle_black ← is_black_at uncle
  if uncle_black then rotate_cases uncle_is_left pnode parent else do
    set_color parent black
    set_color uncle black
    set_color grandparent red
    pure grandparent

unfoldable pub rebalance_loop : ℕ → Ptr → Cmd (Unit {0})
unfolding rebalance_round
rebalance_loop zero pnode = no_fuel
rebalance_loop (suc fuel) pnode = do
  root ← get_root
  if root == pnode then skip else do
    n ← load pnode
    if n.parent == 0 then skip else do
      np ← load n.parent
      elim np.color [
        | black ↦ skip
        | red ↦ (do next ← rebalance_round pnode n.parent; rebalance_loop fuel next)
      ]

unfoldable pub insert_rebalance : ℕ → Ptr → Cmd (Unit {0})
unfolding rebalance_loop
insert_rebalance fuel node = do
  n ← load node
  if n.parent == 0 then skip else do
    np ← load n.parent
    elim np.color [
      | black ↦ skip
      | red ↦ (do rebalance_loop fuel node; root ← get_root; set_color root black)
    ]

-- Where the descent of `rb_tree_insert` ends: at a node with the key, or below one that has none
-- on the side of the key, where the new node has been linked. `rightmost` is the flag of the source.
pub data Descent : Type 0 where
  taken : Descent
  linked : (nd : Ptr) → (rightmost : Bool) → Descent

unfoldable pub descend : (Ptr → Ptr → Sign) → ℕ → (node nd : Ptr) → (rightmost : Bool) → Cmd Descent
descend compare zero node nd rightmost = no_fuel
descend compare (suc fuel) node nd rightmost = do
  n ← load nd
  nn ← load node
  elim (compare nn.key n.key) [
    | same ↦ pure taken
    | lower ↦
        if n.left == 0
        then (do set_left nd node; pure (linked nd false))
        else descend compare fuel node n.left false
    | higher ↦
        if n.right == 0
        then (do set_right nd node; pure (linked nd rightmost))
        else descend compare fuel node n.right rightmost
  ]

unfoldable pub finish_insert : ℕ → (node : Ptr) → Descent → Cmd Result
unfolding insert_rebalance
finish_insert fuel node taken = pure a_e_busy
finish_insert fuel node (linked nd rightmost) = do
  set_parent node nd
  if rightmost then set_rightmost node else skip
  insert_rebalance fuel node
  pure a_ok

unfoldable pub rb_tree_insert : (Ptr → Ptr → Sign) → ℕ → (key node : Ptr) → Cmd Result
unfolding descend finish_insert
rb_tree_insert compare fuel key node = do
  set_left node 0
  set_right node 0
  set_parent node 0
  set_key node key
  root ← get_root
  if root == 0 then (do set_root node; set_rightmost node; set_color node black; pure a_ok) else (do
    set_color node red
    end ← descend compare fuel node root true
    finish_insert fuel node end)

-- The descent of `rb_tree_find_or_insert`: the node with the key, or 0, the last node seen, and
-- whether the last turn was to the right, and all turns were.
pub record Found : Type 0 where
  pub node : Ptr
  pub previous : Ptr
  pub dir : Bool
  pub rightmost : Bool

unfoldable pub find_place : (Ptr → Ptr → Sign) → ℕ → (key : Ptr) → Found → Cmd Found
find_place compare zero key f = no_fuel
find_place compare (suc fuel) key f = if f.node == 0 then pure f else do
  n ← load f.node
  elim (compare key n.key) [
    | lower ↦
        find_place compare fuel key
          (record { node = n.left; previous = f.node; dir = false; rightmost = false })
    | same ↦ pure f
    | higher ↦
        find_place compare fuel key
          (record { node = n.right; previous = f.node; dir = true; rightmost = f.rightmost })
  ]

-- The node with the key: the candidate, if there was none.
unfoldable pub rb_tree_find_or_insert :
    (Ptr → Ptr → Sign) → ℕ → (key candidate : Ptr) → Cmd (Result × Ptr)
unfolding find_place insert_rebalance
rb_tree_find_or_insert compare fuel key candidate = do
  set_key candidate key
  root ← get_root
  if root == 0
      then (do
        set_root candidate
        set_rightmost candidate
        set_color candidate black
        pure (a_ok, candidate))
      else (do
        f ←
            find_place compare fuel key
              (record { node = root; previous = 0; dir = false; rightmost = true })
        if not (f.node == 0) then pure (a_ok, f.node) else do
          if f.dir then set_right f.previous candidate else set_left f.previous candidate
          set_parent candidate f.previous
          set_color candidate red
          if f.rightmost && f.dir then set_rightmost candidate else skip
          insert_rebalance fuel candidate
          pure (a_ok, candidate))
