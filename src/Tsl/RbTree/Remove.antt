-- ===== src/Tsl/RbTree/Remove.antt =====
-- `rb_tree_remove`, `__helper_rb_tree_swap_node` and `__helper_rb_tree_delete_rebalance` of
-- tsl/rbtree.c.
use tsl_sdr.Prelude.{ℕ, zero, suc, Bool, true, false, not, ◌==◌, ◌&&◌, ◌||◌, if◌then◌else◌}
use tsl_sdr.Tsl.Result.{Result, a_ok}
use tsl_sdr.Tsl.RbTree.Heap.{
  Ptr, black, red, Cmd, pure, no_fuel, ◌>>=◌, ◌>>◌, skip, load, set_left, set_right, set_parent,
  set_color, get_root, set_root, get_rightmost, set_rightmost, is_black_at,
}
use tsl_sdr.Tsl.RbTree.Rotate.{rotate_left, rotate_right}
use tsl_sdr.Tsl.RbTree.Walk.{find_predecessor, find_successor}

-- Replace `x` by `y` in the tree.
unfoldable pub swap_node : (x y : Ptr) → Cmd (Unit {0})
swap_node x y = do
  nx ← load x
  set_parent y nx.parent
  if nx.parent == 0 then (do root ← get_root; if root == x then set_root y else skip) else (do
    np ← load nx.parent
    if np.left == x then set_left nx.parent y else set_right nx.parent y)
  set_right y nx.right
  if nx.right == 0 then skip else set_parent nx.right y
  set_right x 0
  set_left y nx.left
  if nx.left == 0 then skip else set_parent nx.left y
  set_left x 0
  nx ← load x
  set_color y nx.color
  set_parent x 0

-- `p != NULL ? p->left : NULL`, and `->right`
unfoldable pub left_of : Ptr → Cmd Ptr
left_of p = if p == 0 then pure 0 else do n ← load p; pure n.left

unfoldable pub right_of : Ptr → Cmd Ptr
right_of p = if p == 0 then pure 0 else do n ← load p; pure n.right

unfoldable pub sibling : (is_left : Bool) → (xp : Ptr) → Cmd Ptr
sibling is_left xp = do n ← load xp; pure (if is_left then n.right else n.left)

-- Case 1: a red sibling `w` is rotated above `xp`, which gives `x` a black one.
unfoldable pub red_sibling : (is_left : Bool) → (xp w : Ptr) → Cmd Ptr
unfolding sibling
red_sibling is_left xp w = do
  w_black ← is_black_at w
  if w_black then pure w else do
    set_color w black
    set_color xp red
    if is_left then rotate_left xp else rotate_right xp
    sibling is_left xp

-- Cases 3a and 3b: the red child of the sibling is brought to the outside.
unfoldable pub inner_nephew :
    (is_left : Bool) → (xp w wleft wright : Ptr) → (left_black right_black : Bool) → Cmd Ptr
unfolding sibling
inner_nephew is_left xp w wleft wright left_black right_black =
    if is_left && right_black
    then (do
      set_color w red
      if wleft == 0 then skip else set_color wleft black
      rotate_right w
      sibling true xp)
    else if not is_left && left_black
    then (do
      set_color w red
      if wright == 0 then skip else set_color wright black
      rotate_left w
      sibling false xp)
    else pure w

-- Case 4: the sibling takes the place of `xp`, and the tree is balanced.
unfoldable pub outer_nephew : (is_left : Bool) → (xp w : Ptr) → Cmd (Unit {0})
outer_nephew is_left xp w = do
  nw ← load w
  np ← load xp
  set_color w np.color
  set_color xp black
  if is_left && not (nw.right == 0)
      then (do set_color nw.right black; rotate_left xp)
      else if not is_left && not (nw.left == 0)
      then (do set_color nw.left black; rotate_right xp)
      else skip

-- The loop of `__helper_rb_tree_delete_rebalance`; the result is the final `x`.
unfoldable pub delete_loop : ℕ → (x xp : Ptr) → (is_left : Bool) → Cmd Ptr
unfolding red_sibling inner_nephew outer_nephew left_of right_of
delete_loop zero x xp is_left = no_fuel
delete_loop (suc fuel) x xp is_left = do
  root ← get_root
  x_black ← is_black_at x
  if (x == root) || not x_black then pure x else do
    w ← sibling is_left xp
    w ← red_sibling is_left xp w
    wleft ← left_of w
    wright ← right_of w
    left_black ← is_black_at wleft
    right_black ← is_black_at wright
    if left_black && right_black
        then (do
          if w == 0 then skip else set_color w red
          n ← load xp
          above ← left_of n.parent
          delete_loop fuel xp n.parent (not (n.parent == 0) && (xp == above)))
        else (do
          w ← inner_nephew is_left xp w wleft wright left_black right_black
          outer_nephew is_left xp w
          root ← get_root
          delete_loop fuel root xp is_left)

unfoldable pub delete_rebalance : ℕ → (x xp : Ptr) → (is_left : Bool) → Cmd (Unit {0})
unfolding delete_loop
delete_rebalance fuel x xp is_left = do
  x ← delete_loop fuel x xp is_left
  if x == 0 then skip else set_color x black

-- The node that leaves its place: the one removed, or its successor. The cached rightmost node
-- moves on if it is the one removed.
unfoldable pub choose_leaving : ℕ → (node : Ptr) → Cmd Ptr
choose_leaving fuel node = do
  n ← load node
  if (n.left == 0) || (n.right == 0)
      then (do
        last ← get_rightmost
        if node == last then (do pred ← find_predecessor fuel node; set_rightmost pred) else skip
        pure node)
      else find_successor fuel node

-- `y` is unlinked and its only child `x` put in its place: whether `y` was a left child.
unfoldable pub unlink : (y x : Ptr) → Cmd Bool
unlink y x = do
  ny ← load y
  if x == 0 then skip else set_parent x ny.parent
  if ny.parent == 0 then (do set_root x; pure false) else (do
    np ← load ny.parent
    if y == np.left
        then (do set_left ny.parent x; pure true)
        else (do set_right ny.parent x; pure false))

unfoldable pub rb_tree_remove : ℕ → (node : Ptr) → Cmd Result
unfolding choose_leaving unlink swap_node delete_rebalance
rb_tree_remove fuel node = do
  y ← choose_leaving fuel node
  ny ← load y
  let x = if ny.left == 0 then ny.right else ny.left
  is_left ← unlink y x
  if y == node then skip else swap_node node y
  elim ny.color [
    | red ↦ skip
    | black ↦
        delete_rebalance fuel x (if not (y == node) && (ny.parent == node) then y else ny.parent)
          is_left
  ]
  set_parent node 0
  set_left node 0
  set_right node 0
  pure a_ok
