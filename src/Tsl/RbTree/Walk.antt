-- ===== src/Tsl/RbTree/Walk.antt =====
-- The functions of tsl/rbtree.c and tsl/rbtree.h that read a tree: its creation and emptiness, the
-- search for a key, and the walks to the minimum, the maximum and the neighbours of a node.
use tsl_sdr.Prelude.{ℕ, zero, suc, Bool, ◌==◌, if◌then◌else◌}
use tsl_sdr.Tsl.Result.{Result, a_ok, a_e_notfound}
use tsl_sdr.Tsl.RbTree.Heap.{
  Ptr, Sign, lower, same, higher, Cmd, pure, no_fuel, ◌>>=◌, ◌>>◌, load, get_root, set_root,
  get_rightmost, set_rightmost,
}

-- `rb_tree_new_ex` and `rb_tree_new`, less the comparison function and its state, which are
-- arguments of the functions that call it.
unfoldable pub rb_tree_new : Cmd Result
rb_tree_new = do set_root 0; set_rightmost 0; pure a_ok

-- `rb_tree_destroy`: the structure is cleared, the nodes are not.
unfoldable pub rb_tree_destroy : Cmd Result
rb_tree_destroy = do set_root 0; set_rightmost 0; pure a_ok

unfoldable pub rb_tree_empty : Cmd (Result × Bool)
rb_tree_empty = do root ← get_root; pure (a_ok, root == 0)

unfoldable pub rb_tree_get_rightmost : Cmd (Result × Ptr)
rb_tree_get_rightmost = do p ← get_rightmost; pure (a_ok, p)

-- The loop of `rb_tree_find`.
unfoldable pub find_loop : (Ptr → Ptr → Sign) → ℕ → (key node : Ptr) → Cmd Ptr
unfolding load
find_loop compare zero key node = no_fuel
find_loop compare (suc fuel) key node = if node == 0 then pure 0 else do
  n ← load node
  elim (compare key n.key) [
    | lower ↦ find_loop compare fuel key n.left
    | same ↦ pure node
    | higher ↦ find_loop compare fuel key n.right
  ]

unfoldable pub rb_tree_find : (Ptr → Ptr → Sign) → ℕ → (key : Ptr) → Cmd (Result × Ptr)
unfolding find_loop
rb_tree_find compare fuel key = do
  root ← get_root
  if root == 0 then pure (a_e_notfound, 0) else do
    node ← find_loop compare fuel key root
    pure (if node == 0 then (a_e_notfound, 0) else (a_ok, node))

-- `__helper_rb_tree_find_minimum` and `__rb_tree_find_minimum`
unfoldable pub find_minimum : ℕ → Ptr → Cmd Ptr
unfolding load
find_minimum zero x = no_fuel
find_minimum (suc fuel) x = do n ← load x; if n.left == 0 then pure x else find_minimum fuel n.left

-- `__helper_rb_tree_find_maximum` and `__rb_tree_find_maximum`
unfoldable pub find_maximum : ℕ → Ptr → Cmd Ptr
unfolding load
find_maximum zero x = no_fuel
find_maximum (suc fuel) x = do
  n ← load x
  if n.right == 0 then pure x else find_maximum fuel n.right

-- The climb of the successor: while `x` is the right child of `y`.
unfoldable pub climb_right : ℕ → (x y : Ptr) → Cmd Ptr
unfolding load
climb_right zero x y = no_fuel
climb_right (suc fuel) x y =
    if y == 0
    then pure y
    else do n ← load y; if x == n.right then climb_right fuel y n.parent else pure y

unfoldable pub climb_left : ℕ → (x y : Ptr) → Cmd Ptr
unfolding load
climb_left zero x y = no_fuel
climb_left (suc fuel) x y =
    if y == 0
    then pure y
    else do n ← load y; if x == n.left then climb_left fuel y n.parent else pure y

-- `__helper_rb_tree_find_successor` and `rb_tree_find_successor`
unfoldable pub find_successor : ℕ → Ptr → Cmd Ptr
unfolding load find_minimum climb_right
find_successor fuel x = do
  n ← load x
  if n.right == 0 then climb_right fuel x n.parent else find_minimum fuel n.right

-- `__helper_rb_tree_find_predecessor` and `rb_tree_find_predecessor`
unfoldable pub find_predecessor : ℕ → Ptr → Cmd Ptr
unfolding load find_maximum climb_left
find_predecessor fuel x = do
  n ← load x
  if n.left == 0 then climb_left fuel x n.parent else find_maximum fuel n.left
