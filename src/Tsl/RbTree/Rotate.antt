-- ===== src/Tsl/RbTree/Rotate.antt =====
-- `__helper_rotate_left` and `__helper_rotate_right` of tsl/rbtree.c, read by read and write by
-- write, and `__helper_get_grandparent`.
use tsl_sdr.Prelude.{◌==◌, if◌then◌else◌}
use tsl_sdr.Tsl.RbTree.Heap.{
  Ptr, Cmd, pure, ◌>>=◌, ◌>>◌, skip, load, set_left, set_right, set_parent, set_root,
}

-- `y` takes the place of `x` under the parent of `x`.
unfoldable pub replace_child : (x y : Ptr) → Cmd (Unit {0})
unfolding load set_left set_right
replace_child x y = do
  nx ← load x
  if nx.parent == 0 then set_root y else do
    np ← load nx.parent
    if x == np.left then set_left nx.parent y else set_right nx.parent y

unfoldable pub rotate_left : Ptr → Cmd (Unit {0})
unfolding load set_left set_right set_parent replace_child
rotate_left x = do
  nx ← load x
  let y = nx.right
  ny ← load y
  set_right x ny.left
  ny ← load y
  if ny.left == 0 then skip else set_parent ny.left x
  nx ← load x
  set_parent y nx.parent
  replace_child x y
  set_left y x
  set_parent x y

unfoldable pub rotate_right : Ptr → Cmd (Unit {0})
unfolding load set_left set_right set_parent replace_child
rotate_right x = do
  nx ← load x
  let y = nx.left
  ny ← load y
  set_left x ny.right
  ny ← load y
  if ny.right == 0 then skip else set_parent ny.right x
  nx ← load x
  set_parent y nx.parent
  replace_child x y
  set_right y x
  set_parent x y

unfoldable pub get_grandparent : Ptr → Cmd Ptr
unfolding load
get_grandparent node = do
  n ← load node
  if n.parent == 0 then pure 0 else do np ← load n.parent; pure np.parent
