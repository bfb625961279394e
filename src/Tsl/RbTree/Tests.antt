-- ===== src/Tsl/RbTree/Tests.antt =====
-- Runs of tsl/rbtree.c on small trees, with numbers for keys.
use Prim.Native.Nat.{compare, Ordering}
use tsl_sdr.Prelude.{ℕ, zero, suc, ◌≡◌, refl, List, [], ◌∷◌, ◌==◌, if◌then◌else◌}
use tsl_sdr.Tsl.RbTree.Heap.{
  Ptr, black, Sign, lower, same, higher, Rb, Run, ok, fault, out_of_fuel, Cmd, pure, ◌>>=◌, ◌>>◌,
  get_root, set_left, set_right, set_parent, set_key, set_color, write, load, store, is_black_at,
}
use tsl_sdr.Tsl.RbTree.Rotate.{get_grandparent, rotate_left, rotate_right, replace_child}
use tsl_sdr.Tsl.RbTree.Insert.{
  rb_tree_insert, rotate_cases, rebalance_round, descend, finish_insert, insert_rebalance,
  rebalance_loop,
}
use tsl_sdr.Tsl.RbTree.Remove.{
  rb_tree_remove, swap_node, left_of, right_of, sibling, red_sibling, inner_nephew, outer_nephew,
  delete_loop, delete_rebalance, choose_leaving, unlink,
}
use tsl_sdr.Tsl.RbTree.Walk.{
  find_minimum, find_maximum, find_successor, find_predecessor, climb_left, climb_right,
}

abbrev by_number : Ptr → Ptr → Sign
by_number a b = elim (compare a b) [
  | Ordering.lt ↦ lower
  | Ordering.eq ↦ same
  | Ordering.gt ↦ higher
]

abbrev blank : Rb
blank = record {
  root = 0;
  rightmost = 0;
  node = λ _. record { left = 0; right = 0; parent = 0; key = 0; color = black };
}

abbrev insert_all : List ℕ → Cmd (Unit {0})
unfolding rb_tree_insert
insert_all [] = pure tt
insert_all (k ∷ ks) = do rb_tree_insert by_number 20 k k; insert_all ks

-- The keys from the node `x` on, by the walk to the successor.
abbrev keys_from : ℕ → Ptr → Cmd (List ℕ)
unfolding find_successor
keys_from zero x = pure []
keys_from (suc left) x =
    if x == 0
    then pure []
    else do next ← find_successor 20 x; rest ← keys_from left next; pure (x ∷ rest)

abbrev answer : Run (List ℕ) → List ℕ
answer (ok xs s) = xs
answer fault = []
answer out_of_fuel = []

abbrev kept : List ℕ
unfolding rb_tree_insert rb_tree_remove find_minimum
kept = answer (
    (do
      insert_all (5 ∷ 3 ∷ 8 ∷ 1 ∷ 4 ∷ 7 ∷ 9 ∷ 2 ∷ 6 ∷ [])
      rb_tree_remove 20 5
      rb_tree_remove 20 1
      first ← get_root >>= find_minimum 20
      keys_from 20 first)
      blank)

kept_lem : kept ≡ 2 ∷ 3 ∷ 4 ∷ 6 ∷ 7 ∷ 8 ∷ 9 ∷ []
unfolding kept keys_from insert_all find_minimum find_maximum find_predecessor climb_left
    climb_right find_successor descend finish_insert insert_rebalance rebalance_loop rb_tree_insert
    rb_tree_remove red_sibling inner_nephew outer_nephew delete_loop delete_rebalance choose_leaving
    unlink set_left set_right set_parent set_key set_color write load store is_black_at
    get_grandparent rotate_cases rotate_left rotate_right replace_child rebalance_round swap_node
    left_of right_of sibling
kept_lem = refl
