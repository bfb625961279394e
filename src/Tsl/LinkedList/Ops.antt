-- ===== src/Tsl/LinkedList/Ops.antt =====
-- The functions of tsl/list.h on memory, write by write. An address is a number, and every address
-- that they are given holds an entry.
use tsl_sdr.Prelude.{
  ℕ, zero, suc, Bool, true, false, Option, none, some, List, [], ◌∷◌, ◌>>=◌, ◌==◌, if◌then◌else◌,
}

-- The `prev` and `next` fields of the entries.
pub record Links : Type 0 where
  pub prev : ℕ → ℕ
  pub next : ℕ → ℕ

abbrev pub update : (ℕ → ℕ) → ℕ → ℕ → ℕ → ℕ
update f p v x = if x == p then v else f x

abbrev pub set_next : ℕ → ℕ → Links → Links
set_next p v m = record m { next = update m.next p v }

abbrev pub set_prev : ℕ → ℕ → Links → Links
set_prev p v m = record m { prev = update m.prev p v }

unfoldable pub list_empty : ℕ → Links → Bool
list_empty head m = m.next head == head

unfoldable pub list_is_last : (head item : ℕ) → Links → Bool
list_is_last head item m = m.next item == head

unfoldable pub list_init : ℕ → Links → Links
list_init new m = set_next new new (set_prev new new m)

-- `__list_add`
unfoldable pub add_between : (new prev next : ℕ) → Links → Links
add_between new prev next m =
    set_next new next (set_prev next new (set_prev new prev (set_next prev new m)))

unfoldable pub list_insert_at : (pos new : ℕ) → Links → Links
list_insert_at pos new m = add_between new pos (m.next pos) m

unfoldable pub list_append : (head new : ℕ) → Links → Links
list_append head new m = add_between new (m.prev head) head m

unfoldable pub list_prepend : (head new : ℕ) → Links → Links
list_prepend head new m = add_between new head (m.next head) m

-- `list_for_each` from `iter` on, on fuel: the entries that it comes upon.
unfoldable pub list_for_each : (fuel : ℕ) (head iter : ℕ) → Links → Option (List ℕ)
list_for_each zero head iter m = none
list_for_each (suc fuel) head iter m =
    let rest = list_for_each fuel head (m.next iter) m in
    if iter == head then some [] else (rest >>= λ l. some (iter ∷ l))

-- The same loop as far as the entry `new`: whether it comes upon `new`, and `none` when the fuel is
-- used up.
unfoldable pub meets : (fuel : ℕ) (head new iter : ℕ) → Links → Option Bool
meets zero head new iter m = none
meets (suc fuel) head new iter m =
    let rest = meets fuel head new (m.next iter) m in
    if iter == head then some false else if iter == new then some true else rest

-- How a checking variant ends: by `abort`, by a return with what it leaves in memory, or not in the
-- rounds that it was given.
pub data Checked : Type 0 where
  aborted : Checked
  added : Links → Checked
  unfinished : Checked

abbrev pub unless_met : Option Bool → Links → Checked
unless_met none m = unfinished
unless_met (some true) m = aborted
unless_met (some false) m = added m

unfoldable pub list_debug_insert_at : (fuel : ℕ) (head pos new : ℕ) → Links → Checked
list_debug_insert_at fuel head pos new m =
    unless_met (meets fuel head new (m.next head) m) (list_insert_at pos new m)

unfoldable pub list_debug_append : (fuel : ℕ) (head new : ℕ) → Links → Checked
list_debug_append fuel head new m =
    unless_met (meets fuel head new (m.next head) m) (list_append head new m)

unfoldable pub list_debug_prepend : (fuel : ℕ) (head new : ℕ) → Links → Checked
list_debug_prepend fuel head new m =
    unless_met (meets fuel head new (m.next head) m) (list_prepend head new m)

-- `__list_del`
unfoldable pub del_between : (prev next : ℕ) → Links → Links
del_between prev next m = set_prev next prev (set_next prev next m)

abbrev pub list_poison_next : ℕ
list_poison_next = 3250700737

abbrev pub list_poison_prev : ℕ
list_poison_prev = 2172748161

unfoldable pub list_del : ℕ → Links → Links
list_del del m =
    set_prev del list_poison_prev
      (set_next del list_poison_next (del_between (m.prev del) (m.next del) m))

-- `__list_splice`: the first and the last entry are read before the writes.
unfoldable pub splice_between : (splice prev next : ℕ) → Links → Links
splice_between splice prev next m =
    let f = m.next splice in
    let l = m.prev splice in set_prev next l (set_next l next (set_next prev f (set_prev f prev m)))

unfoldable pub list_splice : (list head : ℕ) → Links → Links
list_splice list head m = if list_empty list m then m else splice_between list head (m.next head) m

unfoldable pub list_splice_after : (list head : ℕ) → Links → Links
list_splice_after list head m =
    if list_empty list m then m else splice_between list (m.prev head) head m
