-- ===== src/Tsl/LinkedList/Checked.antt =====
-- The additions of tsl/list.h that look first whether the entry is in the list.
use tsl_sdr.Prelude.{
  ℕ, zero, suc, ◌<◌, ◌≡◌, refl, inl, inr, Bool, true, false, Bool-cases, some, List, [], ◌∷◌,
  length, ◌==◌, arith,
}
use tsl_sdr.Tsl.LinkedList.Calls.{has}
use tsl_sdr.Tsl.LinkedList.Ops.{
  Links, Checked, aborted, added, unless_met, meets, list_append, list_prepend, list_insert_at,
  list_debug_append, list_debug_prepend, list_debug_insert_at,
}
use tsl_sdr.Tsl.LinkedList.Ring.{Seg, NotIn, IsRing}

meets-Seg :
    (m : Links) (head new : ℕ) (fuel p : ℕ) (xs : List ℕ)
    → Seg m p xs head
    → NotIn head xs
    → length xs < fuel
    → meets fuel head new (m.next p) m ≡ some (has new xs)
unfolding meets
meets-Seg m head new zero p xs seg out enough = absurd (omega arith)
meets-Seg m head new (suc fuel) p [] (e, f) out enough =
    let ends : (m.next p == head) ≡ true = ground arith in rw ends refl
meets-Seg m head new (suc fuel) p (x ∷ xs) (e, f, seg) (ne, out) enough =
    let goes_on : (x == head) ≡ false = ground arith in
    let rest = meets-Seg m head new fuel x xs seg out (omega arith) in
    elim (Bool-cases (x == new)) [
      | inl here ↦ let back : (new == x) ≡ true = ground arith in rw (e, goes_on, here, back) refl
      | inr other ↦
          let back : (new == x) ≡ false = ground arith in rw (e, goes_on, other, back, rest) refl
    ]

-- What a checking variant comes to, by whether the entry was there.
abbrev pub refused_if : Bool → Links → Checked
refused_if true m = aborted
refused_if false m = added m

unless_met-some : (b : Bool) (m : Links) → unless_met (some b) m ≡ refused_if b m
unless_met-some true m = refl
unless_met-some false m = refl

-- On the list of an entry, with more rounds than it has entries: `list_debug_append`,
-- `list_debug_prepend` and `list_debug_insert_at` come to `abort` when the new entry is in the list,
-- and otherwise return and leave the memory that the unchecked functions leave.
pub list_debug-checked :
    (m : Links) (head pos new : ℕ) (xs : List ℕ) (fuel : ℕ)
    → IsRing m head xs
    → length xs < fuel
    → (list_debug_append fuel head new m ≡ refused_if (has new xs) (list_append head new m))
      × (list_debug_prepend fuel head new m ≡ refused_if (has new xs) (list_prepend head new m))
      × (list_debug_insert_at fuel head pos new m
          ≡ refused_if (has new xs) (list_insert_at pos new m))
unfolding list_debug_append list_debug_prepend list_debug_insert_at
list_debug-checked m head pos new xs fuel ring enough =
    let met = meets-Seg m head new fuel head xs ring.links ring.apart enough in
    rw met (
      unless_met-some (has new xs) (list_append head new m),
      unless_met-some (has new xs) (list_prepend head new m),
      unless_met-some (has new xs) (list_insert_at pos new m),
    )
