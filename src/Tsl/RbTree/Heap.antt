-- ===== src/Tsl/RbTree/Heap.antt =====
-- `struct rb_tree` and `struct rb_tree_node` of tsl/rbtree.h on an explicit heap. A pointer is an
-- address, 0 is NULL, and following NULL is a fault. The nodes are the caller's memory, so every other address holds one.
use tsl_sdr.Prelude.{ℕ, Bool, true, false, ◌==◌, if◌then◌else◌}

abbrev pub Ptr : Type 0
Ptr = ℕ

pub data Color : Type 0 where
  black red : Color

-- The sign of what a comparison function returns.
pub data Sign : Type 0 where
  lower same higher : Sign

pub record Node : Type 0 where
  pub left : Ptr
  pub right : Ptr
  pub parent : Ptr
  pub key : Ptr
  pub color : Color

-- The tree and the memory of all nodes.
pub record Rb : Type 0 where
  pub root : Ptr
  pub rightmost : Ptr
  pub node : Ptr → Node

-- How a command ends. `out_of_fuel` is a loop that was not given enough rounds.
pub data Run (A : Type 0) : Type 0 where
  ok : A → Rb → Run A
  fault : Run A
  out_of_fuel : Run A

abbrev pub Cmd : Type 0 → Type 0
Cmd A = Rb → Run A

abbrev pub pure : {A : Type 0} → A → Cmd A
pure a s = ok a s

abbrev pub no_fuel : {A : Type 0} → Cmd A
no_fuel s = out_of_fuel

abbrev pub abort : {A : Type 0} → Cmd A
abort s = fault

module _ {A B : Type 0} where
  abbrev pub and_then : Run A → (A → Cmd B) → Run B
  and_then (ok a s) k = k a s
  and_then fault k = fault
  and_then out_of_fuel k = out_of_fuel

  infixl 5 ◌>>=◌ ◌>>◌
  abbrev pub ◌>>=◌ : Cmd A → (A → Cmd B) → Cmd B
  m >>= k = λ s. and_then (m s) k

  abbrev pub ◌>>◌ : Cmd A → Cmd B → Cmd B
  m >> n = m >>= λ _. n

abbrev pub skip : Cmd (Unit {0})
skip = pure tt

-- `*p`
unfoldable pub load : Ptr → Cmd Node
load p s = if p == 0 then fault else ok (s.node p) s

unfoldable pub write : (Ptr → Node) → Ptr → Node → Ptr → Node
write h p n a = if a == p then n else h a

-- `*p = n`
unfoldable pub store : Ptr → Node → Cmd (Unit {0})
store p n s = if p == 0 then fault else ok tt (record s { node = write s.node p n })

unfoldable pub set_left : Ptr → Ptr → Cmd (Unit {0})
unfolding load store
set_left p q = do n ← load p; store p (record n { left = q })

unfoldable pub set_right : Ptr → Ptr → Cmd (Unit {0})
unfolding load store
set_right p q = do n ← load p; store p (record n { right = q })

unfoldable pub set_parent : Ptr → Ptr → Cmd (Unit {0})
unfolding load store
set_parent p q = do n ← load p; store p (record n { parent = q })

unfoldable pub set_key : Ptr → Ptr → Cmd (Unit {0})
unfolding load store
set_key p k = do n ← load p; store p (record n { key = k })

unfoldable pub set_color : Ptr → Color → Cmd (Unit {0})
unfolding load store
set_color p c = do n ← load p; store p (record n { color = c })

abbrev pub get_root : Cmd Ptr
get_root s = ok s.root s

abbrev pub set_root : Ptr → Cmd (Unit {0})
set_root p s = ok tt (record s { root = p })

abbrev pub get_rightmost : Cmd Ptr
get_rightmost s = ok s.rightmost s

abbrev pub set_rightmost : Ptr → Cmd (Unit {0})
set_rightmost p s = ok tt (record s { rightmost = p })

abbrev pub is_red : Color → Bool
is_red red = true
is_red black = false

-- `p == NULL || p->color == COLOR_BLACK`
unfoldable pub is_black_at : Ptr → Cmd Bool
unfolding load
is_black_at p =
    if p == 0 then pure true else do n ← load p; pure (elim n.color [ black ↦ true | red ↦ false ])
