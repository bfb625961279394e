-- ===== src/Tsl/FrameAlloc/Chain.antt =====
-- The free list of tsl/frame_alloc.c as a list of addresses.
use tsl_sdr.Prelude.{◌≡◌, ◌≢◌, refl, Bool, false, ◌||◌, List, [], ◌∷◌, arith, ◌==◌}
use tsl_sdr.Tsl.FrameAlloc.State.{Ptr, write}

unfoldable pub has : Ptr → List Ptr → Bool
has p [] = false
has p (x ∷ xs) = p == x || has p xs

-- From `p` the links lead through the distinct frames `xs` to NULL.
pub data Chain (next : Ptr → Ptr) : Ptr → List Ptr → Type 0 where
  nil : Chain next 0 []
  cons :
      {p : Ptr} {xs : List Ptr}
      → p ≢ 0
      → has p xs ≡ false
      → Chain next (next p) xs
      → Chain next p (p ∷ xs)

-- A write to a frame outside the chain leaves it alone.
pub Chain-write :
    {next : Ptr → Ptr} {p : Ptr} {xs : List Ptr} (a v : Ptr)
    → Chain next p xs
    → has a xs ≡ false
    → Chain (write next a v) p xs
unfolding has write
Chain-write a v nil out = nil
Chain-write {next} a v (cons {p} {xs} ne new rest) out =
    let apart : (p == a) ≡ false = ground arith in
    let other : write next a v p ≡ next p = ground arith in
    cons ne new (rw other (Chain-write a v rest (ground arith)))

-- A frame outside it, linked to its head, extends the chain.
pub Chain-push :
    {next : Ptr → Ptr} {p : Ptr} {xs : List Ptr} (a : Ptr)
    → Chain next p xs
    → a ≢ 0
    → has a xs ≡ false
    → Chain (write next a p) a (a ∷ xs)
unfolding write
Chain-push {next} {p} a chain ne out =
    let head : write next a p a ≡ p = ground arith in
    cons ne out (rw head (Chain-write a p chain out))

-- What a chain says of its head and of the rest.
pub Chain-head :
    {next : Ptr → Ptr} {q p : Ptr} {xs : List Ptr}
    → Chain next q (p ∷ xs)
    → (q ≡ p) × (p ≢ 0) × (has p xs ≡ false) × Chain next (next p) xs
Chain-head (cons ne new rest) = (refl, ne, new, rest)

pub Chain-end : {next : Ptr → Ptr} {q : Ptr} → Chain next q [] → q ≡ 0
Chain-end nil = refl

-- A chain from an address other than NULL begins with it.
pub Chain-cons :
    {next : Ptr → Ptr} {p : Ptr} {xs : List Ptr}
    → Chain next p xs
    → p ≢ 0
    → (ys : List Ptr) × (xs ≡ p ∷ ys) × (has p ys ≡ false) × Chain next (next p) ys
Chain-cons nil h = absurd (h refl)
Chain-cons (cons {xs} ne new rest) h = (xs, refl, new, rest)
