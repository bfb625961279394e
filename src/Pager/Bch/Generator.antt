-- ===== src/Pager/Bch/Generator.antt =====
-- `gen_poly` of pager/bch_code.c: the cycle sets modulo `n`, those that hold a root 1 … 2t, and the
-- product of the factors of their members. `cycle[jj][0 .. size[jj])` is a list, and the C arrays'
-- dimensions (15 sets of 6, 11 roots) are the rows, columns and places left.
use tsl_sdr.Prelude.{
  ℕ, zero, suc, ◌+◌, ◌-◌, ◌*◌, ◌%◌, bit_xor, Bool, true, false, ◌&&◌, ◌||◌, Option, none, some,
  List, [], ◌∷◌, ◌++◌, ltb, leb, ◌==◌, if◌then◌else◌, load, store, ◌>>=◌, length, drop,
}
use tsl_sdr.Prelude.Int.{ℤ, pos, ◌+ℤ◌}
use tsl_sdr.Pager.Bch.Code.{load_int, rem}

-- The inner `do` loop. A set of more than six members runs out of columns, a write out of bounds.
unfoldable pub extend_cycle : (columns n first last : ℕ) → List ℕ → Option (List ℕ)
extend_cycle zero n first last c = none
extend_cycle (suc columns) n first last c =
    let next = (last * 2) % n in
    let c' = c ++ next ∷ [] in
    elim ((next * 2) % n == first) [ true ↦ some c' | false ↦ extend_cycle columns n first next c' ]

unfoldable pub in_cycle : ℕ → List ℕ → Bool
in_cycle ll [] = false
in_cycle ll (x ∷ xs) = ll == x || in_cycle ll xs

unfoldable pub in_cycles : ℕ → List (List ℕ) → Bool
unfolding in_cycle
in_cycles ll [] = false
in_cycles ll (c ∷ cs) = in_cycle ll c || in_cycles ll cs

-- The search for the next representative: the number reached, and whether it is in a set already.
-- `ll` grows to `n - 1` at most, so `n` rounds are enough.
unfoldable pub next_cycle : (rounds n : ℕ) → List (List ℕ) → ℕ → Option (ℕ × Bool)
unfolding in_cycles
next_cycle zero n cs ll = none
next_cycle (suc rounds) n cs ll =
    let test = in_cycles (ll + 1) (drop 1 cs) in
    elim (test && ltb (ll + 1) (n - 1)) [
      | true ↦ next_cycle rounds n cs (ll + 1)
      | false ↦ some (ll + 1, test)
    ]

-- The outer `do` loop. A search that ends below `n - 1` has found a new representative.
unfoldable pub cycle_sets : (rows n : ℕ) → List (List ℕ) → ℕ → Option (List (List ℕ))
unfolding extend_cycle next_cycle
cycle_sets zero n cs first = none
cycle_sets (suc rows) n cs first = do
  c ← extend_cycle 5 n first first (first ∷ [])
  (ll, test) ← next_cycle n n (cs ++ c ∷ []) 0
  elim (ltb ll (n - 1)) [
    | true ↦ cycle_sets rows n (cs ++ c ∷ []) ll
    | false ↦
        if test
        then some (cs ++ c ∷ [])
        else elim rows [ zero ↦ none | suc _ ↦ some ((cs ++ c ∷ []) ++ (ll ∷ []) ∷ []) ]
  ]

unfoldable pub has_root : (t : ℕ) → List ℕ → Bool
has_root t [] = false
has_root t (x ∷ xs) = leb 1 x && ltb x (2 * t + 1) || has_root t xs

-- `min[]`: the numbers of the sets with a root, from set `ii` on.
unfoldable pub root_cycles : (t : ℕ) → List (List ℕ) → (ii : ℕ) → List ℕ → Option (List ℕ)
unfolding has_root
root_cycles t [] ii min = some min
root_cycles t (c ∷ cs) ii min =
    if ltb (length min) 11
    then root_cycles t cs (ii + 1) (if has_root t c then min ++ ii ∷ [] else min)
    else none

-- `zeros[1 ..]`: the members of those sets, in order.
unfoldable pub zeros_of : List (List ℕ) → List ℕ → Option (List ℕ)
zeros_of cs [] = some []
zeros_of cs (ii ∷ min) = do
  c ← load cs ii
  rest ← zeros_of cs min
  if ltb (length (c ++ rest)) 11 then some (c ++ rest) else none

-- `alpha_to[(index_of[a] + z) % n]`
unfoldable pub times_power : List ℕ → List ℤ → (n a z : ℕ) → Option ℕ
unfolding ◌+ℤ◌
times_power alpha_to index_of n a z = do i ← load index_of a; load_int alpha_to (rem (i +ℤ pos z) n)

-- The product of `g` by (X + alpha ^ z), from the coefficient `jj` down.
unfoldable pub multiply_root : List ℕ → List ℤ → (n z jj : ℕ) → List ℕ → Option (List ℕ)
unfolding times_power
multiply_root alpha_to index_of n z zero g = do
  g0 ← load g 0
  a ← times_power alpha_to index_of n g0 z
  store g 0 a
multiply_root alpha_to index_of n z (suc jj) g = do
  gj ← load g (suc jj)
  below ← load g jj
  g ←
      if gj == 0
      then store g (suc jj) below
      else (do a ← times_power alpha_to index_of n gj z; store g (suc jj) (bit_xor below a))
  multiply_root alpha_to index_of n z jj g

-- The factors from `zeros[ii]` on.
unfoldable pub multiply_roots : List ℕ → List ℤ → (n ii : ℕ) → List ℕ → List ℕ → Option (List ℕ)
unfolding multiply_root
multiply_roots alpha_to index_of n ii [] g = some g
multiply_roots alpha_to index_of n ii (z ∷ zs) g = do
  g ← store g ii 1
  g ← multiply_root alpha_to index_of n z (ii - 1) g
  multiply_roots alpha_to index_of n (ii + 1) zs g

unfoldable pub gen_poly : List ℕ → List ℤ → (n t : ℕ) → List ℕ → Option (List ℕ)
unfolding cycle_sets root_cycles zeros_of multiply_roots
gen_poly alpha_to index_of n t g = do
  cs ← cycle_sets 14 n ((0 ∷ []) ∷ []) 1
  min ← root_cycles t (drop 1 cs) 1 []
  zeros ← zeros_of cs min
  first ← load zeros 0
  a ← load alpha_to first
  g ← store g 0 a
  g ← store g 1 1
  multiply_roots alpha_to index_of n 2 (drop 1 zeros) g
