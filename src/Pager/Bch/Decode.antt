-- ===== src/Pager/Bch/Decode.antt =====
-- `bch_code_decode` of pager/bch_code.c: the four syndromes, the error locator polynomial, and the
-- search for its roots. The result is the returned value and the corrected array.
use tsl_sdr.Prelude.{
  ℕ, zero, suc, ◌+◌, ◌*◌, ◌%◌, bit_xor, Bool, true, false, ◌&&◌, Option, none, some, List, [], ◌∷◌,
  ◌++◌, ltb, ◌==◌, if◌then◌else◌, load, store, ◌>>=◌, length,
}
use tsl_sdr.Prelude.Int.{ℤ, pos, negsuc, ◌+ℤ◌, ◌-ℤ◌}
use tsl_sdr.Pager.Bch.Code.{BchCode, load_int, rem}

-- The rounds `j`, `j + 1`, … of the sum for the syndrome `s[i]`, in polynomial form.
unfoldable pub syndrome_loop : List ℕ → (n i left j : ℕ) → List ℕ → ℕ → Option ℕ
syndrome_loop alpha_to n i zero j recd s = some s
syndrome_loop alpha_to n i (suc left) j recd s = do
  r ← load recd j
  elim (r == 0) [
    | true ↦ syndrome_loop alpha_to n i left (j + 1) recd s
    | false ↦ (do
      a ← load alpha_to ((i * j) % n)
      syndrome_loop alpha_to n i left (j + 1) recd (bit_xor s a))
  ]

unfoldable pub syndrome : BchCode → (i : ℕ) → List ℕ → Option ℕ
unfolding syndrome_loop
syndrome c i recd = syndrome_loop c.alpha_to c.n i c.n 0 recd 0

abbrev pub is_minus_one : ℤ → Bool
is_minus_one (pos _) = false
is_minus_one (negsuc a) = a == 0

abbrev pub int_eq : ℤ → ℤ → Bool
int_eq (pos a) (pos b) = a == b
int_eq (negsuc a) (negsuc b) = a == b
int_eq _ _ = false

-- One register of the search: its next value, and what it adds to `q`.
unfoldable pub chien_register : BchCode → (j : ℕ) → ℤ → ℕ → Option (ℤ × ℕ)
unfolding ◌+ℤ◌
chien_register c j reg q = elim (is_minus_one reg) [
  | true ↦ some (reg, q)
  | false ↦ (do
    a ← load_int c.alpha_to (rem (reg +ℤ pos j) c.n)
    some (rem (reg +ℤ pos j) c.n, bit_xor q a))
]

-- The search, from location number `i`. `loc[0 .. count)` is a list; `loc` has three places.
unfoldable pub chien_search : BchCode → (left i : ℕ) → (reg1 reg2 : ℤ) → List ℕ → Option (List ℕ)
unfolding chien_register
chien_search c zero i reg1 reg2 loc = some loc
chien_search c (suc left) i reg1 reg2 loc = do
  (reg1, q) ← chien_register c 1 reg1 1
  (reg2, q) ← chien_register c 2 reg2 q
  elim (q == 0) [
    | true ↦
        if ltb (length loc) 3
        then chien_search c left (i + 1) reg1 reg2 (loc ++ (i % c.n) ∷ [])
        else none
    | false ↦ chien_search c left (i + 1) reg1 reg2 loc
  ]

-- `recd[i] ^= 1`
unfoldable pub flip : List ℕ → ℕ → Option (List ℕ)
flip recd i = do r ← load recd i; store recd i (bit_xor r 1)

unfoldable pub flip_int : List ℕ → ℤ → Option (List ℕ)
flip_int recd (pos i) = flip recd i
flip_int recd (negsuc i) = none

-- `for (i = 0; i < 2; i++) recd[loc[i]] ^= 1;`
unfoldable pub flip_located : (loc recd : List ℕ) → Option (List ℕ)
flip_located loc recd = do l0 ← load loc 0; recd ← flip recd l0; l1 ← load loc 1; flip recd l1

-- The locations that the search finds for two errors, from the syndromes in index form.
unfoldable pub locate : BchCode → (s1 s2 s3 : ℤ) → Option (List ℕ)
unfolding chien_search ◌+ℤ◌ ◌-ℤ◌
locate c s1 s2 s3 = do
  a1 ← load_int c.alpha_to (rem (s1 +ℤ s1 +ℤ s1) c.n)
  aux ← if is_minus_one s3 then some a1 else (do a3 ← load_int c.alpha_to s3; some (bit_xor a1 a3))
  l ← load c.index_of aux
  chien_search c c.n 1 (rem (s2 -ℤ l +ℤ pos c.n) c.n) (rem (s1 -ℤ l +ℤ pos c.n) c.n) []

-- What follows the syndromes, when one is not zero.
unfoldable pub correct : BchCode → (s1 s2 s3 : ℤ) → List ℕ → Option (ℕ × List ℕ)
correct c s1 s2 s3 recd = elim (is_minus_one s1) [
  | true ↦ some (if is_minus_one s2 then 0 else 1, recd)
  | false ↦ elim (int_eq s3 (rem (s1 +ℤ s1 +ℤ s1) c.n)) [
    | true ↦ (do recd ← flip_int recd s1; some (0, recd))
    | false ↦ (do
      loc ← locate c s1 s2 s3
      elim (length loc == 2) [
        | true ↦ (do recd ← flip_located loc recd; some (0, recd))
        | false ↦ some (1, recd)
      ])
  ]
]

unfoldable pub bch_code_decode : BchCode → List ℕ → Option (ℕ × List ℕ)
bch_code_decode c recd = do
  v1 ← syndrome c 1 recd
  s1 ← load c.index_of v1
  v2 ← syndrome c 2 recd
  s2 ← load c.index_of v2
  v3 ← syndrome c 3 recd
  s3 ← load c.index_of v3
  v4 ← syndrome c 4 recd
  s4 ← load c.index_of v4
  if (v1 == 0) && (v2 == 0) && (v3 == 0) && (v4 == 0)
      then some (0, recd)
      else correct c s1 s2 s3 recd
