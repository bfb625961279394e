-- ===== src/Pager/Bch/Code31.antt =====
-- The BCH(31, 21, 5) code that pager/bch_code.c is made for: the tables of its field, and that
-- `bch_code_new` builds them whatever the fresh memory holds.
use tsl_sdr.Prelude.{
  ℕ, ◌%◌, ◌≡◌, refl, Option, some, List, [], ◌∷◌, ◌++◌, ◌<◌, arith, get_or, load, ◌∙◌,
  get_elem?-eq-get_or, get_elem?-append, true,
}
use tsl_sdr.Prelude.Int.{ℤ, pos, negsuc}
use tsl_sdr.Tsl.Result.{a_ok}
use tsl_sdr.Pager.Bch.Code.{BchCode}
use tsl_sdr.Pager.Bch.New.{fresh, bch_code_new}

-- The powers of a root of x^5 + x^2 + 1, from the 0th to the 30th.
unfoldable pub alphas : List ℕ
alphas =
    1 ∷ 2 ∷ 4 ∷ 8 ∷ 16 ∷ 5 ∷ 10 ∷ 20 ∷ 13 ∷ 26 ∷ 17 ∷ 7 ∷ 14 ∷ 28 ∷ 29 ∷ 31 ∷ 27 ∷ 19 ∷ 3 ∷ 6 ∷ 12
    ∷ 24 ∷ 21 ∷ 15 ∷ 30 ∷ 25 ∷ 23 ∷ 11 ∷ 22 ∷ 9 ∷ 18 ∷ []

-- The logarithms of 1 … 31, behind the -1 that stands for the logarithm of 0.
unfoldable pub logs : List ℤ
logs =
    negsuc 0
    ∷ pos 0
    ∷ pos 1
    ∷ pos 18
    ∷ pos 2
    ∷ pos 5
    ∷ pos 19
    ∷ pos 11
    ∷ pos 3
    ∷ pos 29
    ∷ pos 6
    ∷ pos 27
    ∷ pos 20
    ∷ pos 8
    ∷ pos 12
    ∷ pos 23
    ∷ pos 4
    ∷ pos 10
    ∷ pos 30
    ∷ pos 17
    ∷ pos 7
    ∷ pos 22
    ∷ pos 28
    ∷ pos 26
    ∷ pos 21
    ∷ pos 25
    ∷ pos 9
    ∷ pos 16
    ∷ pos 13
    ∷ pos 14
    ∷ pos 24
    ∷ pos 15
    ∷ []

abbrev pub primitive : List ℕ
primitive = 1 ∷ 0 ∷ 1 ∷ 0 ∷ 0 ∷ 1 ∷ []

-- x^10 + x^9 + x^8 + x^6 + x^5 + x^3 + 1
unfoldable pub generator : List ℕ
generator = 1 ∷ 0 ∷ 0 ∷ 1 ∷ 0 ∷ 1 ∷ 1 ∷ 0 ∷ 1 ∷ 1 ∷ 1 ∷ []

-- `last` is the word of `alpha_to` that is never written.
abbrev pub code31 : (last : ℕ) → (bb : List ℕ) → BchCode
code31 last bb = record {
  p = primitive;
  m = 5;
  n = 31;
  k = 21;
  t = 2;
  alpha_to = alphas ++ last ∷ [];
  index_of = logs;
  g = generator;
  bb = bb;
}

-- With memory for it, `bch_code_new` returns A_OK and the code with the tables above, whatever the
-- fresh memory and the old `*pcode` hold.
pub bch_code_new-code31 :
    (junk : ℕ → ℕ) (old : Option BchCode)
    → bch_code_new (record { structure = a_ok; arrays = true; junk = junk }) old primitive 5 31 21 2
      ≡ some (a_ok, some (code31 (junk 0) (fresh junk 11)))
unfolding bch_code_new alphas logs generator
bch_code_new-code31 junk old = refl

-- alpha ^ x, and the logarithm of `v`.
unfoldable pub alpha : ℕ → ℕ
unfolding alphas
alpha x = get_or alphas (x % 31) 0

unfoldable pub log : ℕ → ℤ
unfolding logs
log v = get_or logs v (pos 0)

pub load-alphas : (last x : ℕ) → load (alphas ++ last ∷ []) (x % 31) ≡ some (alpha x)
unfolding alpha alphas
load-alphas last x =
    get_elem?-append alphas (last ∷ []) (x % 31) (omega arith)
    ∙ get_elem?-eq-get_or alphas (x % 31) 0 (omega arith)

pub load-logs : (v : ℕ) → v < 32 → load logs v ≡ some (log v)
unfolding log logs
load-logs v h = get_elem?-eq-get_or logs v (pos 0) (omega arith)
