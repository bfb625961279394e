-- ===== src/Pager/Bch/New.antt =====
-- `bch_code_new` of pager/bch_code.c. What the allocators answer is an argument: an error of
-- `TZAALLOC`, whether all five `malloc` calls succeed, and the words that the fresh arrays hold.
use tsl_sdr.Prelude.{
  ℕ, zero, suc, ◌+◌, ◌-◌, Bool, true, false, Option, none, some, List, [], ◌∷◌, load, ◌>>=◌, map,
}
use tsl_sdr.Prelude.Int.{pos}
use tsl_sdr.Tsl.Result.{Result, a_ok}
use tsl_sdr.Pager.Bch.Code.{BchCode}
use tsl_sdr.Pager.Bch.Field.{generate_gf}
use tsl_sdr.Pager.Bch.Generator.{gen_poly}

pub record Allocations : Type 0 where
  pub structure : Result
  pub arrays : Bool
  pub junk : ℕ → ℕ

-- A fresh array of `count` words.
abbrev pub fresh : (ℕ → ℕ) → (count : ℕ) → List ℕ
fresh junk zero = []
fresh junk (suc count) = junk count ∷ fresh junk count

-- `for (i = 0; i < count; i++) to[i] = from[i]`, where `to` has `count` places.
unfoldable pub copy_words : (count i : ℕ) → List ℕ → Option (List ℕ)
copy_words zero i from = some []
copy_words (suc count) i from = do
  w ← load from i
  rest ← copy_words count (i + 1) from
  some (w ∷ rest)

-- The fields, the field tables and the generator of a code whose arrays were allocated.
unfoldable pub init_code : (ℕ → ℕ) → (p : List ℕ) → (m n k t : ℕ) → Option BchCode
unfolding copy_words generate_gf gen_poly
init_code junk p m n k t = do
  p' ← copy_words (m + 1) 0 p
  s ← generate_gf p' m n (fresh junk (n + 1)) (map pos (fresh junk (n + 1)))
  g ← gen_poly s.alpha_to s.index_of n t (fresh junk (n - k + 1))
  some (record {
    p = p';
    m = m;
    n = n;
    k = k;
    t = t;
    alpha_to = s.alpha_to;
    index_of = s.index_of;
    g = g;
    bb = fresh junk (n - k + 1);
  })

-- The returned result, and the caller's `*pcode` afterwards: `none` is NULL.
unfoldable pub bch_code_new :
    Allocations → Option BchCode → (p : List ℕ) → (m n k t : ℕ) → Option (Result × Option BchCode)
unfolding init_code
bch_code_new env old p m n k t = elim env.structure [
  | Result.a_ok ↦ elim env.arrays [
    | true ↦ (do c ← init_code env.junk p m n k t; some (a_ok, some c))
    | false ↦ some (a_ok, none)
  ]
  | other ↦ some (other, old)
]
