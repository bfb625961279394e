-- ===== src/Pager/Bch/Code.antt =====
-- `struct bch_code` of pager/bch_code.c, and the reads and remainders of its arrays. The arrays are
-- lists of words, and an access outside one is a fault. Only `index_of` holds a negative number.
use tsl_sdr.Prelude.{ℕ, zero, suc, ◌%◌, Option, none, List, load}
use tsl_sdr.Prelude.Int.{ℤ, pos, negsuc}

pub record BchCode : Type 0 where
  pub p : List ℕ
  pub m : ℕ
  pub n : ℕ
  pub k : ℕ
  pub t : ℕ
  pub alpha_to : List ℕ
  pub index_of : List ℤ
  pub g : List ℕ
  pub bb : List ℕ

-- A read at a signed index: below zero it lies outside the array.
abbrev pub load_int {ℓ} : {A : Type ℓ} → List A → ℤ → Option A
load_int xs (pos i) = load xs i
load_int xs (negsuc i) = none

abbrev pub neg : ℕ → ℤ
neg zero = pos 0
neg (suc b) = negsuc b

-- The `%` of C: the sign is that of the dividend.
abbrev pub rem : ℤ → ℕ → ℤ
rem (pos a) n = pos (a % n)
rem (negsuc a) n = neg (suc a % n)
