-- ===== src/Tsl/Parsers/MemBytes.antt =====
-- What `tsl_parse_mem_bytes` of tsl/parsers.c answers for a decimal number and a unit.
use native.Mathlib.Nat.{pow-suc}
use tsl_sdr.Prelude.{
  ℕ, zero, suc, ◌+◌, ◌*◌, ◌%◌, ◌^◌, ◌≤◌, ◌<◌, ◌≡◌, ◌≢◌, refl, sym, ap, ◌∙◌, Bool, true, false, some,
  ◌||◌, ◌&&◌, List, [], ◌∷◌, ◌++◌, map, ltb, leb, ◌==◌, arith,
}
use tsl_sdr.Tsl.Result.{a_ok}
use tsl_sdr.Tsl.Parsers.Strtoull.{
  uint64_mod, digit_value, read_digits, read_number, skip_space, after_space, strtoull,
}
use tsl_sdr.Tsl.Parsers.Ops.{shifts_of, shift_tens, tsl_parse_mem_bytes}

shift_tens-pow : (k w : ℕ) → shift_tens k (w % uint64_mod) ≡ w * 1024 ^ k % uint64_mod
unfolding shift_tens
shift_tens-pow zero w =
    let one : w * 1 ≡ w = omega arith in ap (λ (t : ℕ). t % uint64_mod) (sym one)
shift_tens-pow (suc k) w =
    let once : w % uint64_mod * 1024 % uint64_mod ≡ w * 1024 % uint64_mod = omega arith in
    let more : w * 1024 * 1024 ^ k ≡ w * 1024 ^ suc k =
      omega (arith, ap (λ (t : ℕ). w * t) (pow-suc 1024 k)) in
    rw once (shift_tens-pow k (w * 1024)) ∙ ap (λ (t : ℕ). t % uint64_mod) more

-- A decimal text as the list of its digits, most significant first, and its number.
abbrev pub AreDigits : List ℕ → Type 0
AreDigits [] = Unit
AreDigits (d ∷ ds) = (d < 10) × AreDigits ds

abbrev pub text : List ℕ → List ℕ
text ds = map (λ (d : ℕ). d + 48) ds

abbrev pub number : (acc : ℕ) → List ℕ → ℕ
number acc [] = acc
number acc (d ∷ ds) = number (acc * 10 + d) ds

digit_value-digit : (d : ℕ) → d < 10 → digit_value (d + 48) ≡ d
unfolding digit_value
digit_value-digit d lt = ground arith

read_digits-text :
    (acc : ℕ) (ds : List ℕ) (u : ℕ) (tail : List ℕ)
    → AreDigits ds
    → 10 ≤ digit_value u
    → read_digits 10 acc (text ds ++ u ∷ tail) ≡ (number acc ds, u ∷ tail)
unfolding read_digits
read_digits-text acc [] u tail digits stop =
    let ends : ltb (digit_value u) 10 ≡ false = ground arith in rw ends
read_digits-text acc (d ∷ ds) u tail digits stop =
    let goes_on : ltb d 10 ≡ true = ground arith in
    rw (digit_value-digit d digits.0, goes_on)
      (read_digits-text (acc * 10 + d) ds u tail digits.1 stop)

-- The units, the power of 1024 that each stands for, and its letters.
pub data MemUnit : Type 0 where
  kilo mega giga tera peta exa : MemUnit

unfoldable pub power : MemUnit → ℕ
power kilo = 1
power mega = 2
power giga = 3
power tera = 4
power peta = 5
power exa = 6

unfoldable pub letter : (upper : Bool) → MemUnit → ℕ
letter true kilo = 75
letter true mega = 77
letter true giga = 71
letter true tera = 84
letter true peta = 80
letter true exa = 69
letter false kilo = 107
letter false mega = 109
letter false giga = 103
letter false tera = 116
letter false peta = 112
letter false exa = 101

shifts_of-letter : (upper : Bool) (u : MemUnit) → shifts_of (letter upper u) ≡ power u
unfolding shifts_of letter power
shifts_of-letter true kilo = refl
shifts_of-letter true mega = refl
shifts_of-letter true giga = refl
shifts_of-letter true tera = refl
shifts_of-letter true peta = refl
shifts_of-letter true exa = refl
shifts_of-letter false kilo = refl
shifts_of-letter false mega = refl
shifts_of-letter false giga = refl
shifts_of-letter false tera = refl
shifts_of-letter false peta = refl
shifts_of-letter false exa = refl

letter-stops : (upper : Bool) (u : MemUnit) → 10 ≤ digit_value (letter upper u)
unfolding digit_value letter
letter-stops true kilo = omega arith
letter-stops true mega = omega arith
letter-stops true giga = omega arith
letter-stops true tera = omega arith
letter-stops true peta = omega arith
letter-stops true exa = omega arith
letter-stops false kilo = omega arith
letter-stops false mega = omega arith
letter-stops false giga = omega arith
letter-stops false tera = omega arith
letter-stops false peta = omega arith
letter-stops false exa = omega arith

read_number-decimal :
    (d x : ℕ) (cs : List ℕ)
    → d < 10
    → d ≢ 0
    → read_number ((d + 48) ∷ x ∷ cs) ≡ some (read_digits 10 0 ((d + 48) ∷ x ∷ cs))
unfolding read_number
read_number-decimal d x cs lt ne =
    let decimal : (d + 48 == 48) ≡ false = ground arith in
    let digit : ltb d 10 ≡ true = ground arith in rw (decimal, digit_value-digit d lt, digit)

read_number-text :
    (d : ℕ) (ds : List ℕ) (u : ℕ) (tail : List ℕ)
    → AreDigits (d ∷ ds)
    → d ≢ 0
    → 10 ≤ digit_value u
    → read_number (text (d ∷ ds) ++ u ∷ tail) ≡ some (number 0 (d ∷ ds), u ∷ tail)
read_number-text d [] u tail digits ne stop =
    read_number-decimal d u tail digits.0 ne
    ∙ ap some (read_digits-text 0 (d ∷ []) u tail digits stop)
read_number-text d (e ∷ es) u tail digits ne stop =
    read_number-decimal d (e + 48) (text es ++ u ∷ tail) digits.0 ne
    ∙ ap some (read_digits-text 0 (d ∷ e ∷ es) u tail digits stop)

strtoull-digit :
    (d : ℕ) (cs : List ℕ) (n : ℕ) (rest : List ℕ)
    → d < 10
    → n < uint64_mod
    → read_number ((d + 48) ∷ cs) ≡ some (n, rest)
    → strtoull ((d + 48) ∷ cs) ≡ (n, rest)
unfolding strtoull after_space skip_space
strtoull-digit d cs n rest lt small reads =
    let no_space : ((d + 48 == 32) || (leb 9 (d + 48) && leb (d + 48) 13)) ≡ false = ground arith in
    let no_minus : (d + 48 == 45) ≡ false = ground arith in
    let no_plus : (d + 48 == 43) ≡ false = ground arith in
    let fits : leb uint64_mod n ≡ false = ground arith in
    rw (no_space, no_minus, no_plus, reads, fits)

-- A decimal number of at most 64 bits that does not begin with 0, and one of the units K, M, G, T, P
-- and E in either case, is that number times a power of 1024, reduced to 64 bits.
pub tsl_parse_mem_bytes-text :
    (d : ℕ) (ds : List ℕ) (upper : Bool) (u : MemUnit) (tail : List ℕ)
    → AreDigits (d ∷ ds)
    → d ≢ 0
    → number 0 (d ∷ ds) < uint64_mod
    → tsl_parse_mem_bytes (text (d ∷ ds) ++ letter upper u ∷ tail)
      ≡ (a_ok, number 0 (d ∷ ds) * 1024 ^ power u % uint64_mod)
unfolding tsl_parse_mem_bytes
tsl_parse_mem_bytes-text d ds upper u tail digits ne small =
    let n = number 0 (d ∷ ds) in
    let whole : n % uint64_mod ≡ n = omega arith in
    let reads = read_number-text d ds (letter upper u) tail digits ne (letter-stops upper u) in
    rw
      (
        strtoull-digit d (text ds ++ letter upper u ∷ tail) n (letter upper u ∷ tail) digits.0 small
            reads,
        shifts_of-letter upper u,
      )
      (ap (λ (v : ℕ). (a_ok, v))
        (ap (shift_tens (power u)) (sym whole) ∙ shift_tens-pow (power u) n))
