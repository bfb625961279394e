-- ===== src/Tsl/Clock/Parse.antt =====
-- What `tsl_calc_clockfreq` of tsl/time.c reads from a line with a decimal number.
use native.Mathlib.Nat.{pow-suc}
use tsl_sdr.Prelude.{
  ℕ, zero, suc, ◌+◌, ◌*◌, ◌/◌, ◌%◌, ◌^◌, ◌≤◌, ◌<◌, ◌≡◌, refl, sym, ap, ◌∙◌, true, false, some, List,
  [], ◌∷◌, ◌++◌, length, ◌==◌, arith,
}
use tsl_sdr.Tsl.Result.{a_ok}
use tsl_sdr.Tsl.Parsers.MemBytes.{AreDigits, text, number}
use tsl_sdr.Tsl.Clock.Ops.{
  ClockfreqParseState, before_colon, after_colon, number_before_decimal, number_after_decimal,
  parsed, is_num, is_white_space, Parse, go_on, stop, with_digit, scaled, digit_round,
  decimal_round, colon_round, blank_round, other_round, parse_round, parse_loop, memmem, cpu_mhz,
  parse_start, clock_hz, parse_from, tsl_calc_clockfreq,
}

abbrev pub AreBlank : List ℕ → Type 0
AreBlank [] = Unit
AreBlank (c ∷ cs) = (is_white_space c ≡ true) × AreBlank cs

number-grows : (acc : ℕ) (ds : List ℕ) → acc ≤ number acc ds
number-grows acc [] = omega arith
number-grows acc (d ∷ ds) = let more = number-grows (acc * 10 + d) ds in omega (arith, more)

with_digit-digit : (hz d : ℕ) → hz * 10 + d < 2 ^ 64 → with_digit hz (d + 48) ≡ hz * 10 + d
unfolding with_digit
with_digit-digit hz d fits = omega arith

is_num-digit : (d : ℕ) → d < 10 → is_num (d + 48) ≡ true
unfolding is_num
is_num-digit d lt = ground arith

-- A blank is neither a digit nor one of the signs.
record IsPlain (c : ℕ) : Type 0 where
  no_digit : is_num c ≡ false
  no_point : (c == 46) ≡ false
  no_colon : (c == 58) ≡ false

blank-IsPlain : (c : ℕ) → is_white_space c ≡ true → IsPlain c
unfolding is_white_space is_num
blank-IsPlain c blank = record {
  no_digit = ground arith;
  no_point = ground arith;
  no_colon = ground arith;
}

module _ (c : ℕ) (cs : List ℕ) (p q : Parse) where
  parse_loop-go_on : parse_round c p ≡ go_on q → parse_loop (c ∷ cs) p ≡ parse_loop cs q
  unfolding parse_loop
  parse_loop-go_on e = rw (parse_loop, e) refl

  parse_loop-stop : parse_round c p ≡ stop q → parse_loop (c ∷ cs) p ≡ some q
  unfolding parse_loop
  parse_loop-stop e = rw (parse_loop, e) refl

abbrev at : ClockfreqParseState → (hz scale : ℕ) → Parse
at st hz scale = record { st = st; hz = hz; scale = scale }

module _ (p : Parse) where
  round-blank : (c : ℕ) → is_white_space c ≡ true → parse_round c p ≡ blank_round p.st p
  unfolding parse_round
  round-blank c blank =
      let plain = blank-IsPlain c blank in
      rw (plain.no_digit, plain.no_point, plain.no_colon, blank) refl

  round-digit : (d : ℕ) → d < 10 → parse_round (d + 48) p ≡ digit_round p.st (d + 48) p
  unfolding parse_round
  round-digit d digit = rw (is_num-digit d digit) refl

  round-point : parse_round 46 p ≡ decimal_round p.st p
  unfolding parse_round is_num
  round-point = refl

  round-colon : parse_round 58 p ≡ colon_round p.st p
  unfolding parse_round is_num
  round-colon = refl

-- Blanks before and behind the colon are passed over.
parse_loop-blanks :
    (p : Parse) (bs cs : List ℕ)
    → blank_round p.st p ≡ go_on p
    → AreBlank bs
    → parse_loop (bs ++ cs) p ≡ parse_loop cs p
parse_loop-blanks p [] cs passes blanks = refl
parse_loop-blanks p (b ∷ bs) cs passes (blank, blanks) =
    parse_loop-go_on b (bs ++ cs) p p (round-blank p b blank ∙ passes)
    ∙ parse_loop-blanks p bs cs passes blanks

digits-before :
    (scale hz : ℕ) (ds cs : List ℕ)
    → AreDigits ds
    → number hz ds < 2 ^ 64
    → parse_loop (text ds ++ cs) (at number_before_decimal hz scale)
      ≡ parse_loop cs (at number_before_decimal (number hz ds) scale)
unfolding digit_round
digits-before scale hz [] cs digits fits = refl
digits-before scale hz (d ∷ ds) cs (digit, digits) fits =
    let grows = number-grows (hz * 10 + d) ds in
    let added = with_digit-digit hz d (omega (arith, grows, fits)) in
    parse_loop-go_on (d + 48) (text ds ++ cs) (at number_before_decimal hz scale)
      (at number_before_decimal (hz * 10 + d) scale)
      (round-digit (at number_before_decimal hz scale) d digit
        ∙ ap (λ (x : ℕ). go_on (at number_before_decimal x scale)) added)
    ∙ digits-before scale (hz * 10 + d) ds cs digits fits

tenth : (n : ℕ) → 10 ^ suc n / 10 ≡ 10 ^ n
tenth n = omega (arith, pow-suc 10 n)

pow-positive : (n : ℕ) → 1 ≤ 10 ^ n
pow-positive zero = omega arith
pow-positive (suc n) = omega (arith, pow-suc 10 n, pow-positive n)

not_used_up : (n : ℕ) → (10 ^ suc n == 1) ≡ false
not_used_up n =
    let big : 10 ≤ 10 ^ suc n = omega (arith, pow-suc 10 n, pow-positive n) in ground arith

digit-after :
    (n hz d : ℕ) (cs : List ℕ)
    → d < 10
    → hz * 10 + d < 2 ^ 64
    → parse_loop ((d + 48) ∷ cs) (at number_after_decimal hz (10 ^ suc (suc n)))
      ≡ parse_loop cs (at number_after_decimal (hz * 10 + d) (10 ^ suc n))
unfolding digit_round scaled
digit-after n hz d cs digit fits =
    let p = at number_after_decimal hz (10 ^ suc (suc n)) in
    let q = at number_after_decimal (hz * 10 + d) (10 ^ suc n) in
    let next : scaled (with_digit hz (d + 48)) (10 ^ suc (suc n) / 10) ≡ go_on q =
      rw (with_digit-digit hz d fits, tenth (suc n), not_used_up n) refl in
    parse_loop-go_on (d + 48) cs p q (round-digit p d digit ∙ next)

-- The digits behind the decimal point, up to the blank that ends them or to the last one that the
-- scale has room for.
digits-after :
    (j hz : ℕ) (fs : List ℕ) (w : ℕ) (rest : List ℕ)
    → AreDigits fs
    → is_white_space w ≡ true
    → 1 ≤ length fs + j
    → number hz fs < 2 ^ 64
    → parse_loop (text fs ++ w ∷ rest) (at number_after_decimal hz (10 ^ (length fs + j)))
      ≡ some (at parsed (number hz fs) (10 ^ j))
unfolding digit_round blank_round scaled
digits-after zero hz [] w rest digits blank room fits = absurd (omega arith)
digits-after (suc j) hz [] w rest digits blank room fits =
    let p = at number_after_decimal hz (10 ^ suc j) in
    let room' : 0 + suc j ≡ suc j = omega arith in
    rw room' (parse_loop-stop w rest p (at parsed hz (10 ^ suc j)) (round-blank p w blank))
digits-after zero hz (f ∷ []) w rest (digit, digits) blank room fits =
    let p = at number_after_decimal hz 10 in
    let q = at parsed (hz * 10 + f) 1 in
    let last : scaled (with_digit hz (f + 48)) 1 ≡ stop q =
      ap (λ (x : ℕ). stop (at parsed x 1)) (with_digit-digit hz f fits) in
    parse_loop-stop (f + 48) (w ∷ rest) p q (round-digit p f digit ∙ last)
digits-after (suc j) hz (f ∷ []) w rest (digit, digits) blank room fits =
    let now : 1 + suc j ≡ suc (suc j) = omega arith in
    let next : 0 + suc j ≡ suc j = omega arith in
    let more = digits-after (suc j) (hz * 10 + f) [] w rest digits blank (omega arith) fits in
    rw now (digit-after j hz f (w ∷ rest) digit fits ∙ (rw next at more))
digits-after j hz (f ∷ g ∷ fs) w rest (digit, digits) blank room fits =
    let grows = number-grows (hz * 10 + f) (g ∷ fs) in
    let now : suc (suc (length fs)) + j ≡ suc (suc (length fs + j)) = omega arith in
    let next : suc (length fs) + j ≡ suc (length fs + j) = omega arith in
    let more = digits-after j (hz * 10 + f) (g ∷ fs) w rest digits blank (omega arith) fits in
    let fits_now : hz * 10 + f < 2 ^ 64 = omega (arith, grows, fits) in
    rw now (
      digit-after (length fs + j) hz f (text (g ∷ fs) ++ w ∷ rest) digit fits_now
      ∙ (rw next at more))

number-append : (acc : ℕ) (ds fs : List ℕ) → number acc (ds ++ fs) ≡ number (number acc ds) fs
number-append acc [] fs = refl
number-append acc (d ∷ ds) fs = number-append (acc * 10 + d) ds fs

parse_loop-cpu_mhz :
    (cs : List ℕ) → parse_loop (cpu_mhz ++ cs) parse_start ≡ parse_loop cs parse_start
unfolding parse_loop parse_round is_num is_white_space blank_round other_round
parse_loop-cpu_mhz cs = refl

-- From the colon on, up to the point.
parse_loop-whole :
    (gap : List ℕ) (d : ℕ) (ds cs : List ℕ)
    → AreBlank gap
    → AreDigits (d ∷ ds)
    → number 0 (d ∷ ds) < 2 ^ 64
    → parse_loop (58 ∷ (gap ++ (text (d ∷ ds) ++ 46 ∷ cs))) parse_start
      ≡ parse_loop cs (at number_after_decimal (number 0 (d ∷ ds)) 1000000)
unfolding colon_round blank_round digit_round decimal_round
parse_loop-whole gap d ds cs blanks (digit, digits) fits =
    let colon = at after_colon 0 1000000 in
    let first = at number_before_decimal (0 * 10 + d) 1000000 in
    let whole = at number_before_decimal (number 0 (d ∷ ds)) 1000000 in
    let point = at number_after_decimal (number 0 (d ∷ ds)) 1000000 in
    let grows = number-grows (0 * 10 + d) ds in
    let added = with_digit-digit 0 d (omega (arith, grows, fits)) in
    parse_loop-go_on 58 (gap ++ (text (d ∷ ds) ++ 46 ∷ cs)) parse_start colon
      (round-colon parse_start)
    ∙ parse_loop-blanks colon gap (text (d ∷ ds) ++ 46 ∷ cs) refl blanks
    ∙ parse_loop-go_on (d + 48) (text ds ++ 46 ∷ cs) colon first (
        round-digit colon d digit
        ∙ ap (λ (x : ℕ). go_on (at number_before_decimal x 1000000)) added)
    ∙ digits-before 1000000 (0 * 10 + d) ds (46 ∷ cs) digits fits
    ∙ parse_loop-go_on 46 cs whole point (round-point whole)

blank-start : blank_round before_colon parse_start ≡ go_on parse_start
unfolding blank_round
blank-start = refl

-- A line as it stands in the system's description, with blanks and digits.
abbrev pub mhz_line : (label gap ds fs : List ℕ) → (w : ℕ) → (rest : List ℕ) → List ℕ
mhz_line label gap ds fs w rest =
    cpu_mhz ++ (label ++ 58 ∷ (gap ++ (text ds ++ 46 ∷ (text fs ++ w ∷ rest))))

-- Where the first "cpu MHz" of the text is followed by blanks, a colon, blanks, a number with a
-- decimal point, at least one digit before it and at most six behind, and a blank, and the number's
-- digits are those of a number below 2^64: the result is A_OK and the frequency is that number of
-- megahertz in hertz, reduced to 64 bits.
pub tsl_calc_clockfreq-mhz_line :
    (file label gap : List ℕ) (d : ℕ) (ds fs : List ℕ) (w : ℕ) (rest : List ℕ) (j : ℕ)
    → memmem file cpu_mhz ≡ some (mhz_line label gap (d ∷ ds) fs w rest)
    → AreBlank label
    → AreBlank gap
    → AreDigits (d ∷ ds)
    → AreDigits fs
    → is_white_space w ≡ true
    → length fs + j ≡ 6
    → number 0 ((d ∷ ds) ++ fs) < 2 ^ 64
    → tsl_calc_clockfreq (some file) ≡ (a_ok, some (10 ^ j * number 0 ((d ∷ ds) ++ fs) % 2 ^ 64))
unfolding tsl_calc_clockfreq parse_from clock_hz
tsl_calc_clockfreq-mhz_line file label gap d ds fs w rest j found blank1 blank2 digits digits' blank
      six fits =
    let all = number-append 0 (d ∷ ds) fs in
    let fits_all : number (number 0 (d ∷ ds)) fs < 2 ^ 64 = rw (sym all) fits in
    let grows = number-grows (number 0 (d ∷ ds)) fs in
    let tail = text fs ++ w ∷ rest in
    let frac =
      digits-after j (number 0 (d ∷ ds)) fs w rest digits' blank (omega (arith, six)) fits_all in
    let ends =
      parse_loop-cpu_mhz (label ++ 58 ∷ (gap ++ (text (d ∷ ds) ++ 46 ∷ tail)))
      ∙ parse_loop-blanks parse_start label (58 ∷ (gap ++ (text (d ∷ ds) ++ 46 ∷ tail))) blank-start
          blank1
      ∙ parse_loop-whole gap d ds tail blank2 digits (omega (arith, grows, fits_all))
      ∙ (rw six at frac) in
    rw (found, ends, all) refl
