-- ===== src/Tsl/Parsers/Strtoull.antt =====
-- `strtoull` of the C library with base 0, as tsl/parsers.c calls it. A string is the list of its
-- characters before the terminator.
use tsl_sdr.Prelude.{
  ℕ, ◌+◌, ◌-◌, ◌*◌, ◌%◌, ◌^◌, Bool, true, false, ◌&&◌, ◌||◌, Option, none, some, List, [], ◌∷◌, ltb,
  leb, ◌==◌, if◌then◌else◌,
}

abbrev pub uint64_mod : ℕ
uint64_mod = 2 ^ 64

-- `*p`
abbrev pub peek : List ℕ → ℕ
peek [] = 0
peek (c ∷ cs) = c

-- The value of a digit, or 36.
unfoldable pub digit_value : ℕ → ℕ
digit_value c =
    if leb 48 c && leb c 57
    then c - 48
    else if leb 97 c && leb c 102
    then c - 87
    else if leb 65 c && leb c 70
    then c - 55
    else 36

-- The digits in front, most significant first.
unfoldable pub read_digits : (base acc : ℕ) → List ℕ → ℕ × List ℕ
read_digits base acc [] = (acc, [])
read_digits base acc (c ∷ cs) =
    let more = read_digits base (acc * base + digit_value c) cs in
    if ltb (digit_value c) base then more else (acc, c ∷ cs)

-- A number with a prefix `0x` or `0`, or in decimal; `none` where no digit stands.
unfoldable pub read_number : List ℕ → Option (ℕ × List ℕ)
unfolding digit_value read_digits
read_number [] = none
read_number (c ∷ []) = if ltb (digit_value c) 10 then some (digit_value c, []) else none
read_number (c ∷ x ∷ cs) =
    if (c == 48) && ((x == 120) || (x == 88)) && ltb (digit_value (peek cs)) 16
    then some (read_digits 16 0 cs)
    else if c == 48
    then some (read_digits 8 0 (c ∷ x ∷ cs))
    else if ltb (digit_value c) 10
    then some (read_digits 10 0 (c ∷ x ∷ cs))
    else none

unfoldable pub skip_space : List ℕ → List ℕ
skip_space [] = []
skip_space (c ∷ cs) =
    let more = skip_space cs in if (c == 32) || (leb 9 c && leb c 13) then more else c ∷ cs

-- The value, at most 2^64 - 1, and where reading stopped: at the start if there is no number.
abbrev pub signed_value : (negative : Bool) → ℕ → ℕ
signed_value negative v =
    if leb uint64_mod v
    then uint64_mod - 1
    else if negative
    then (uint64_mod - v) % uint64_mod
    else v

abbrev pub finish : (str : List ℕ) → (negative : Bool) → Option (ℕ × List ℕ) → ℕ × List ℕ
finish str negative none = (0, str)
finish str negative (some (v, rest)) = (signed_value negative v, rest)

unfoldable pub after_space : (str : List ℕ) → List ℕ → ℕ × List ℕ
unfolding read_number
after_space str [] = (0, str)
after_space str (c ∷ cs) =
    if c == 45
    then finish str true (read_number cs)
    else if c == 43
    then finish str false (read_number cs)
    else finish str false (read_number (c ∷ cs))

unfoldable pub strtoull : List ℕ → ℕ × List ℕ
unfolding after_space skip_space
strtoull str = after_space str (skip_space str)
