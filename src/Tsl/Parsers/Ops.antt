-- ===== src/Tsl/Parsers/Ops.antt =====
-- `tsl_parse_mem_bytes` and `tsl_parse_time_interval` of tsl/parsers.c. The arguments are not NULL;
-- the second part of a result is `*val` afterwards.
use tsl_sdr.Prelude.{
  ℕ, zero, suc, ◌*◌, ◌%◌, not, ◌||◌, Option, none, some, List, [], ◌∷◌, ◌==◌, if◌then◌else◌,
}
use tsl_sdr.Tsl.Result.{Result, a_ok, a_e_inval}
use tsl_sdr.Tsl.Parsers.Strtoull.{uint64_mod, peek, strtoull}

-- How many cases of the switch are run for a unit, each of which is `memval <<= 10`.
unfoldable pub shifts_of : ℕ → ℕ
shifts_of c =
    if (c == 69) || (c == 101)
    then 6
    else if (c == 80) || (c == 112)
    then 5
    else if (c == 84) || (c == 116)
    then 4
    else if (c == 71) || (c == 103)
    then 3
    else if (c == 77) || (c == 109)
    then 2
    else if (c == 75) || (c == 107)
    then 1
    else 0

unfoldable pub shift_tens : ℕ → ℕ → ℕ
shift_tens zero memval = memval
shift_tens (suc k) memval = shift_tens k (memval * 1024 % uint64_mod)

unfoldable pub tsl_parse_mem_bytes : List ℕ → Result × ℕ
tsl_parse_mem_bytes str =
    let (memval, end) = strtoull str in (a_ok, shift_tens (shifts_of (peek end)) memval)

-- The factor of a unit of time, and `none` for the default case.
unfoldable pub nanoseconds : ℕ → Option ℕ
nanoseconds c =
    if c == 110
    then some 1
    else if c == 117
    then some 1000
    else if c == 109
    then some 1000000
    else if c == 115
    then some 1000000000
    else none

abbrev pub rest_of : List ℕ → List ℕ
rest_of [] = []
rest_of (c ∷ cs) = cs

-- The check after the unit: `'\0' != *endptr || 's' != *endptr`.
unfoldable pub after_unit : (next n old : ℕ) → Result × ℕ
after_unit next n old = if not (0 == next) || not (115 == next) then (a_e_inval, old) else (a_ok, n)

unfoldable pub tsl_parse_time_interval : List ℕ → (old : ℕ) → Result × ℕ
tsl_parse_time_interval str old =
    let (n, end) = strtoull str in
    if (0 == n) || (peek end == 0) then (a_ok, old) else elim (nanoseconds (peek end)) [
      | none ↦ (a_e_inval, old)
      | some factor ↦ after_unit (peek (rest_of end)) (n * factor % uint64_mod) old
    ]
