-- ===== src/Tsl/Parsers/Interval.antt =====
-- What `tsl_parse_time_interval` of tsl/parsers.c answers.
use tsl_sdr.Prelude.{
  ℕ, ◌*◌, ◌%◌, ◌≡◌, inl, inr, false, Bool-cases, Option-cases, ◌||◌, List, ◌==◌, if◌then◌else◌,
  arith,
}
use tsl_sdr.Tsl.Result.{a_ok, a_e_inval}
use tsl_sdr.Tsl.Parsers.Strtoull.{uint64_mod, peek, strtoull}
use tsl_sdr.Tsl.Parsers.Ops.{nanoseconds, rest_of, after_unit, tsl_parse_time_interval}

after_unit-refused : (next n old : ℕ) → after_unit next n old ≡ (a_e_inval, old)
unfolding after_unit
after_unit-refused next n old = elim (Bool-cases (0 == next)) [
  | inl ended ↦ let no_s : (115 == next) ≡ false = ground arith in rw (ended, no_s)
  | inr goes_on ↦ rw goes_on
]

-- `tsl_parse_time_interval` accepts a number alone or 0 with A_OK, refuses every other text with
-- A_E_INVAL, and never stores a value.
pub tsl_parse_time_interval-unchanged :
    (str : List ℕ) (old : ℕ)
    → tsl_parse_time_interval str old
      ≡ (if (0 == (strtoull str).0) || (peek (strtoull str).1 == 0) then a_ok else a_e_inval, old)
unfolding tsl_parse_time_interval
tsl_parse_time_interval-unchanged str old =
    elim (Bool-cases ((0 == (strtoull str).0) || (peek (strtoull str).1 == 0))) [
      | inl accepted ↦ rw accepted
      | inr refused ↦ elim (Option-cases (nanoseconds (peek (strtoull str).1))) [
        | inl no_unit ↦ rw (refused, no_unit)
        | inr (factor, unit) ↦ rw (
          refused,
          unit,
          after_unit-refused (peek (rest_of (strtoull str).1))
              ((strtoull str).0 * factor % uint64_mod) old,
        )
      ]
    ]
