-- ===== src/Tsl/Parsers/Examples.antt =====
-- Texts for the parsers of tsl/parsers.c.
use tsl_sdr.Prelude.{
  ℕ, ◌*◌, ◌%◌, ◌^◌, ◌≡◌, refl, false, ◌||◌, List, [], ◌∷◌, ◌++◌, ◌==◌, if◌then◌else◌, arith,
}
use tsl_sdr.Tsl.Result.{a_ok, a_e_inval}
use tsl_sdr.Tsl.Parsers.Strtoull.{uint64_mod, peek, strtoull}
use tsl_sdr.Tsl.Parsers.Ops.{tsl_parse_mem_bytes, tsl_parse_time_interval}
use tsl_sdr.Tsl.Parsers.MemBytes.{text, number, mega, power, letter, tsl_parse_mem_bytes-text}
use tsl_sdr.Tsl.Parsers.Interval.{tsl_parse_time_interval-unchanged}

-- "64m"
tsl_parse_mem_bytes-text_example :
    tsl_parse_mem_bytes (text (6 ∷ 4 ∷ []) ++ letter false mega ∷ [])
    ≡ (a_ok, number 0 (6 ∷ 4 ∷ []) * 1024 ^ power mega % uint64_mod)
tsl_parse_mem_bytes-text_example =
    tsl_parse_mem_bytes-text 6 (4 ∷ []) false mega [] (omega arith, (omega arith, tt))
      (λ e. absurd (omega (arith, e))) (omega arith)

-- "10ms"
abbrev ten_milliseconds : List ℕ
ten_milliseconds = 49 ∷ 48 ∷ 109 ∷ 115 ∷ []

tsl_parse_time_interval-unchanged_example : tsl_parse_time_interval ten_milliseconds 7 ≡ (
  if (0 == (strtoull ten_milliseconds).0) || (peek (strtoull ten_milliseconds).1 == 0)
      then a_ok
      else a_e_inval,
  7,
)
tsl_parse_time_interval-unchanged_example = tsl_parse_time_interval-unchanged ten_milliseconds 7

ten_milliseconds-read : strtoull ten_milliseconds ≡ (10, 109 ∷ 115 ∷ [])
unfolding strtoull
ten_milliseconds-read = refl
