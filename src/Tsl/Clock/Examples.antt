-- ===== src/Tsl/Clock/Examples.antt =====
-- Descriptions as tsl/time.c reads them.
use tsl_sdr.Prelude.{ℕ, ◌≡◌, refl, true, none, some, List, [], ◌∷◌, ◌++◌, arith}
use tsl_sdr.Tsl.Result.{a_ok, a_e_inval}
use tsl_sdr.Tsl.Clock.Ops.{
  is_num, is_white_space, digit_round, decimal_round, colon_round, blank_round, other_round,
  with_digit, scaled, parse_round, parse_loop, starts_with, memmem, cpu_mhz, clock_hz, parse_from,
  tsl_calc_clockfreq,
}
use tsl_sdr.Tsl.Clock.Parse.{mhz_line, tsl_calc_clockfreq-mhz_line}

-- "cpu MHz\t\t: 2400.125\nc" behind a line "cpu\n".
abbrev line : List ℕ
line = mhz_line (9 ∷ 9 ∷ []) (32 ∷ []) (2 ∷ 4 ∷ 0 ∷ 0 ∷ []) (1 ∷ 2 ∷ 5 ∷ []) 10 (99 ∷ [])

abbrev cpuinfo : List ℕ
cpuinfo = 99 ∷ 112 ∷ 117 ∷ 10 ∷ line

memmem-cpuinfo : memmem cpuinfo cpu_mhz ≡ some line
unfolding memmem starts_with
memmem-cpuinfo = refl

blank_tab : is_white_space 9 ≡ true
unfolding is_white_space
blank_tab = refl

blank_space : is_white_space 32 ≡ true
unfolding is_white_space
blank_space = refl

blank_newline : is_white_space 10 ≡ true
unfolding is_white_space
blank_newline = refl

tsl_calc_clockfreq-mhz_line_example : tsl_calc_clockfreq (some cpuinfo) ≡ (a_ok, some 2400125000)
tsl_calc_clockfreq-mhz_line_example =
    tsl_calc_clockfreq-mhz_line cpuinfo (9 ∷ 9 ∷ []) (32 ∷ []) 2 (4 ∷ 0 ∷ 0 ∷ []) (1 ∷ 2 ∷ 5 ∷ [])
      10 (99 ∷ []) 3 memmem-cpuinfo (blank_tab, (blank_tab, tt)) (blank_space, tt)
      (omega arith, (omega arith, (omega arith, (omega arith, tt))))
      (omega arith, (omega arith, (omega arith, tt))) blank_newline (omega arith) (omega arith)

-- A text that ends inside the number is read as if the number ended there.
cut_short : tsl_calc_clockfreq (some (cpu_mhz ++ 58 ∷ 50 ∷ [])) ≡ (a_ok, some 2000000)
unfolding is_num is_white_space with_digit scaled digit_round decimal_round colon_round blank_round
    other_round parse_round parse_loop starts_with memmem clock_hz parse_from tsl_calc_clockfreq
cut_short = refl

-- A letter behind the colon.
refused : tsl_calc_clockfreq (some (cpu_mhz ++ 58 ∷ 120 ∷ [])) ≡ (a_e_inval, none)
unfolding is_num is_white_space with_digit scaled digit_round decimal_round colon_round blank_round
    other_round parse_round parse_loop starts_with memmem clock_hz parse_from tsl_calc_clockfreq
refused = refl
