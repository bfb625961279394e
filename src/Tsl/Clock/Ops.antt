-- ===== src/Tsl/Clock/Ops.antt =====
-- `tsl_calc_clockfreq` of tsl/time.c. A text is the list of its bytes.
use tsl_sdr.Prelude.{
  ℕ, ◌+◌, ◌-◌, ◌*◌, ◌/◌, ◌%◌, ◌^◌, Bool, true, false, ◌&&◌, ◌||◌, Option, none, some, List, [], ◌∷◌,
  leb, ◌==◌, if◌then◌else◌,
}
use tsl_sdr.Tsl.Result.{Result, a_ok, a_e_inval}

pub data ClockfreqParseState : Type 0 where
  before_colon after_colon number_before_decimal number_after_decimal parsed : ClockfreqParseState

-- `IS_NUM` and `IS_WHITE_SPACE`
unfoldable pub is_num : ℕ → Bool
is_num c = leb 48 c && leb c 57

unfoldable pub is_white_space : ℕ → Bool
is_white_space c = (c == 9) || (c == 10) || (c == 13) || (c == 32)

-- The variables of the loop.
pub record Parse : Type 0 where
  pub st : ClockfreqParseState
  pub hz : ℕ
  pub scale : ℕ

-- What a round of the loop comes to: the next one, `break`, or `goto done`.
pub data Round : Type 0 where
  go_on stop : Parse → Round
  refuse : Round

unfoldable pub with_digit : (hz c : ℕ) → ℕ
with_digit hz c = (hz * 10 + (c - 48)) % 2 ^ 64

-- A digit behind the decimal point, the state being the one after the number when the scale is
-- used up.
unfoldable pub scaled : (hz scale : ℕ) → Round
scaled hz scale =
    if scale == 1
    then stop (record { st = parsed; hz = hz; scale = scale })
    else go_on (record { st = number_after_decimal; hz = hz; scale = scale })

unfoldable pub digit_round : ClockfreqParseState → (c : ℕ) → Parse → Round
unfolding with_digit scaled
digit_round before_colon c p = stop p
digit_round parsed c p = stop p
digit_round after_colon c p =
    go_on (record p { st = number_before_decimal; hz = with_digit p.hz c })
digit_round number_before_decimal c p = go_on (record p { hz = with_digit p.hz c })
digit_round number_after_decimal c p = scaled (with_digit p.hz c) (p.scale / 10)

unfoldable pub decimal_round : ClockfreqParseState → Parse → Round
decimal_round number_before_decimal p = go_on (record p { st = number_after_decimal })
decimal_round before_colon p = stop p
decimal_round after_colon p = stop p
decimal_round number_after_decimal p = stop p
decimal_round parsed p = stop p

unfoldable pub colon_round : ClockfreqParseState → Parse → Round
colon_round before_colon p = go_on (record p { st = after_colon })
colon_round after_colon p = stop p
colon_round number_before_decimal p = stop p
colon_round number_after_decimal p = stop p
colon_round parsed p = stop p

unfoldable pub blank_round : ClockfreqParseState → Parse → Round
blank_round number_before_decimal p = stop (record p { st = parsed })
blank_round number_after_decimal p = stop (record p { st = parsed })
blank_round before_colon p = go_on p
blank_round after_colon p = go_on p
blank_round parsed p = go_on p

unfoldable pub other_round : ClockfreqParseState → Parse → Round
other_round before_colon p = go_on p
other_round after_colon p = refuse
other_round number_before_decimal p = refuse
other_round number_after_decimal p = refuse
other_round parsed p = refuse

unfoldable pub parse_round : (c : ℕ) → Parse → Round
unfolding is_num is_white_space digit_round decimal_round colon_round blank_round other_round
parse_round c p =
    if is_num c
    then digit_round p.st c p
    else if c == 46
    then decimal_round p.st p
    else if c == 58
    then colon_round p.st p
    else if is_white_space c
    then blank_round p.st p
    else other_round p.st p

-- The loop: `none` where it leaves by `goto done`.
unfoldable pub parse_loop : List ℕ → Parse → Option Parse
unfolding parse_round
parse_loop [] p = some p
parse_loop (c ∷ cs) p = elim (parse_round c p) [
  | go_on q ↦ parse_loop cs q
  | stop q ↦ some q
  | refuse ↦ none
]

-- `memmem` of the C library: the text from the first place on where the bytes stand.
unfoldable pub starts_with : List ℕ → List ℕ → Bool
starts_with [] text = true
starts_with (x ∷ xs) [] = false
starts_with (x ∷ xs) (c ∷ cs) = (x == c) && starts_with xs cs

unfoldable pub memmem : (text needle : List ℕ) → Option (List ℕ)
unfolding starts_with
memmem [] needle = if starts_with needle [] then some [] else none
memmem (c ∷ cs) needle =
    let later = memmem cs needle in if starts_with needle (c ∷ cs) then some (c ∷ cs) else later

-- "cpu MHz"
abbrev pub cpu_mhz : List ℕ
cpu_mhz = 99 ∷ 112 ∷ 117 ∷ 32 ∷ 77 ∷ 72 ∷ 122 ∷ []

abbrev pub parse_start : Parse
parse_start = record { st = before_colon; hz = 0; scale = 1000000 }

unfoldable pub clock_hz : Option Parse → Result × Option ℕ
clock_hz none = (a_e_inval, none)
clock_hz (some p) = (a_ok, some (p.scale * p.hz % 2 ^ 64))

unfoldable pub parse_from : Option (List ℕ) → Result × Option ℕ
unfolding parse_loop clock_hz
parse_from none = (a_e_inval, none)
parse_from (some mhz) = clock_hz (parse_loop mhz parse_start)

-- The result, and what is stored. `cpuinfo` is what the system gives of /proc/cpuinfo, at most
-- 4,096 bytes, or `none` when it cannot be opened or read. Where there is no memory for the text,
-- the program stops before.
unfoldable pub tsl_calc_clockfreq : (cpuinfo : Option (List ℕ)) → Result × Option ℕ
unfolding memmem parse_from
tsl_calc_clockfreq none = (a_e_inval, none)
tsl_calc_clockfreq (some text) = parse_from (memmem text cpu_mhz)
