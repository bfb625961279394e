-- ===== src/Tsl/Result.antt =====
-- `aresult_t` of tsl/result.h and its codes of tsl/errors.h, and the 32-bit pattern of each.
use tsl_sdr.Prelude.{ℕ, ◌*◌, ◌/◌, ◌%◌, ◌^◌, Bool, true, false, bit_or, ◌==◌, if◌then◌else◌}

-- The codes of errors.h.
pub data Result : Type 0 where
  a_ok a_e_nomem a_e_badargs a_e_notfound a_e_busy a_e_inval a_e_nothread a_e_empty : Result
  a_e_no_socket a_e_noent a_e_inv_date a_e_nospc a_e_exist a_e_unknown a_e_done : Result
  a_e_overflow a_e_full a_e_eof a_e_rejected a_e_timeout : Result

-- The bits of TSL_DEPOSIT: the low `size` bits of `value`, moved up by `offset`.
abbrev pub deposit : (value offset size : ℕ) → ℕ
deposit value offset size = value % 2 ^ size * 2 ^ offset

-- ARESULT_CODE as the word of an `int32_t`.
abbrev pub aresult_code : Bool → Bool → (facil code : ℕ) → ℕ
aresult_code err warn facil code =
    bit_or
      (bit_or (bit_or (if err then 2 ^ 31 else 0) (if warn then 2 ^ 30 else 0))
        (deposit facil 16 14))
      (deposit code 0 16)

abbrev pub aresult_error : ℕ → ℕ
aresult_error code = aresult_code true false 0 code

unfoldable pub word : Result → ℕ
word Result.a_ok = aresult_code false false 0 0
word Result.a_e_nomem = aresult_error 1
word Result.a_e_badargs = aresult_error 2
word Result.a_e_notfound = aresult_error 3
word Result.a_e_busy = aresult_error 4
word Result.a_e_inval = aresult_error 5
word Result.a_e_nothread = aresult_error 6
word Result.a_e_empty = aresult_error 7
word Result.a_e_no_socket = aresult_error 8
word Result.a_e_noent = aresult_error 9
word Result.a_e_inv_date = aresult_error 10
word Result.a_e_nospc = aresult_error 11
word Result.a_e_exist = aresult_error 12
word Result.a_e_unknown = aresult_error 13
word Result.a_e_done = aresult_error 14
word Result.a_e_overflow = aresult_error 15
word Result.a_e_full = aresult_error 16
word Result.a_e_eof = aresult_error 17
word Result.a_e_rejected = aresult_error 18
word Result.a_e_timeout = aresult_error 19

-- FAILED: the test of bit 31 on the word.
unfoldable pub failed : Result → Bool
unfolding word
failed r = if word r / 2 ^ 31 % 2 == 1 then true else false
