-- ===== src/Pager/Bch/Examples.antt =====
-- Runs of pager/bch_code.c, and the theorems about it at concrete words.
use tsl_sdr.Prelude.{
  ℕ, zero, suc, ◌+◌, ◌<◌, ◌≤◌, ◌≡◌, ◌≢◌, ◌⊎◌, refl, true, none, some, List, [], ◌∷◌, ◌++◌, arith,
  length, replicate,
}
use tsl_sdr.Tsl.Result.{a_ok}
use tsl_sdr.Pager.Bch.Code.{BchCode}
use tsl_sdr.Pager.Bch.Code31.{primitive, alpha, code31}
use tsl_sdr.Pager.Bch.New.{bch_code_new}
use tsl_sdr.Pager.Bch.Encode.{bch_code_encode}
use tsl_sdr.Pager.Bch.Decode.{bch_code_decode}
use tsl_sdr.Pager.Bch.Syndromes.{syn}
use tsl_sdr.Pager.Bch.Codeword.{IsCodeword, bch_code_encode-IsCodeword}
use tsl_sdr.Pager.Bch.Toggle.{toggle_all}
use tsl_sdr.Pager.Bch.Correction.{decode-toggle_all}
use tsl_sdr.Pager.Bch.Detection.{decode_first_zero-not-IsCodeword, decode-IsCodeword}
use tsl_sdr.Pager.Bch.RoundTrip.{sent, decode-encode}

abbrev message : List ℕ
message = 1 ∷ 0 ∷ 1 ∷ 1 ∷ 0 ∷ 0 ∷ 1 ∷ 0 ∷ 1 ∷ 1 ∷ 1 ∷ 0 ∷ 0 ∷ 0 ∷ 1 ∷ 0 ∷ 1 ∷ 0 ∷ 0 ∷ 1 ∷ 1 ∷ []

abbrev blank_bb : List ℕ
blank_bb = replicate 11 9

-- The generator itself, a codeword.
abbrev codeword : List ℕ
codeword = 1 ∷ 0 ∷ 0 ∷ 1 ∷ 0 ∷ 1 ∷ 1 ∷ 0 ∷ 1 ∷ 1 ∷ 1 ∷ replicate 20 0

-- The places 0, 2 and 5, whose powers add up to 0.
abbrev three_errors : List ℕ
three_errors = 1 ∷ 0 ∷ 1 ∷ 0 ∷ 0 ∷ 1 ∷ replicate 25 0

codeword_roots : (k : ℕ) → k < 4 → syn (k + 1) 0 codeword ≡ 0
unfolding syn alpha
codeword_roots zero h = refl
codeword_roots (suc zero) h = refl
codeword_roots (suc (suc zero)) h = refl
codeword_roots (suc (suc (suc zero))) h = refl
codeword_roots (suc (suc (suc (suc k)))) h = absurd (omega arith)

codeword-IsCodeword : IsCodeword codeword
codeword-IsCodeword = record { bits = omega arith; size = refl; roots = codeword_roots }

three_errors_first : syn 1 0 three_errors ≡ 0
unfolding syn alpha
three_errors_first = refl

-- It is no codeword: its third syndrome is not 0.
three_errors_third : syn 3 0 three_errors ≢ 0
unfolding syn alpha
three_errors_third = omega arith

one_error_first : syn 1 0 (1 ∷ replicate 30 0) ≢ 0
unfolding syn alpha
one_error_first = omega arith

decode-encode_example :
    (c : BchCode) × (c' : BchCode) × (bch_code_new
        (record { structure = a_ok; arrays = true; junk = λ i. i })
        none
        primitive
        5
        31
        21
        2
      ≡ some (a_ok, some c))
    × (bch_code_encode c message ≡ some c')
    × (bch_code_decode c' (toggle_all (4 ∷ 17 ∷ []) (sent c' message)) ≡ some (0, sent c' message))
decode-encode_example =
    decode-encode (λ i. i) none message (4 ∷ 17 ∷ []) (omega arith) refl (omega arith)

bch_code_encode-IsCodeword_example :
    (check : List ℕ) × (spare : ℕ) × (bch_code_encode (code31 0 blank_bb) message
      ≡ some (code31 0 (check ++ spare ∷ [])))
    × (length check ≡ 10)
    × IsCodeword (check ++ message)
bch_code_encode-IsCodeword_example =
    bch_code_encode-IsCodeword 0 blank_bb message refl (omega arith) refl

decode-toggle_all_example :
    bch_code_decode (code31 0 blank_bb) (toggle_all (0 ∷ 30 ∷ []) codeword) ≡ some (0, codeword)
decode-toggle_all_example =
    decode-toggle_all 0 blank_bb codeword (0 ∷ 30 ∷ []) codeword-IsCodeword (omega arith)

decode_first_zero-not-IsCodeword_example :
    (bch_code_decode (code31 0 blank_bb) three_errors ≡ some (0, three_errors))
    × (¬ IsCodeword three_errors)
decode_first_zero-not-IsCodeword_example =
    decode_first_zero-not-IsCodeword 0 blank_bb three_errors refl three_errors_first
      three_errors_third

decode-IsCodeword_example :
    ((loc : List ℕ) × (bch_code_decode (code31 0 blank_bb) (1 ∷ replicate 30 0)
        ≡ some (0, toggle_all loc (1 ∷ replicate 30 0)))
      × (length loc ≤ 2)
      × IsCodeword (toggle_all loc (1 ∷ replicate 30 0)))
    ⊎ (bch_code_decode (code31 0 blank_bb) (1 ∷ replicate 30 0) ≡ some (1, 1 ∷ replicate 30 0))
decode-IsCodeword_example =
    decode-IsCodeword 0 blank_bb (1 ∷ replicate 30 0) (omega arith) refl one_error_first
