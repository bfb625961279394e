-- ===== src/Pager/Bch/RoundTrip.antt =====
-- pager/bch_code.c from `bch_code_new` to `bch_code_decode`.
use tsl_sdr.Prelude.{
  ℕ, ◌≡◌, refl, true, Option, some, List, ◌++◌, ◌∷◌, [], length, take, take-append, sym, ap, ◌∙◌,
}
use tsl_sdr.Prelude.Search.{AreBits}
use tsl_sdr.Tsl.Result.{a_ok}
use tsl_sdr.Pager.Bch.Code.{BchCode}
use tsl_sdr.Pager.Bch.New.{fresh, bch_code_new}
use tsl_sdr.Pager.Bch.Code31.{primitive, code31, bch_code_new-code31}
use tsl_sdr.Pager.Bch.Encode.{bch_code_encode}
use tsl_sdr.Pager.Bch.Decode.{bch_code_decode}
use tsl_sdr.Pager.Bch.Codeword.{bch_code_encode-IsCodeword}
use tsl_sdr.Pager.Bch.Toggle.{toggle_all}
use tsl_sdr.Pager.Bch.Correction.{AtMostTwo, decode-toggle_all}

-- The word sent for a message: the ten check bits of the encoded code, then the message.
abbrev pub sent : BchCode → List ℕ → List ℕ
sent c ds = take 10 c.bb ++ ds

-- A code made by `bch_code_new` with the parameters of BCH(31, 21, 5), whatever the fresh memory and the
-- old pointer hold, encodes any message of 21 bits, and decodes the word sent to itself with the
-- value 0, whatever at most two of its 31 places were inverted on the way.
pub decode-encode :
    (junk : ℕ → ℕ) (old : Option BchCode) (ds is : List ℕ)
    → AreBits ds
    → length ds ≡ 21
    → AtMostTwo is
    → (c : BchCode) × (c' : BchCode) × (bch_code_new
          (record { structure = a_ok; arrays = true; junk = junk })
          old
          primitive
          5
          31
          21
          2
        ≡ some (a_ok, some c))
      × (bch_code_encode c ds ≡ some c')
      × (bch_code_decode c' (toggle_all is (sent c' ds)) ≡ some (0, sent c' ds))
decode-encode junk old ds is bits len few =
    let (check, spare, encoded, size, code) =
      bch_code_encode-IsCodeword (junk 0) (fresh junk 11) ds refl bits len in
    let c' : BchCode = code31 (junk 0) (check ++ spare ∷ []) in
    let front : sent c' ds ≡ check ++ ds =
      ap (λ (n : ℕ). take n (check ++ spare ∷ []) ++ ds) (sym size)
      ∙ ap (λ l. l ++ ds) (take-append check (spare ∷ [])) in
    (
      code31 (junk 0) (fresh junk 11),
      c',
      bch_code_new-code31 junk old,
      encoded,
      rw front (decode-toggle_all (junk 0) (check ++ spare ∷ []) (check ++ ds) is code few),
    )
