-- ===== src/Pager/Bch/Encode.antt =====
-- `bch_code_encode` of pager/bch_code.c: division by the generator in a shift register. `g` and
-- `bb` are the arrays of the code, `data` the message with its highest coefficient last.
use tsl_sdr.Prelude.{
  ℕ, zero, suc, ◌-◌, bit_xor, Bool, Option, some, List, ◌==◌, if◌then◌else◌, load, store, ◌>>=◌,
}
use tsl_sdr.Pager.Bch.Code.{BchCode}

-- `bb[0 .. count) = 0`
unfoldable pub clear_bb : (count : ℕ) → List ℕ → Option (List ℕ)
clear_bb zero bb = some bb
clear_bb (suc i) bb = do bb ← clear_bb i bb; store bb i 0

-- The inner loops, from `j` down to 1: with a feedback, and with none.
unfoldable pub shift_feedback : List ℕ → (feedback j : ℕ) → List ℕ → Option (List ℕ)
shift_feedback g feedback zero bb = some bb
shift_feedback g feedback (suc j) bb = do
  gj ← load g (suc j)
  below ← load bb j
  bb ← store bb (suc j) (if gj == 0 then below else bit_xor below feedback)
  shift_feedback g feedback j bb

unfoldable pub shift_plain : (j : ℕ) → List ℕ → Option (List ℕ)
shift_plain zero bb = some bb
shift_plain (suc j) bb = do below ← load bb j; bb ← store bb (suc j) below; shift_plain j bb

-- One round of the outer loop, for the data word `d`; `top` is n - k - 1.
unfoldable pub encode_word : List ℕ → (top d : ℕ) → List ℕ → Option (List ℕ)
unfolding shift_feedback shift_plain
encode_word g top d bb = do
  last ← load bb top
  elim (bit_xor d last == 0) [
    | Bool.true ↦ (do bb ← shift_plain top bb; store bb 0 0)
    | Bool.false ↦ (do
      bb ← shift_feedback g (bit_xor d last) top bb
      g0 ← load g 0
      store bb 0 (if g0 == 0 then 0 else 1))
  ]

-- The outer loop, from `data[count - 1]` down.
unfoldable pub encode_words : List ℕ → (top count : ℕ) → List ℕ → List ℕ → Option (List ℕ)
encode_words g top zero dat bb = some bb
encode_words g top (suc i) dat bb = do
  d ← load dat i
  bb ← encode_word g top d bb
  encode_words g top i dat bb

unfoldable pub bch_code_encode : BchCode → List ℕ → Option BchCode
unfolding clear_bb encode_words
bch_code_encode c dat = do
  bb ← clear_bb (c.n - c.k) c.bb
  bb ← encode_words c.g (c.n - c.k - 1) c.k dat bb
  some (record c { bb = bb })
