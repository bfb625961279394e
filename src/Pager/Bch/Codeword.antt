-- ===== src/Pager/Bch/Codeword.antt =====
-- `bch_code_encode` on a message of 21 bits: it fills `bb` with ten check bits, and check bits and
-- message together are a codeword, a polynomial with the roots alpha, …, alpha ^ 4.
use tsl_sdr.Prelude.{
  ℕ, zero, suc, ◌+◌, ◌<◌, ◌≤◌, ◌≡◌, refl, bit_xor, some, List, [], ◌∷◌, ◌++◌, arith, set, length,
  get_or, drop, replicate, ap, ap₂, ◌∙◌, sym, get_elem?-eq-get_or, drop-get_elem?, drop-length,
  ◌>>=◌, length-append, length-replicate, set-append_length, replicate-append, lt→ltb,
}
use tsl_sdr.Prelude.Xor.{xor_self, xor_comm, zero_xor}
use tsl_sdr.Prelude.Search.{AreBits}
use tsl_sdr.Pager.Bch.Code31.{generator, code31}
use tsl_sdr.Pager.Bch.Powers.{times}
use tsl_sdr.Pager.Bch.Syndromes.{syn, syn-append, times-syn}
use tsl_sdr.Pager.Bch.Register.{weight, encode_word-Carries, encode_word-Round}
use tsl_sdr.Pager.Bch.Encode.{clear_bb, encode_word, encode_words, bch_code_encode}

-- A word of 31 bits whose four syndromes are 0.
pub record IsCodeword (w : List ℕ) : Type 0 where
  pub bits : AreBits w
  pub size : length w ≡ 31
  pub roots : (k : ℕ) → k < 4 → syn (k + 1) 0 w ≡ 0

-- `l` is the remainder of the message `ds`, moved up ten places, by the generator: ten bits that
-- agree with it at the roots.
pub record IsRemainder (ds l : List ℕ) : Type 0 where
  pub bits : AreBits l
  pub size : length l ≡ 10
  pub agrees : (k : ℕ) → k < 4 → syn (k + 1) 0 l ≡ syn (k + 1) 10 ds

pub AreBits-get_or : (xs : List ℕ) (i : ℕ) → AreBits xs → get_or xs i 0 < 2
AreBits-get_or [] i b = omega arith
AreBits-get_or (x ∷ xs) zero b = b.0
AreBits-get_or (x ∷ xs) (suc i) b = AreBits-get_or xs i b.1

pub AreBits-append : (xs ys : List ℕ) → AreBits xs → AreBits ys → AreBits (xs ++ ys)
AreBits-append [] ys hx hy = hy
AreBits-append (x ∷ xs) ys hx hy = (hx.0, AreBits-append xs ys hx.1 hy)

some-inj : {a b : List ℕ} → some a ≡ some b → a ≡ b
some-inj h = cc

-- A round takes the remainder of `ds` to that of `d ∷ ds`.
encode_word-IsRemainder :
    (d spare : ℕ) (ds l : List ℕ)
    → d < 2
    → IsRemainder ds l
    → (r : List ℕ) × (encode_word generator 9 d (l ++ spare ∷ []) ≡ some (r ++ spare ∷ []))
      × IsRemainder (d ∷ ds) r
unfolding generator syn
encode_word-IsRemainder d spare ds l hd is =
    let (r, short, long, len) =
      encode_word-Carries (spare ∷ []) generator 9 d l is.size (omega arith) in
    let (r0, first) = encode_word-Round 0 d l (omega arith) hd is.bits is.size in
    (
      r,
      long,
      record {
        bits = rw (some-inj (sym short ∙ first.0)) first.1;
        size = len;
        agrees = λ k hk.
            let (rk, round) = encode_word-Round k d l hk hd is.bits is.size in
            rw (some-inj (sym short ∙ round.0)) (
              round.2
              ∙ ap (λ v. bit_xor (times (k + 1) v) (weight (k + 1) 10 d)) (is.agrees k hk)
              ∙ ap (λ v. bit_xor v (weight (k + 1) 10 d)) (times-syn (k + 1) 10 ds (omega arith))
              ∙ xor_comm (syn (k + 1) 11 ds) (weight (k + 1) 10 d));
      },
    )

-- The outer loop, from the remainder of the words at and above `i` to that of the message.
encode_words-IsRemainder :
    (i spare : ℕ) (ds l : List ℕ)
    → i ≤ length ds
    → AreBits ds
    → IsRemainder (drop i ds) l
    → (r : List ℕ) × (encode_words generator 9 i ds (l ++ spare ∷ []) ≡ some (r ++ spare ∷ []))
      × IsRemainder ds r
unfolding encode_words
encode_words-IsRemainder zero spare ds l h bits is = (l, refl, is)
encode_words-IsRemainder (suc i) spare ds l h bits is =
    let d : ℕ = get_or ds i 0 in
    let (r, runs, step) =
      encode_word-IsRemainder d spare (drop (suc i) ds) l (AreBits-get_or ds i bits) is in
    let (r', rest, final) =
      encode_words-IsRemainder i spare ds r (omega arith) bits
        (rw (drop-get_elem? ds i 0 h) step) in
    (r', rw (get_elem?-eq-get_or ds i 0 h, runs) rest, final)

clear_bb-replicate :
    (i : ℕ) (bb : List ℕ) → i ≤ length bb → clear_bb i bb ≡ some (replicate i 0 ++ drop i bb)
unfolding clear_bb
clear_bb-replicate zero bb h = refl
clear_bb-replicate (suc i) bb h =
    let rest : List ℕ = drop (suc i) bb in
    let front : length (replicate i (zero)) ≡ i = length-replicate i 0 in
    let fits : i < length (replicate i (zero) ++ get_or bb i 0 ∷ rest) =
      omega (arith, front, length-append (replicate i (zero)) (get_or bb i 0 ∷ rest)) in
    rw (clear_bb-replicate i bb (omega arith), drop-get_elem? bb i 0 h, lt→ltb i _ fits)
      (ap some (
        ap (λ (n : ℕ). set (replicate i 0 ++ get_or bb i 0 ∷ rest) n 0) (sym front)
        ∙ set-append_length (replicate i 0) rest (get_or bb i 0) 0
        ∙ replicate-append i 0 rest))

zeros-IsRemainder : IsRemainder [] (replicate 10 0)
unfolding syn
zeros-IsRemainder = record { bits = omega arith; size = refl; agrees = λ k hk. rw zero_xor }

-- Encoding 21 bits succeeds, changes only the array `bb`, and its first ten words followed by the
-- message are a codeword.
pub bch_code_encode-IsCodeword :
    (last : ℕ) (bb ds : List ℕ)
    → length bb ≡ 11
    → AreBits ds
    → length ds ≡ 21
    → (check : List ℕ) × (spare : ℕ) × (bch_code_encode (code31 last bb) ds
        ≡ some (code31 last (check ++ spare ∷ [])))
      × (length check ≡ 10)
      × IsCodeword (check ++ ds)
unfolding bch_code_encode
bch_code_encode-IsCodeword last bb ds hb bits len =
    let spare : ℕ = get_or bb 10 0 in
    let emptied : clear_bb 10 bb ≡ some (replicate 10 0 ++ spare ∷ []) =
      clear_bb-replicate 10 bb (omega arith)
      ∙ ap (λ l. some (replicate 10 0 ++ l))
          (drop-get_elem? bb 10 0 (omega arith)
            ∙ ap (λ l. spare ∷ l) (ap (λ (n : ℕ). drop n bb) (sym hb) ∙ drop-length bb)) in
    let start : IsRemainder (drop 21 ds) (replicate 10 0) =
      rw (← len, drop-length ds) zeros-IsRemainder in
    let (r, runs, is) =
      encode_words-IsRemainder 21 spare ds (replicate 10 0) (omega arith) bits start in
    (
      r,
      spare,
      rw (emptied, ◌>>=◌, runs) refl,
      is.size,
      record {
        bits = AreBits-append r ds is.bits bits;
        size = omega (arith, length-append r ds, is.size);
        roots = λ k hk.
            syn-append (k + 1) 0 r ds
            ∙ ap₂ bit_xor (is.agrees k hk)
                (ap (λ (n : ℕ). syn (k + 1) n ds) (omega (arith, is.size)))
            ∙ xor_self (syn (k + 1) 10 ds);
      },
    )
