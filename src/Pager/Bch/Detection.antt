-- ===== src/Pager/Bch/Detection.antt =====
-- What `bch_code_decode` does with any received word of 31 bits: it never faults, and a word that
-- it changes or accepts with a first syndrome other than 0 becomes a codeword. With the first
-- syndrome 0 every word is accepted, also one that is no codeword.
use tsl_sdr.Prelude.{
  ℕ, zero, suc, ◌+◌, ◌*◌, ◌<◌, ◌≤◌, ◌≡◌, ◌≢◌, refl, bit_xor, Bool, true, false, ◌&&◌, ◌||◌, none,
  some, List, [], ◌∷◌, ◌⊎◌, inl, inr, arith, ltb, leb, leb→le, ◌==◌, length, ap, ◌∙◌, sym,
  Option-cases, Bool-cases, if◌then◌else◌,
}
use tsl_sdr.Prelude.Xor.{xor_self, xor_assoc, zero_xor, xor_left_comm}
use tsl_sdr.Prelude.Int.{negsuc, ◌+ℤ◌, ◌-ℤ◌}
use tsl_sdr.Prelude.Search.{AreBits, all_below, all_below_sound}
use tsl_sdr.Pager.Bch.Code31.{code31, alphas, logs, alpha, log}
use tsl_sdr.Pager.Bch.Powers.{square}
use tsl_sdr.Pager.Bch.Syndromes.{syn, syn-lt, square-syn}
use tsl_sdr.Pager.Bch.Codeword.{IsCodeword}
use tsl_sdr.Pager.Bch.Plan.{plan, carry_out, bch_code_decode-plan}
use tsl_sdr.Pager.Bch.Decode.{chien_search, locate, bch_code_decode}
use tsl_sdr.Pager.Bch.Toggle.{
  toggle, toggle_all, AreBelow, flips-toggle_all, length-toggle, AreBits-toggle, syn-toggle,
}
use tsl_sdr.Pager.Bch.Correction.{plan31, are, are_sound}

square_zero : square 0 ≡ 0
unfolding square log logs
square_zero = refl

log_zero : log 0 ≡ negsuc 0
unfolding log logs
log_zero = refl

-- The even syndromes are squares.
syn_even : (k : ℕ) (w : List ℕ) → syn k 0 w ≡ 0 → syn (2 * k) 0 w ≡ 0
syn_even k w h = sym (square-syn k 0 w) ∙ ap square h ∙ square_zero

-- A word whose first syndrome is 0 is returned unchanged with the value 0, whatever its third
-- syndrome is.
decode_first_zero :
    (last : ℕ) (bb w : List ℕ)
    → length w ≡ 31
    → syn 1 0 w ≡ 0
    → bch_code_decode (code31 last bb) w ≡ some (0, w)
unfolding plan carry_out
decode_first_zero last bb w len h =
    let h2 : syn 2 0 w ≡ 0 = syn_even 1 w h in
    let h4 : syn 4 0 w ≡ 0 = syn_even 2 w h2 in
    bch_code_decode-plan last bb w len ∙ elim (Bool-cases (syn 3 0 w == 0)) [
      | inl also ↦ rw (h, h2, also, h4)
      | inr odd ↦ rw (h, h2, odd, log_zero)
    ]

-- A received word of 31 words whose first syndrome is 0 and whose third is not is no codeword, and
-- the decoder returns it unchanged with the value 0, the value of a word without errors.
pub decode_first_zero-not-IsCodeword :
    (last : ℕ) (bb w : List ℕ)
    → length w ≡ 31
    → syn 1 0 w ≡ 0
    → syn 3 0 w ≢ 0
    → (bch_code_decode (code31 last bb) w ≡ some (0, w)) × (¬ IsCodeword w)
decode_first_zero-not-IsCodeword last bb w len h odd =
    (decode_first_zero last bb w len h, λ is. odd (is.roots 2 (omega arith)))

-- The sum of `alpha ^ (k * i)` over a list of places.
unfoldable pub power_sum : (k : ℕ) → List ℕ → ℕ
power_sum k [] = 0
power_sum k (i ∷ is) = bit_xor (alpha (k * i)) (power_sum k is)

syn-toggle_all :
    (k : ℕ) (is w : List ℕ)
    → AreBits w
    → AreBelow (length w) is
    → syn k 0 (toggle_all is w) ≡ bit_xor (power_sum k is) (syn k 0 w)
unfolding power_sum toggle_all
syn-toggle_all k [] w b h = sym (zero_xor (syn k 0 w))
syn-toggle_all k (i ∷ is) w b h =
    syn-toggle_all k is (toggle i w) (AreBits-toggle i w b) (rw (length-toggle i w) h.1)
    ∙ ap (bit_xor (power_sum k is)) (
        syn-toggle k 0 i w b h.0
        ∙ ap (λ (n : ℕ). bit_xor (alpha (k * n)) (syn k 0 w)) (omega arith))
    ∙ xor_left_comm (power_sum k is) (alpha (k * i)) (syn k 0 w)
    ∙ sym (xor_assoc (alpha (k * i)) (power_sum k is) (syn k 0 w))

toggle_all-keeps :
    (is w : List ℕ) → AreBits w → AreBits (toggle_all is w) × (length (toggle_all is w) ≡ length w)
unfolding toggle_all
toggle_all-keeps [] w b = (b, refl)
toggle_all-keeps (i ∷ is) w b =
    let (bits, len) = toggle_all-keeps is (toggle i w) (AreBits-toggle i w b) in
    (bits, len ∙ length-toggle i w)

-- Flips whose powers make up the first and the third syndrome give a codeword.
toggle_all-IsCodeword :
    (is w : List ℕ)
    → AreBits w
    → length w ≡ 31
    → AreBelow 31 is
    → power_sum 1 is ≡ syn 1 0 w
    → power_sum 3 is ≡ syn 3 0 w
    → IsCodeword (toggle_all is w)
toggle_all-IsCodeword is w b len below e1 e3 =
    let u : List ℕ = toggle_all is w in
    let kept = toggle_all-keeps is w b in
    let s1 : syn 1 0 u ≡ 0 =
      syn-toggle_all 1 is w b (rw len below) ∙ rw e1 (xor_self (syn 1 0 w)) in
    let s3 : syn 3 0 u ≡ 0 =
      syn-toggle_all 3 is w b (rw len below) ∙ rw e3 (xor_self (syn 3 0 w)) in
    record { bits = kept.0; size = kept.1 ∙ len; roots = four u s1 s3 }
  where
    four : (u : List ℕ) → syn 1 0 u ≡ 0 → syn 3 0 u ≡ 0 → (k : ℕ) → k < 4 → syn (k + 1) 0 u ≡ 0
    four u s1 s3 zero h = s1
    four u s1 s3 (suc zero) h = syn_even 1 u s1
    four u s1 s3 (suc (suc zero)) h = s3
    four u s1 s3 (suc (suc (suc zero))) h = syn_even 2 u (syn_even 1 u s1)
    four u s1 s3 (suc (suc (suc (suc k)))) h = absurd (omega arith)

unfoldable pub all_places : List ℕ → Bool
all_places [] = true
all_places (i ∷ is) = ltb i 31 && all_places is

all_places_sound : (is : List ℕ) → all_places is ≡ true → AreBelow 31 is
unfolding all_places
all_places_sound [] h = tt
all_places_sound (i ∷ is) h = (ground arith, all_places_sound is (ground arith))

module _ (last : ℕ) (bb : List ℕ) where
  -- A plan either flips at most two places that explain the syndromes, or refuses.
  unfoldable explains : (v1 v3 : ℕ) → Bool
  unfolding all_places are power_sum
  explains v1 v3 = v1 == 0 || (elim (plan31 last bb v1 (square v1) v3) [
    | none ↦ false
    | some (r, loc) ↦
        if r == 0
        then all_places loc
          && leb (length loc) 2
          && (power_sum 1 loc == v1)
          && (power_sum 3 loc == v3)
        else r == 1 && are [] loc
  ])

  explains_table : all_below 32 (λ v1. all_below 32 (explains v1)) ≡ true
  unfolding all_below explains square plan chien_search locate alpha alphas log logs ◌+ℤ◌ ◌-ℤ◌
  explains_table = refl

  -- The places flipped, with the facts that the check gives, or a refusal.
  abbrev Explained : (v1 v3 : ℕ) → Type 0
  Explained v1 v3 =
      ((loc : List ℕ) × (plan31 last bb v1 (square v1) v3 ≡ some (0, loc))
        × AreBelow 31 loc
        × (length loc ≤ 2)
        × (power_sum 1 loc ≡ v1)
        × (power_sum 3 loc ≡ v3))
      ⊎ (plan31 last bb v1 (square v1) v3 ≡ some (1, []))

  explains_sound : (v1 v3 : ℕ) → explains v1 v3 ≡ true → v1 ≢ 0 → Explained v1 v3
  unfolding explains
  explains_sound v1 v3 h ne = elim (Option-cases (plan31 last bb v1 (square v1) v3)) [
    | inl fault ↦ absurd (ground arith)
    | inr ((r, loc), runs) ↦ elim (Bool-cases (r == 0)) [
      | inl zero_value ↦ inl (
        loc,
        ground arith,
        all_places_sound loc (ground arith),
        leb→le (length loc) 2 (ground arith),
        ground arith,
        ground arith,
      )
      | inr other ↦
          let nothing : are [] loc ≡ true = ground arith in
          inr (rw (are_sound [] loc nothing) (ground arith))
    ]
  ]

  explained : (v1 v3 : ℕ) → v1 < 32 → v3 < 32 → v1 ≢ 0 → Explained v1 v3
  explained v1 v3 h1 h3 ne =
      explains_sound v1 v3
        (all_below_sound 32 (explains v1) v3
          (all_below_sound 32 (λ v1. all_below 32 (explains v1)) v1 explains_table h1) h3)
        ne

  -- On a word of 31 bits whose first syndrome is not 0 the decoder succeeds: either it returns 0 and
  -- a codeword that differs from the received word by flips at no more than two places, or it
  -- returns 1 and the received word.
  pub decode-IsCodeword :
      (w : List ℕ)
      → AreBits w
      → length w ≡ 31
      → syn 1 0 w ≢ 0
      → ((loc : List ℕ) × (bch_code_decode (code31 last bb) w ≡ some (0, toggle_all loc w))
          × (length loc ≤ 2)
          × IsCodeword (toggle_all loc w))
        ⊎ (bch_code_decode (code31 last bb) w ≡ some (1, w))
  unfolding carry_out
  decode-IsCodeword w b len ne =
      let nonzero : (syn 1 0 w == 0) ≡ false = ground arith in
      let s2 = square-syn 1 0 w in
      elim (explained (syn 1 0 w) (syn 3 0 w) (syn-lt 1 0 w) (syn-lt 3 0 w) ne) [
        | inl (loc, runs, below, few, e1, e3) ↦ inl (
          loc,
          bch_code_decode-plan last bb w len
              ∙ rw (nonzero, ← s2, runs, flips-toggle_all 31 loc w len below),
          few,
          toggle_all-IsCodeword loc w b len below e1 e3,
        )
        | inr runs ↦ inr (bch_code_decode-plan last bb w len ∙ rw (nonzero, ← s2, runs))
      ]
