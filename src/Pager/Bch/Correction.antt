-- ===== src/Pager/Bch/Correction.antt =====
-- The decoder corrects up to two errors in any codeword: the plans for the 31 single and the 930
-- double errors are checked by evaluation, and the syndromes do not depend on the codeword.
use tsl_sdr.Prelude.{
  ℕ, ◌+◌, ◌*◌, ◌<◌, ◌≡◌, ◌≢◌, refl, bit_xor, Bool, true, false, ◌&&◌, ◌||◌, not, Option, none, some,
  List, [], ◌∷◌, inl, inr, arith, ◌==◌, length, ap, ap₂, ◌∙◌, Option-cases, Bool-cases,
}
use tsl_sdr.Prelude.Xor.{xor_zero}
use tsl_sdr.Prelude.Int.{◌+ℤ◌, ◌-ℤ◌}
use tsl_sdr.Prelude.Search.{all_below, all_below_sound}
use tsl_sdr.Pager.Bch.Code31.{code31, alphas, logs, alpha, log}
use tsl_sdr.Pager.Bch.Syndromes.{syn}
use tsl_sdr.Pager.Bch.Codeword.{IsCodeword}
use tsl_sdr.Pager.Bch.Plan.{plan, carry_out, bch_code_decode-plan}
use tsl_sdr.Pager.Bch.Decode.{chien_search, locate, bch_code_decode}
use tsl_sdr.Pager.Bch.Toggle.{
  toggle, toggle_all, AreBelow, flips-toggle_all, length-toggle, AreBits-toggle, toggle_self,
  toggle_comm, syn-toggle,
}

-- At most two places of a word of 31, distinct.
abbrev pub AtMostTwo : List ℕ → Type 0
AtMostTwo [] = Unit
AtMostTwo (i ∷ []) = i < 31
AtMostTwo (i ∷ j ∷ []) = (i < 31) × (j < 31) × (i ≢ j)
AtMostTwo (i ∷ j ∷ k ∷ is) = ⊥

unfoldable pub are : List ℕ → List ℕ → Bool
are [] [] = true
are (x ∷ xs) (y ∷ ys) = x == y && are xs ys
are _ _ = false

pub are_sound : (xs ys : List ℕ) → are xs ys ≡ true → xs ≡ ys
unfolding are
are_sound [] [] h = refl
are_sound [] (y ∷ ys) h = cc
are_sound (x ∷ xs) [] h = cc
are_sound (x ∷ xs) (y ∷ ys) h = ground (arith, are_sound xs ys)

module _ (last : ℕ) (bb : List ℕ) where
  -- The value returned and the places, for the syndromes `v1`, `v2`, `v3`.
  abbrev pub plan31 : (v1 v2 v3 : ℕ) → Option (ℕ × List ℕ)
  plan31 v1 v2 v3 = plan (code31 last bb) (log v1) (log v2) (log v3)

  unfoldable planned : (v1 v2 v3 : ℕ) → (List ℕ → Bool) → Bool
  planned v1 v2 v3 test =
      not (v1 == 0)
      && (elim (plan31 v1 v2 v3) [ none ↦ false | some (r, loc) ↦ r == 0 && test loc ])

  planned_sound :
      (v1 v2 v3 : ℕ) (test : List ℕ → Bool)
      → planned v1 v2 v3 test ≡ true
      → (v1 ≢ 0) × (loc : List ℕ) × (plan31 v1 v2 v3 ≡ some (0, loc)) × (test loc ≡ true)
  unfolding planned
  planned_sound v1 v2 v3 test h = elim (Option-cases (plan31 v1 v2 v3)) [
    | inl fault ↦ absurd (ground arith)
    | inr ((r, loc), runs) ↦ (ground arith, loc, ground arith, ground arith)
  ]

  -- A word with a planned correction is corrected so.
  decode_planned :
      (u loc : List ℕ)
      → length u ≡ 31
      → syn 1 0 u ≢ 0
      → plan31 (syn 1 0 u) (syn 2 0 u) (syn 3 0 u) ≡ some (0, loc)
      → AreBelow 31 loc
      → bch_code_decode (code31 last bb) u ≡ some (0, toggle_all loc u)
  unfolding carry_out
  decode_planned u loc len ne runs below =
      let nonzero : (syn 1 0 u == 0) ≡ false = ground arith in
      bch_code_decode-plan last bb u len ∙ rw (nonzero, runs, flips-toggle_all 31 loc u len below)

  -- The two places, in either order.
  abbrev pair : (i j : ℕ) → List ℕ → Bool
  pair i j loc = are (i ∷ j ∷ []) loc || are (j ∷ i ∷ []) loc

  abbrev planned_two : (i j : ℕ) → Bool
  planned_two i j =
      i == j
      || planned (bit_xor (alpha (1 * j)) (alpha (1 * i))) (bit_xor (alpha (2 * j)) (alpha (2 * i)))
          (bit_xor (alpha (3 * j)) (alpha (3 * i))) (pair i j)

  one_table :
      all_below 31 (λ i. planned (alpha (1 * i)) (alpha (2 * i)) (alpha (3 * i)) (are (i ∷ [])))
      ≡ true
  unfolding all_below planned are plan chien_search locate alpha alphas log logs ◌+ℤ◌ ◌-ℤ◌
  one_table = refl

  two_table : all_below 31 (λ i. all_below 31 (planned_two i)) ≡ true
  unfolding all_below planned are plan chien_search locate alpha alphas log logs ◌+ℤ◌ ◌-ℤ◌
  two_table = refl

  module _ {w : List ℕ} (is : IsCodeword w) where
    syn_one : (k i : ℕ) → k < 4 → i < 31 → syn (k + 1) 0 (toggle i w) ≡ alpha ((k + 1) * i)
    syn_one k i hk hi =
        syn-toggle (k + 1) 0 i w is.bits (omega (arith, is.size))
        ∙ ap (bit_xor (alpha ((k + 1) * (i + 0)))) (is.roots k hk)
        ∙ xor_zero (alpha ((k + 1) * (i + 0)))
        ∙ ap (λ (n : ℕ). alpha ((k + 1) * n)) (omega arith)

    syn_two :
        (k i j : ℕ)
        → k < 4
        → i < 31
        → j < 31
        → syn (k + 1) 0 (toggle j (toggle i w))
          ≡ bit_xor (alpha ((k + 1) * j)) (alpha ((k + 1) * i))
    syn_two k i j hk hi hj =
        syn-toggle (k + 1) 0 j (toggle i w) (AreBits-toggle i w is.bits)
          (omega (arith, is.size, length-toggle i w))
        ∙ ap₂ (λ (n : ℕ) v. bit_xor (alpha ((k + 1) * n)) v) (omega arith) (syn_one k i hk hi)

    decode_none : bch_code_decode (code31 last bb) w ≡ some (0, w)
    decode_none =
        bch_code_decode-plan last bb w is.size
        ∙ rw (
          is.roots 0 (omega arith),
          is.roots 1 (omega arith),
          is.roots 2 (omega arith),
          is.roots 3 (omega arith),
        )

    decode_one : (i : ℕ) → i < 31 → bch_code_decode (code31 last bb) (toggle i w) ≡ some (0, w)
    unfolding toggle_all
    decode_one i hi =
        let (ne, loc, runs, found) =
          planned_sound (alpha (1 * i)) (alpha (2 * i)) (alpha (3 * i)) (are (i ∷ [])) (
            all_below_sound 31
              (λ i. planned (alpha (1 * i)) (alpha (2 * i)) (alpha (3 * i)) (are (i ∷ []))) i
              one_table hi) in
        let places : i ∷ [] ≡ loc = are_sound (i ∷ []) loc found in
        decode_planned (toggle i w) (i ∷ []) (length-toggle i w ∙ is.size)
          (rw (syn_one 0 i (omega arith) hi) ne)
          (rw
            (
              syn_one 0 i (omega arith) hi,
              syn_one 1 i (omega arith) hi,
              syn_one 2 i (omega arith) hi,
              places,
            )
            runs)
          (hi, tt)
        ∙ ap (λ v. some (0, v)) (toggle_self i w)

    pair_toggles :
        (i j : ℕ) (loc : List ℕ)
        → i < 31
        → j < 31
        → pair i j loc ≡ true
        → AreBelow 31 loc × (toggle_all loc (toggle j (toggle i w)) ≡ w)
    unfolding toggle_all
    pair_toggles i j loc hi hj found = elim (Bool-cases (are (i ∷ j ∷ []) loc)) [
      | inl straight ↦ rw (← are_sound (i ∷ j ∷ []) loc straight) (
        (hi, (hj, tt)),
        ap (toggle j) (toggle_comm i j (toggle i w) ∙ ap (toggle j) (toggle_self i w))
            ∙ toggle_self j w,
      )
      | inr crossed ↦
          rw (← are_sound (j ∷ i ∷ []) loc (ground arith))
            ((hj, (hi, tt)), ap (toggle i) (toggle_self j (toggle i w)) ∙ toggle_self i w)
    ]

    decode_two :
        (i j : ℕ)
        → i < 31
        → j < 31
        → i ≢ j
        → bch_code_decode (code31 last bb) (toggle j (toggle i w)) ≡ some (0, w)
    decode_two i j hi hj ne =
        let holds : planned_two i j ≡ true =
          all_below_sound 31 (planned_two i) j
            (all_below_sound 31 (λ i. all_below 31 (planned_two i)) i two_table hi) hj in
        let (nonzero, loc, runs, found) =
          planned_sound (bit_xor (alpha (1 * j)) (alpha (1 * i)))
            (bit_xor (alpha (2 * j)) (alpha (2 * i))) (bit_xor (alpha (3 * j)) (alpha (3 * i)))
            (pair i j) (ground arith) in
        let (below, undone) = pair_toggles i j loc hi hj found in
        decode_planned (toggle j (toggle i w)) loc
          (length-toggle j (toggle i w) ∙ length-toggle i w ∙ is.size)
          (rw (syn_two 0 i j (omega arith) hi hj) nonzero)
          (rw
            (
              syn_two 0 i j (omega arith) hi hj,
              syn_two 1 i j (omega arith) hi hj,
              syn_two 2 i j (omega arith) hi hj,
            )
            runs)
          below
        ∙ ap (λ v. some (0, v)) undone

-- The decoder returns 0 and the codeword itself, whatever at most two places of it were inverted.
pub decode-toggle_all :
    (last : ℕ) (bb w is : List ℕ)
    → IsCodeword w
    → AtMostTwo is
    → bch_code_decode (code31 last bb) (toggle_all is w) ≡ some (0, w)
unfolding toggle_all
decode-toggle_all last bb w [] code h = decode_none last bb code
decode-toggle_all last bb w (i ∷ []) code h = decode_one last bb code i h
decode-toggle_all last bb w (i ∷ j ∷ []) code h = decode_two last bb code i j h.0 h.1 h.2
decode-toggle_all last bb w (i ∷ j ∷ k ∷ is) code h = absurd h
