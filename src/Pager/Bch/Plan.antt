-- ===== src/Pager/Bch/Plan.antt =====
-- `bch_code_decode` in two steps: the syndromes determine which places to flip, and the flips are
-- then made. The first step does not look at the received word.
use tsl_sdr.Prelude.{
  ℕ, ◌≡◌, refl, true, false, ◌&&◌, Option, none, some, List, [], ◌∷◌, arith, ◌==◌, if◌then◌else◌,
  length, ◌>>=◌, Option-cases, inl, inr,
}
use tsl_sdr.Prelude.Int.{ℤ, pos, negsuc, ◌+ℤ◌}
use tsl_sdr.Pager.Bch.Code.{BchCode, rem}
use tsl_sdr.Pager.Bch.Code31.{code31, log, load-logs}
use tsl_sdr.Pager.Bch.Syndromes.{syn, syn-lt, syndrome-syn}
use tsl_sdr.Pager.Bch.Decode.{
  is_minus_one, int_eq, locate, flip, flip_int, flip_located, correct, bch_code_decode,
}

-- The value to return and the places to flip.
unfoldable pub plan : BchCode → (s1 s2 s3 : ℤ) → Option (ℕ × List ℕ)
plan c s1 s2 s3 = elim (is_minus_one s1) [
  | true ↦ some (if is_minus_one s2 then 0 else 1, [])
  | false ↦ elim (int_eq s3 (rem (s1 +ℤ s1 +ℤ s1) c.n)) [
    | true ↦ elim s1 [ pos i ↦ some (0, i ∷ []) | negsuc _ ↦ none ]
    | false ↦ elim (locate c s1 s2 s3) [
      | none ↦ none
      | some loc ↦ if length loc == 2 then some (0, loc) else some (1, [])
    ]
  ]
]

-- The flips in order.
unfoldable pub flips : List ℕ → List ℕ → Option (List ℕ)
flips [] w = some w
flips (i ∷ is) w = flip w i >>= flips is

-- Both steps, one after the other.
unfoldable pub carry_out : Option (ℕ × List ℕ) → List ℕ → Option (ℕ × List ℕ)
unfolding flips
carry_out none w = none
carry_out (some (r, loc)) w = flips loc w >>= λ w'. some (r, w')

flip_located-flips : (loc w : List ℕ) → (length loc == 2) ≡ true → flip_located loc w ≡ flips loc w
unfolding flips flip_located
flip_located-flips [] w h = absurd (ground arith)
flip_located-flips (a ∷ []) w h = absurd (ground arith)
flip_located-flips (a ∷ b ∷ []) w h = elim (Option-cases (flip w a)) [
  | inl out ↦ rw out
  | inr (w', isin) ↦ elim (Option-cases (flip w' b)) [
    | inl out ↦ rw (isin, ◌>>=◌, out)
    | inr (w'', isin') ↦ rw (isin, ◌>>=◌, isin')
  ]
]
flip_located-flips (a ∷ b ∷ c ∷ loc) w h = absurd (ground arith)

-- The corrections are the plan, carried out on the received word.
pub correct-plan :
    (c : BchCode) (s1 s2 s3 : ℤ) (w : List ℕ) → correct c s1 s2 s3 w ≡ carry_out (plan c s1 s2 s3) w
unfolding correct plan carry_out flips flip_int
correct-plan c (pos i) s2 s3 w = elim (Option-cases (locate c (pos i) s2 s3)) [
  | inl fault ↦ ground arith
  | inr (loc, found) ↦ ground (arith, flip_located-flips loc w)
]
correct-plan c (negsuc i) s2 s3 w = elim (Option-cases (locate c (negsuc i) s2 s3)) [
  | inl fault ↦ ground arith
  | inr (loc, found) ↦ ground (arith, flip_located-flips loc w)
]

-- The decoder of the code is its plan for the syndromes, unless they are all 0.
pub bch_code_decode-plan :
    (last : ℕ) (bb w : List ℕ)
    → length w ≡ 31
    → bch_code_decode (code31 last bb) w ≡ (
        if (syn 1 0 w == 0) && (syn 2 0 w == 0) && (syn 3 0 w == 0) && (syn 4 0 w == 0)
        then some (0, w)
        else carry_out
            (plan (code31 last bb) (log (syn 1 0 w)) (log (syn 2 0 w)) (log (syn 3 0 w)))
            w)
unfolding bch_code_decode
bch_code_decode-plan last bb w len =
    rw
      (
        syndrome-syn last bb 1 w len,
        load-logs (syn 1 0 w) (syn-lt 1 0 w),
        syndrome-syn last bb 2 w len,
        load-logs (syn 2 0 w) (syn-lt 2 0 w),
        syndrome-syn last bb 3 w len,
        load-logs (syn 3 0 w) (syn-lt 3 0 w),
        syndrome-syn last bb 4 w len,
        load-logs (syn 4 0 w) (syn-lt 4 0 w),
        correct-plan (code31 last bb) (log (syn 1 0 w)) (log (syn 2 0 w)) (log (syn 3 0 w)) w,
      )
      refl
