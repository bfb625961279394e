-- ===== src/Pager/Bch/Register.antt =====
-- The shift register of `bch_code_encode`: a round leaves the spare last word of `bb` alone, and
-- multiplies the value of the register at each root of the generator by that root.
use tsl_sdr.Prelude.{
  ℕ, zero, suc, ◌+◌, ◌*◌, ◌<◌, ◌≡◌, refl, bit_xor, Bool, true, false, ◌&&◌, Option, none, some,
  List, ◌++◌, arith, lt→ltb, ◌==◌, if◌then◌else◌, store, get_elem?, length, set, ◌∙◌, ◌>>=◌,
  get_elem?-append, set-append, get_or, get_elem?-eq-get_or, length-set, length-append, Bool-cases,
  Option-cases, inl, inr,
}
use tsl_sdr.Prelude.Search.{
  all_below, all_below_sound, AreBits, are_bits, are_bits_sound, all_bits, all_bits_sound,
}
use tsl_sdr.Pager.Bch.Code31.{generator, alpha, log}
use tsl_sdr.Pager.Bch.Powers.{times}
use tsl_sdr.Pager.Bch.Syndromes.{syn}
use tsl_sdr.Pager.Bch.Encode.{shift_feedback, shift_plain, encode_word}

-- Both runs succeed, keep the length, and the second carries `ys` along.
abbrev pub Carries : List ℕ → (n : ℕ) → Option (List ℕ) → Option (List ℕ) → Type 0
Carries ys n short long = (r : List ℕ) × (short ≡ some r) × (long ≡ some (r ++ ys)) × (length r ≡ n)

store-append :
    (xs ys : List ℕ) (i v : ℕ) → i < length xs → store (xs ++ ys) i v ≡ some (set xs i v ++ ys)
store-append xs ys i v h =
    rw (lt→ltb i (length (xs ++ ys)) (omega (arith, length-append xs ys)), set-append xs ys i v h)

store-set : (xs : List ℕ) (i v : ℕ) → i < length xs → store xs i v ≡ some (set xs i v)
store-set xs i v h = rw (lt→ltb i (length xs) h)

module _ (ys : List ℕ) where
  shift_plain-Carries :
      (j : ℕ) (xs : List ℕ)
      → j < length xs
      → Carries ys (length xs) (shift_plain j xs) (shift_plain j (xs ++ ys))
  unfolding shift_plain
  shift_plain-Carries zero xs h = (xs, refl, refl, refl)
  shift_plain-Carries (suc j) xs h =
      let below : ℕ = get_or xs j 0 in
      let kept = length-set xs (suc j) below in
      let (r, short, long, len) =
        shift_plain-Carries j (set xs (suc j) below) (omega (arith, kept)) in
      (
        r,
        rw (get_elem?-eq-get_or xs j 0 (omega arith), store-set xs (suc j) below h) short,
        rw
            (
              get_elem?-append xs ys j (omega arith),
              get_elem?-eq-get_or xs j 0 (omega arith),
              store-append xs ys (suc j) below h,
            )
            long,
        len ∙ kept,
      )

  shift_feedback-Carries :
      (g : List ℕ) (f j : ℕ) (xs : List ℕ)
      → j < length xs
      → j < length g
      → Carries ys (length xs) (shift_feedback g f j xs) (shift_feedback g f j (xs ++ ys))
  unfolding shift_feedback
  shift_feedback-Carries g f zero xs h hg = (xs, refl, refl, refl)
  shift_feedback-Carries g f (suc j) xs h hg =
      let below : ℕ = get_or xs j 0 in
      let gj = get_elem?-eq-get_or g (suc j) 0 hg in
      let word : ℕ = if get_or g (suc j) 0 == 0 then below else bit_xor below f in
      let kept = length-set xs (suc j) word in
      let (r, short, long, len) =
        shift_feedback-Carries g f j (set xs (suc j) word) (omega (arith, kept)) (omega arith) in
      (
        r,
        rw (gj, get_elem?-eq-get_or xs j 0 (omega arith), store-set xs (suc j) word h) short,
        rw
            (
              gj,
              get_elem?-append xs ys j (omega arith),
              get_elem?-eq-get_or xs j 0 (omega arith),
              store-append xs ys (suc j) word h,
            )
            long,
        len ∙ kept,
      )

  -- A round on a register with further words behind it.
  pub encode_word-Carries :
      (g : List ℕ) (top d : ℕ) (xs : List ℕ)
      → length xs ≡ suc top
      → top < length g
      → Carries ys (suc top) (encode_word g top d xs) (encode_word g top d (xs ++ ys))
  unfolding encode_word
  encode_word-Carries g top d xs h hg =
      let last : ℕ = get_or xs top 0 in
      let front : get_elem? xs top ≡ some last = get_elem?-eq-get_or xs top 0 (omega arith) in
      let both : get_elem? (xs ++ ys) top ≡ some last =
        get_elem?-append xs ys top (omega arith) ∙ front in
      elim (Bool-cases (bit_xor d last == 0)) [
        | inl quiet ↦
            let (r, short, long, len) = shift_plain-Carries top xs (omega arith) in
            (
              set r 0 0,
              rw (front, ◌>>=◌, quiet, short, store-set r 0 0 (omega arith)),
              rw (both, ◌>>=◌, quiet, long, store-append r ys 0 0 (omega arith)),
              length-set r 0 0 ∙ len ∙ h,
            )
        | inr fed ↦
            let f : ℕ = bit_xor d last in
            let (r, short, long, len) = shift_feedback-Carries g f top xs (omega arith) hg in
            let g0 = get_elem?-eq-get_or g 0 0 (omega arith) in
            let word : ℕ = if get_or g 0 0 == 0 then 0 else 1 in
            (
              set r 0 word,
              rw (front, ◌>>=◌, fed, short, g0, store-set r 0 word (omega arith)),
              rw (both, ◌>>=◌, fed, long, g0, store-append r ys 0 word (omega arith)),
              length-set r 0 word ∙ len ∙ h,
            )
      ]

-- A word that adds `alpha ^ (k * j)` when it is set, as in `syn`.
abbrev pub weight : (k j d : ℕ) → ℕ
weight k j d = if d == 0 then 0 else alpha (k * j)

-- The register after a round, on ten bits: bits again, with the value at the root `alpha ^ k`
-- multiplied, and increased by the data word, which stands at the place 10.
unfoldable pub round_holds : (k : ℕ) → List ℕ → (d : ℕ) → Bool
unfolding are_bits
round_holds k l d = elim (encode_word generator 9 d l) [
  | none ↦ false
  | some r ↦ are_bits r && (syn k 0 r == bit_xor (times k (syn k 0 l)) (weight k 10 d))
]

round_table : all_below 4 (λ k. all_bits 10 (λ l. all_below 2 (round_holds (k + 1) l))) ≡ true
unfolding all_below all_bits round_holds encode_word syn times log alpha generator
round_table = refl

-- What a round of the register promises at the root `alpha ^ k`.
abbrev pub Round : (k d : ℕ) → (before after : List ℕ) → Type 0
Round k d l r =
    (encode_word generator 9 d l ≡ some r)
    × AreBits r
    × (syn k 0 r ≡ bit_xor (times k (syn k 0 l)) (weight k 10 d))

round_holds_sound : (k d : ℕ) (l : List ℕ) → round_holds k l d ≡ true → (r : List ℕ) × Round k d l r
unfolding round_holds
round_holds_sound k d l h = elim (Option-cases (encode_word generator 9 d l)) [
  | inl fault ↦ absurd (ground arith)
  | inr (r, runs) ↦ (r, (runs, are_bits_sound r (ground arith), ground arith))
]

pub encode_word-Round :
    (k d : ℕ) (l : List ℕ)
    → k < 4
    → d < 2
    → AreBits l
    → length l ≡ 10
    → (r : List ℕ) × Round (k + 1) d l r
encode_word-Round k d l hk hd bits len = round_holds_sound (k + 1) d l (
    all_below_sound 2 (round_holds (k + 1) l) d
      (all_bits_sound 10 (λ l. all_below 2 (round_holds (k + 1) l)) l
        (all_below_sound 4 (λ k. all_bits 10 (λ l. all_below 2 (round_holds (k + 1) l))) k
          round_table hk)
        bits len)
      hd)
