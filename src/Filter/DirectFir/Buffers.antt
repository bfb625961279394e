-- ===== src/Filter/DirectFir/Buffers.antt =====
-- The references that a filter of filter/direct_fir.c holds on its buffers, and giving one up.
use tsl_sdr.Prelude.{
  ℕ, zero, suc, ◌+◌, ◌-◌, ◌%◌, ◌^◌, ◌<◌, ◌≡◌, ◌≢◌, refl, sym, inl, inr, true, false, none, some,
  Bool-cases, Option-cases, List, [], ◌∷◌, length, set, get_elem?, get_elem?-set_ne, ltb, ◌==◌,
  arith,
}
use tsl_sdr.Filter.DirectFir.State.{SampleBuf, Bufs, deref, dropped, sample_buf_decref}
use tsl_sdr.Filter.DirectFir.Convolve.{IsFull}

-- A buffer of this many samples, with a reference for the filter to give up.
pub record IsHeld (bufs : Bufs) (size p : ℕ) (b : SampleBuf) : Type 0 where
  pub at : deref bufs (some p) ≡ some b
  pub full : IsFull b
  pub sized : b.nr_samples ≡ size
  pub held : 0 < b.refcount
  pub releases : b.has_release ≡ true

module _ {A : Type 0} where
  get_elem?-some : (xs : List A) (i : ℕ) (x : A) → get_elem? xs i ≡ some x → i < length xs
  get_elem?-some [] i x e = absurd cc
  get_elem?-some (y ∷ xs) zero x e = omega arith
  get_elem?-some (y ∷ xs) (suc i) x e = omega (arith, get_elem?-some xs i x e)

deref-below : (bufs : Bufs) (p : ℕ) (b : SampleBuf) → deref bufs (some p) ≡ some b → p < length bufs
unfolding deref
deref-below bufs p b e = elim (Option-cases (get_elem? bufs p)) [
  | inl gone ↦ absurd (let no : none ≡ some b = rw gone at e in cc)
  | inr (c, there) ↦ get_elem?-some bufs p c there
]

dropped-some : (b : SampleBuf) → b.has_release ≡ true → (c : SampleBuf) × (dropped b ≡ some c)
dropped-some b has = elim (Bool-cases (b.refcount == 1)) [
  | inl last ↦ (record b { refcount = 0; live = false }, rw (last, has) refl)
  | inr more ↦ (record b { refcount = (b.refcount + 2 ^ 32 - 1) % 2 ^ 32 }, rw more refl)
]

-- Giving up a reference changes no other buffer.
pub sample_buf_decref-others :
    (bufs : Bufs) (p : ℕ) (b : SampleBuf)
    → deref bufs (some p) ≡ some b
    → b.has_release ≡ true
    → (bufs' : Bufs) × (sample_buf_decref bufs p ≡ some bufs')
      × ((q : ℕ) → q ≢ p → deref bufs' (some q) ≡ deref bufs (some q))
unfolding sample_buf_decref deref
sample_buf_decref-others bufs p b at releases =
    let (c, c_is) = dropped-some b releases in
    let below : ltb p (length bufs) ≡ true = let lt = deref-below bufs p b at in ground arith in
    (
      set bufs p c,
      rw (at, c_is, below) refl,
      λ q other. rw (get_elem?-set_ne bufs c (λ e. other (sym e))) refl,
    )
