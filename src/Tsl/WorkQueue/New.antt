-- ===== src/Tsl/WorkQueue/New.antt =====
-- Which sizes `work_queue_new` of tsl/work_queue.h takes, and with how many slots it sets up the ring.
use native.Mathlib.Nat.{pow-suc, pow-le-pow_right}
use mathlib.Core.Bool.{false≢true}
use mathlib.Core.Path.{subst}
use tsl_sdr.Prelude.{
  sym, ℕ, zero, suc, ◌+◌, ◌-◌, ◌%◌, ◌^◌, ◌≤◌, ◌<◌, ◌≡◌, refl, ap, ◌∙◌, ◌⊎◌, inl, inr, Bool, true,
  false, Bool-cases, bit_and, leb, ltb, ◌==◌, if◌then◌else◌, arith,
}
use tsl_sdr.Prelude.Mask.{bit_and-pow, pow-bit_and}
use tsl_sdr.Tsl.Result.{a_ok, a_e_nomem, a_e_badargs}
use tsl_sdr.Tsl.WorkQueue.Ring.{RingOps}
use tsl_sdr.Tsl.WorkQueue.Ops.{WorkQueue, cleared, work_queue_new}

-- The slots of the ring of a queue for `2 ^ k` items.
abbrev pub slots_given : ℕ → ℕ
slots_given k = if ltb k 32 then 2 ^ k else 0

large_pow : (j : ℕ) → 2 ^ (32 + j) % 2 ^ 32 ≡ 0
large_pow zero = refl
large_pow (suc j) =
    let next : 32 + suc j ≡ suc (32 + j) = omega arith in
    rw next (omega (arith, pow-suc 2 (32 + j), large_pow j))

pow_least : (k : ℕ) → 3 ≤ k → 8 ≤ 2 ^ k
pow_least k low = pow-le-pow_right (omega arith) low

-- The size as `ck_ring_init` takes it, an unsigned int.
pow-slots_given : (k : ℕ) → 2 ^ k % 2 ^ 32 ≡ slots_given k
pow-slots_given k = elim (Bool-cases (ltb k 32)) [
  | inl small ↦
      let fits : k ≤ 31 = ground arith in
      let bound : 2 ^ k ≤ 2 ^ 31 = pow-le-pow_right (omega arith) fits in
      rw small (omega (arith, bound))
  | inr large ↦
      let more : 32 + (k - 32) ≡ k = ground arith in rw large (rw more at (large_pow (k - 32)))
]

at_least_3 : (k : ℕ) → leb (2 ^ k) 4 ≡ false → 3 ≤ k
at_least_3 zero e = absurd cc
at_least_3 (suc zero) e = absurd cc
at_least_3 (suc (suc zero)) e = absurd cc
at_least_3 (suc (suc (suc k))) e = omega arith

module _ {S : Type 0} (r : RingOps S) where
  -- A new queue for `2 ^ k` items.
  abbrev pub new_queue : ℕ → WorkQueue S
  new_queue k = record { fifo = r.init (slots_given k); max_items = 2 ^ k; buffer = true }

  pub work_queue_new-pow :
      (memory : Bool) (old : WorkQueue S) (k : ℕ)
      → 3 ≤ k
      → work_queue_new r memory old (2 ^ k)
        ≡ (if memory then (a_ok, new_queue k) else (a_e_nomem, cleared r))
  unfolding work_queue_new
  work_queue_new-pow true old k low =
      let least = pow_least k low in
      let enough : leb (2 ^ k) 4 ≡ false = ground (arith, least) in
      rw (enough, bit_and-pow k, pow-slots_given k) refl
  work_queue_new-pow false old k low =
      let least = pow_least k low in
      let enough : leb (2 ^ k) 4 ≡ false = ground (arith, least) in rw (enough, bit_and-pow k) refl

  refused_size :
      (memory : Bool) (old : WorkQueue S) (n : ℕ)
      → (leb n 4 ≡ true) ⊎ ((bit_and n (n - 1) == 0) ≡ false)
      → work_queue_new r memory old n ≡ (a_e_badargs, old)
  unfolding work_queue_new
  refused_size memory old n (inl few) = rw few refl
  refused_size memory old n (inr mixed) = elim (Bool-cases (leb n 4)) [
    | inl few ↦ rw few refl
    | inr enough ↦ rw (enough, mixed) refl
  ]

  -- For every number of items: either it is a power of two from 8 on, and `work_queue_new` gives
  -- A_OK and a queue whose ring is set up with that many slots, or with 0 where the number is 2^32 or
  -- more, or A_E_NOMEM and a queue of zeros where there is no memory; or it is no such power, and
  -- `work_queue_new` gives A_E_BADARGS and leaves what the caller passed.
  pub work_queue_new-powers :
      (memory : Bool) (old : WorkQueue S) (n : ℕ)
      → ((k : ℕ) × (3 ≤ k)
          × (n ≡ 2 ^ k)
          × (work_queue_new r memory old n
              ≡ (if memory then (a_ok, new_queue k) else (a_e_nomem, cleared r))))
        ⊎ (((k : ℕ) → n ≡ 2 ^ k → k < 3) × (work_queue_new r memory old n ≡ (a_e_badargs, old)))
  work_queue_new-powers memory old n = elim (Bool-cases (leb n 4)) [
    | inl few ↦ inr (
      (λ k e. elim (Bool-cases (ltb k 3)) [
        | inl low ↦ ground arith
        | inr high ↦
            let least : 8 ≤ 2 ^ k = pow_least k (ground arith) in absurd (ground (arith, least))
      ]),
      refused_size memory old n (inl few),
    )
    | inr enough ↦ elim (Bool-cases (bit_and n (n - 1) == 0)) [
      | inl single ↦
          let (k, e) = pow-bit_and n (ground arith) (ground arith) in
          let low : 3 ≤ k = at_least_3 k (subst (λ (x : ℕ). leb x 4 ≡ false) e enough) in
          inl (
            k,
            low,
            e,
            ap (λ (x : ℕ). work_queue_new r memory old x) e ∙ work_queue_new-pow memory old k low,
          )
      | inr mixed ↦ inr (
        (λ k e.
            let single : (bit_and n (n - 1) == 0) ≡ true =
              subst (λ (x : ℕ). (bit_and x (x - 1) == 0) ≡ true) (sym e)
                (rw (bit_and-pow k) refl) in
            absurd (false≢true (sym mixed ∙ single))),
        refused_size memory old n (inr mixed),
      )
    ]
  ]
