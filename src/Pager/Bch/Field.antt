-- ===== src/Pager/Bch/Field.antt =====
-- `generate_gf` of pager/bch_code.c: the powers of the primitive element and their logarithms.
use tsl_sdr.Prelude.{
  ℕ, zero, suc, ◌+◌, ◌-◌, ◌*◌, ◌/◌, bit_xor, Option, some, List, leb, ◌==◌, if◌then◌else◌, load,
  store, ◌>>=◌,
}
use tsl_sdr.Prelude.Int.{ℤ, pos, negsuc}

pub record Tables : Type 0 where
  pub alpha_to : List ℕ
  pub index_of : List ℤ
  pub mask : ℕ

-- The rounds `i`, `i + 1`, … of the first loop, which fill `alpha_to[0..m)` with single bits.
unfoldable pub gf_bits : (left i m : ℕ) → List ℕ → Tables → Option Tables
gf_bits zero i m p s = some s
gf_bits (suc left) i m p s = do
  alpha ← store s.alpha_to i s.mask
  a ← load alpha i
  index ← store s.index_of a (pos i)
  pi ← load p i
  top ← load alpha m
  alpha ← if pi == 0 then some alpha else store alpha m (bit_xor top s.mask)
  gf_bits left (i + 1) m p (record { alpha_to = alpha; index_of = index; mask = s.mask * 2 })

-- The rounds of the second loop, which reduce by the polynomial kept in `alpha_to[m]`.
unfoldable pub gf_rest : (left i m : ℕ) → Tables → Option Tables
gf_rest zero i m s = some s
gf_rest (suc left) i m s = do
  last ← load s.alpha_to (i - 1)
  top ← load s.alpha_to m
  let next = if leb s.mask last then bit_xor top (bit_xor last s.mask * 2) else last * 2
  alpha ← store s.alpha_to i next
  index ← store s.index_of next (pos i)
  gf_rest left (i + 1) m (record { alpha_to = alpha; index_of = index; mask = s.mask })

unfoldable pub generate_gf : (p : List ℕ) (m n : ℕ) → List ℕ → List ℤ → Option Tables
unfolding gf_bits gf_rest
generate_gf p m n alpha_to index_of = do
  alpha ← store alpha_to m 0
  s ← gf_bits m 0 m p (record { alpha_to = alpha; index_of = index_of; mask = 1 })
  top ← load s.alpha_to m
  index ← store s.index_of top (pos m)
  s ←
      gf_rest (n - (m + 1)) (m + 1) m
        (record { alpha_to = s.alpha_to; index_of = index; mask = s.mask / 2 })
  index ← store s.index_of 0 (negsuc 0)
  some (record { alpha_to = s.alpha_to; index_of = index; mask = s.mask })
