-- ===== src/Metrics.antt =====
-- src/metrics.cpp and include/nr_bb/metrics.hpp: counts of errors.
use gunnchos_gpu_nr_baseband.Base.{
  ℕ, ◌+◌, Bool, List, [], ◌∷◌, if◌then◌else◌, ◌==◌, ltb, length, Result, ok, ◌>>◌, require,
}
use gunnchos_gpu_nr_baseband.Base.Double.{Double}

pub record LinkMetrics : Type 0 where
  pub bit_errors : ℕ
  pub bit_total : ℕ
  pub block_errors : ℕ
  pub block_total : ℕ

-- The places where two blocks differ.
abbrev pub differences : List ℕ → List ℕ → ℕ
differences [] hat = 0
differences (r ∷ ref) [] = 0
differences (r ∷ ref) (h ∷ hat) =
    let rest = differences ref hat in if r == h then rest else 1 + rest

unfoldable pub accumulate_ber : LinkMetrics → List ℕ → List ℕ → Result LinkMetrics
accumulate_ber m ref hat = do
  require (length ref == length hat) "BER length mismatch"
  ok (record m {
    bit_total = m.bit_total + length ref;
    bit_errors = m.bit_errors + differences ref hat;
  })

unfoldable pub accumulate_bler : LinkMetrics → Bool → LinkMetrics
accumulate_bler m crc_ok = record m {
  block_total = m.block_total + 1;
  block_errors = if crc_ok then m.block_errors else m.block_errors + 1;
}

module _ {ℓ} {W : Type ℓ} ⦃d : Double W⦄ where
  abbrev pub rate : ℕ → ℕ → W
  rate errors total = if ltb 0 total then d.div (d.of_nat errors) (d.of_nat total) else d.lit 0 1

  unfoldable pub ber : LinkMetrics → W
  ber m = rate m.bit_errors m.bit_total

  unfoldable pub bler : LinkMetrics → W
  bler m = rate m.block_errors m.block_total
