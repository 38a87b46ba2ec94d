-- ===== src/RateMatching/Examples.antt =====
-- The theorems on rate matching at a block of eight bits, two of them punctured.
use gunnchos_gpu_nr_baseband.Base.{
  ℕ, ◌+◌, ◌≡◌, refl, arith, true, List, [], ◌∷◌, ◌++◌, map, drop, replicate, ok,
}
use gunnchos_gpu_nr_baseband.Base.Int.{negsuc}
use gunnchos_gpu_nr_baseband.Base.Double.{milli_double}
use gunnchos_gpu_nr_baseband.Ldpc.{bg2, bg1}
use gunnchos_gpu_nr_baseband.RateMatching.{
  RateMatchConfig, rv_index, rv_k0_positions, start_offset, rate_match, rate_dematch,
}
use gunnchos_gpu_nr_baseband.RateMatching.Recover.{rate_dematch-rate_match}

abbrev block : List ℕ
block = 1 ∷ 0 ∷ 1 ∷ 1 ∷ 0 ∷ 0 ∷ 1 ∷ 0 ∷ []

-- Redundancy version -1 counts as 3.
abbrev one_round : RateMatchConfig
one_round = record {
  e_bits = 6;
  rv = negsuc 0;
  n_cb = 0;
  zc = 1;
  bg = bg2;
  puncture_first_2z = true;
}

abbrev sent : List ℕ
sent = 0 ∷ 1 ∷ 1 ∷ 0 ∷ 0 ∷ 1 ∷ []

sent_run : rate_match block one_round ≡ ok sent
unfolding rate_match start_offset rv_k0_positions rv_index
sent_run = refl

positions_run : rv_k0_positions 66 1 bg1 ≡ ok (0 ∷ 17 ∷ 33 ∷ 56 ∷ [])
unfolding rv_k0_positions
positions_run = refl

abbrev soft : List ℕ
soft = 5 ∷ 7 ∷ 11 ∷ 13 ∷ 17 ∷ 19 ∷ 23 ∷ []

zero_add : (x : ℕ) → 0 + x ≡ x
zero_add x = omega arith

rate_dematch-rate_match_example :
    (out : List ℕ) × (rate_match block one_round ≡ ok out)
    × (rate_dematch (map (λ b. 10 + b) out) one_round 8
        ≡ ok (replicate 2 0 ++ map (λ b. 10 + b) (drop 2 block)))
rate_dematch-rate_match_example =
    rate_dematch-rate_match zero_add (λ b. 10 + b) block one_round refl (omega arith) refl
