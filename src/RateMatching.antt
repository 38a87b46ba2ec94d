-- ===== src/RateMatching.antt =====
-- src/rate_matching.cpp and include/nr_bb/rate_matching.hpp: the circular buffer of coded bits, and its
-- soft counterpart. The source tests `zc` only for being positive: 0 stands for every other value.
-- Products are taken to fit the source's `int`.
mod Select
mod Combine
mod Recover
mod Examples
use gunnchos_gpu_nr_baseband.Base.{
  ℕ, zero, suc, ◌+◌, ◌-◌, ◌*◌, ◌/◌, ◌%◌, Bool, true, false, ◌&&◌, not, List, [], ◌∷◌, if◌then◌else◌,
  ◌==◌, ltb, leb, length, get_or, set, take, drop, replicate, tabulate, String, Result, ok, throw,
  ◌>>=◌, ◌>>◌, require,
}
use gunnchos_gpu_nr_baseband.Base.Int.{ℤ, pos, negsuc}
use gunnchos_gpu_nr_baseband.Base.Double.{Double}
use gunnchos_gpu_nr_baseband.Ldpc.{BaseGraph, bg1, bg2}

pub record RateMatchConfig : Type 0 where
  pub e_bits : ℕ
  pub rv : ℤ
  pub n_cb : ℕ
  pub zc : ℕ
  pub bg : BaseGraph
  pub puncture_first_2z : Bool

-- The default member initialisers, with a number of output bits.
abbrev pub default_match : ℕ → RateMatchConfig
default_match e = record {
  e_bits = e;
  rv = pos 0;
  n_cb = 0;
  zc = 0;
  bg = bg2;
  puncture_first_2z = true;
}

-- `coeffs_bg1` and `coeffs_bg2`
abbrev pub rv_coeffs : BaseGraph → List ℕ
rv_coeffs bg1 = 0 ∷ 17 ∷ 33 ∷ 56 ∷ []
rv_coeffs bg2 = 0 ∷ 13 ∷ 25 ∷ 43 ∷ []

abbrev pub n_cols : BaseGraph → ℕ
n_cols bg1 = 66
n_cols bg2 = 50

abbrev pub k0_of : ℕ → ℕ → BaseGraph → ℕ → ℕ
k0_of n_cb zc bg coeff = coeff * n_cb / (n_cols bg * zc) * zc

unfoldable pub rv_k0_positions : ℕ → ℕ → BaseGraph → Result (List ℕ)
rv_k0_positions n_cb zc bg = do
  require (ltb 0 zc) "zc required for RV k0"
  require (ltb 0 n_cb) "n_cb required"
  ok (tabulate 4 (λ rv. k0_of n_cb zc bg (get_or (rv_coeffs bg) rv 0)))

-- `((rv % 4) + 4) % 4`: the source's remainder of -(n + 1) is -((n + 1) % 4).
unfoldable pub rv_index : ℤ → ℕ
rv_index (pos n) = (n % 4 + 4) % 4
rv_index (negsuc n) = (4 - (n + 1) % 4) % 4

unfoldable pub start_offset : RateMatchConfig → ℕ → Result ℕ
start_offset cfg n_cb =
    let table =
      rv_k0_positions n_cb cfg.zc cfg.bg >>= λ k0s. ok (get_or k0s (rv_index cfg.rv) 0 % n_cb) in
    if ltb 0 cfg.zc then table else ok (n_cb * rv_index cfg.rv / 4)

-- Whether the first 2 * zc bits are left out.
abbrev pub punctures : RateMatchConfig → Bool
punctures cfg = cfg.puncture_first_2z && ltb 0 cfg.zc

-- `punch`, in `rate_match` the bits that are left out.
abbrev pub punch : RateMatchConfig → ℕ
punch cfg = if punctures cfg then 2 * cfg.zc else 0

abbrev pub buffer_size : RateMatchConfig → ℕ → ℕ
buffer_size cfg n = if cfg.n_cb == 0 then n else cfg.n_cb

abbrev is_empty {ℓ} : {A : Type ℓ} → List A → Bool
is_empty [] = true
is_empty (x ∷ xs) = false

abbrev pub check_punch : Bool → ℕ → ℕ → String → Result (Unit {0})
check_punch true n p text = require (ltb p n) text
check_punch false n p text = ok tt

-- The buffer, filled from the bits over and over again.
abbrev pub fill_buffer : ℕ → List ℕ → List ℕ
fill_buffer n_cb systematic = tabulate n_cb (λ i. get_or systematic (i % length systematic) 0)

abbrev pub read_buffer : ℕ → ℕ → ℕ → List ℕ → List ℕ
read_buffer e k0 n_cb buf = tabulate e (λ i. get_or buf ((k0 + i) % n_cb) 0)

-- `rate_match(coded, cfg)`
unfoldable pub rate_match : List ℕ → RateMatchConfig → Result (List ℕ)
rate_match coded cfg = do
  require (not (is_empty coded)) "rate_match empty input"
  require (ltb 0 cfg.e_bits) "E must be > 0"
  check_punch (punctures cfg) (length coded) (punch cfg) "coded too short to puncture 2Z"
  let systematic = drop (punch cfg) coded
  let n_cb = buffer_size cfg (length systematic)
  require (ltb 0 n_cb) "n_cb must be > 0"
  k0 ← start_offset cfg n_cb
  ok (read_buffer cfg.e_bits k0 n_cb (fill_buffer n_cb systematic))

-- `rate_match(coded, e_bits)`
unfoldable pub rate_match_bits : List ℕ → ℕ → Result (List ℕ)
unfolding rate_match
rate_match_bits coded e = rate_match coded (default_match e)

module _ {ℓ} {W : Type ℓ} ⦃d : Double W⦄ where
  abbrev pub nought : W
  nought = d.lit 0 1

  -- `buf[(k0 + i) % n_cb] += llr_e[i]`, from `i` on.
  abbrev pub accumulate : ℕ → ℕ → ℕ → List W → List W → List W
  accumulate k0 n_cb i [] buf = buf
  accumulate k0 n_cb i (x ∷ xs) buf =
      let place = (k0 + i) % n_cb in
      accumulate k0 n_cb (suc i) xs (set buf place (d.add (get_or buf place nought) x))

  -- `full[punch + (i % span)] = buf[i]`, from `i` on: `buf` is what is left of the buffer there.
  abbrev pub spread : ℕ → ℕ → ℕ → List W → List W → List W
  spread p span i [] full = full
  spread p span i (x ∷ buf) full = spread p span (suc i) buf (set full (p + i % span) x)

  -- `rate_dematch(llr_e, cfg, n_coded)`
  unfoldable pub rate_dematch : List W → RateMatchConfig → ℕ → Result (List W)
  rate_dematch llr_e cfg n_coded = do
    require (ltb 0 n_coded) "n_coded must be > 0"
    check_punch (punctures cfg) n_coded (punch cfg) "n_coded too short for 2Z puncture"
    let n_cb = buffer_size cfg (n_coded - punch cfg)
    k0 ← start_offset cfg n_cb
    let buf = accumulate k0 n_cb 0 llr_e (replicate n_cb nought)
    ok (spread (punch cfg) (n_coded - punch cfg) 0 buf (replicate n_coded nought))

  -- `rate_dematch(llr_e, n_coded)`
  unfoldable pub rate_dematch_bits : List W → ℕ → Result (List W)
  unfolding rate_dematch
  rate_dematch_bits llr_e n_coded =
      rate_dematch llr_e (record (default_match (length llr_e)) { puncture_first_2z = false })
        n_coded
