-- ===== src/Deadline.antt =====
-- src/deadline.cpp and include/nr_bb/deadline.hpp: how many of the measured times miss a slot's deadline.
mod Misses
mod Examples
use gunnchos_gpu_nr_baseband.Base.{
  ℕ, zero, suc, ◌-◌, ◌^◌, Bool, true, false, ◌&&◌, List, [], ◌∷◌, if◌then◌else◌, ltb, leb, length,
  get_or, String, Result, ok, throw, ◌>>=◌, ◌>>◌, require,
}
use gunnchos_gpu_nr_baseband.Base.Double.{Double}
use gunnchos_gpu_nr_baseband.Base.Sorting.{sort_by}

pub record NumerologyConfig {ℓ} (W : Type ℓ) : Type ℓ where
  pub mu : ℕ
  pub slot_duration_us : W

pub record DeadlineReport {ℓ} (W : Type ℓ) : Type ℓ where
  pub mu : ℕ
  pub slot_duration_us : W
  pub deadline_us : W
  pub median_us : W
  pub p90_us : W
  pub p95_us : W
  pub p99_us : W
  pub max_us : W
  pub samples : ℕ
  pub deadline_misses : ℕ
  pub miss_ratio : W
  pub timing_source : String
  pub gpu_claim : String

module _ {ℓ} {W : Type ℓ} ⦃d : Double W⦄ where
  unfoldable pub slot_duration_us_for_mu : ℕ → Result W
  slot_duration_us_for_mu mu = do
    require (leb mu 4) "mu must be 0..4"
    ok (d.div (d.lit 1000 1) (d.of_nat (2 ^ mu)))

  -- `std::sort`
  unfoldable pub sort_times : List W → List W
  sort_times xs = sort_by d.lt xs

  -- `pct(p)`
  abbrev pub percentile : List W → W → W
  percentile us p = get_or us (d.floor (d.mul p (d.of_nat (length us - 1)))) (d.lit 0 1)

  abbrev pub misses : W → List W → ℕ
  misses deadline [] = 0
  misses deadline (v ∷ us) =
      let rest = misses deadline us in if d.lt deadline v then suc rest else rest

  abbrev pub slot_of : NumerologyConfig W → Result W
  slot_of cfg =
      let derived = slot_duration_us_for_mu cfg.mu in
      if d.lt (d.lit 0 1) cfg.slot_duration_us then ok cfg.slot_duration_us else derived

  -- The report without samples.
  abbrev pub empty_report : ℕ → W → W → DeadlineReport W
  empty_report mu slot deadline = record {
    mu = mu;
    slot_duration_us = slot;
    deadline_us = deadline;
    median_us = d.lit 0 1;
    p90_us = d.lit 0 1;
    p95_us = d.lit 0 1;
    p99_us = d.lit 0 1;
    max_us = d.lit 0 1;
    samples = 0;
    deadline_misses = 0;
    miss_ratio = d.lit 0 1;
    timing_source = "cpu_synthetic";
    gpu_claim = "none — NEVER claim GPU timing closure from CPU synthetic";
  }

  abbrev pub report_of : List W → DeadlineReport W → DeadlineReport W
  report_of [] r = r
  report_of (x ∷ xs) r =
      let us = sort_times (x ∷ xs) in
      let missed = misses r.deadline_us us in
      record r {
        median_us = percentile us (d.lit 50 100);
        p90_us = percentile us (d.lit 90 100);
        p95_us = percentile us (d.lit 95 100);
        p99_us = percentile us (d.lit 99 100);
        max_us = get_or us (length us - 1) (d.lit 0 1);
        samples = length (x ∷ xs);
        deadline_misses = missed;
        miss_ratio = d.div (d.of_nat missed) (d.of_nat (length us));
      }

  unfoldable pub evaluate_deadlines : List W → NumerologyConfig W → W → Result (DeadlineReport W)
  evaluate_deadlines sample_us cfg fraction = do
    require (d.lt (d.lit 0 1) fraction && d.le fraction (d.lit 1 1)) "deadline_fraction"
    slot ← slot_of cfg
    ok (report_of sample_us (empty_report cfg.mu slot (d.mul slot fraction)))
