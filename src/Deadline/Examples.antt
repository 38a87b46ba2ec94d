-- ===== src/Deadline/Examples.antt =====
-- Three samples, two of them above half a millisecond.
use native.Mathlib.Nat.{mul-le-mul_right}
use gunnchos_gpu_nr_baseband.Base.{ℕ, ◌*◌, ◌/◌, ◌≤◌, arith, ◌≡◌, refl, List, [], ◌∷◌, ok}
use gunnchos_gpu_nr_baseband.Base.Double.{milli_double}
use gunnchos_gpu_nr_baseband.Base.Sorting.{IsWeakOrder}
use gunnchos_gpu_nr_baseband.Deadline.{
  NumerologyConfig, DeadlineReport, slot_duration_us_for_mu, slot_of, sort_times, empty_report,
  evaluate_deadlines,
}
use gunnchos_gpu_nr_baseband.Deadline.Misses.{RoundsDown, IsReport, evaluate_deadlines-IsReport}

-- In thousandths.
abbrev samples : List ℕ
samples = 900_000 ∷ 400_000 ∷ 1_200_000 ∷ []

abbrev half : ℕ
half = 500

abbrev numerology : NumerologyConfig ℕ
numerology = record { mu = 0; slot_duration_us = 0 }

abbrev report : DeadlineReport ℕ
report = record (empty_report 0 1_000_000 500_000) {
  median_us = 900_000;
  p90_us = 900_000;
  p95_us = 900_000;
  p99_us = 900_000;
  max_us = 1_200_000;
  samples = 3;
  deadline_misses = 2;
  miss_ratio = 666;
}

report_run : evaluate_deadlines samples numerology half ≡ ok report
unfolding evaluate_deadlines sort_times slot_duration_us_for_mu
report_run = refl

mul_thousand : (x k : ℕ) → x ≤ 1000 → x * (k * 1000) ≤ 1000 * (k * 1000)
mul_thousand x k p = mul-le-mul_right (k * 1000) p

milli_rounds : RoundsDown milli_double
milli_rounds = record {
  below = λ percent k p.
      let x : ℕ = percent * 1000 / 100 in
      let small : x ≤ 1000 = omega arith in omega (arith, mul_thousand x k small);
}

milli_order : IsWeakOrder milli_double.lt
milli_order = record {
  asymmetric = λ a b e. ground arith;
  negatively_transitive = λ a b c e f. ground arith;
}

evaluate_deadlines-IsReport_example :
    (slot : ℕ) × (slot_of numerology ≡ ok slot) × IsReport samples slot half report
evaluate_deadlines-IsReport_example =
    evaluate_deadlines-IsReport milli_order milli_rounds samples numerology half report report_run
