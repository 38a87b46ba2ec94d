-- ===== src/Deadline/Misses.antt =====
-- The counts and the ranks in a report.
use mathlib.Core.List.{Perm, perm_middle}
use mathlib.Core.List.Perm
use gunnchos_gpu_nr_baseband.Base.{
  ℕ, suc, ◌-◌, ◌≤◌, ◌<◌, ◌≡◌, refl, ap, arith, true, false, ◌&&◌, List, [], ◌∷◌, ◌++◌, length,
  get_or, All, ◌⊎◌, Bool-cases, inl, inr, ok, require-eq-ok, >>=-eq-ok,
}
use gunnchos_gpu_nr_baseband.Base.Double.{Double}
use gunnchos_gpu_nr_baseband.Base.Sorting.{
  IsWeakOrder, IsRanked, sort_by, sort_by-Perm, length-sort_by, sort_by-IsRanked,
}
use gunnchos_gpu_nr_baseband.Deadline.{
  NumerologyConfig, DeadlineReport, sort_times, misses, slot_of, empty_report, report_of,
  evaluate_deadlines,
}

-- The place of a percentile among `n` sorted samples.
abbrev pub place_of {ℓ} : {W : Type ℓ} → Double W → ℕ → ℕ → ℕ
place_of d percent n = d.floor (d.mul (d.lit percent 100) (d.of_nat (n - 1)))

-- A fraction of at most 1 of a number rounds down to at most the number.
pub record RoundsDown {ℓ} {W : Type ℓ} (d : Double W) : Type 0 where
  pub below : (percent k : ℕ) → percent ≤ 100 → d.floor (d.mul (d.lit percent 100) (d.of_nat k)) ≤ k

module _ {ℓ} {W : Type ℓ} ⦃d : Double W⦄ where
  -- The number of the samples that are above the deadline, by a division of them in two.
  pub data HasLate (deadline : W) (xs : List W) (n : ℕ) : Type ℓ where
    divided :
        (late in_time : List W)
        → Perm (late ++ in_time) xs
        → All (λ v. d.lt deadline v ≡ true) late
        → All (λ v. d.lt deadline v ≡ false) in_time
        → n ≡ length late
        → HasLate deadline xs n

  misses-HasLate : (deadline : W) (xs : List W) → HasLate deadline xs (misses deadline xs)
  misses-HasLate deadline [] = divided [] [] (Perm.refl []) tt tt refl
  misses-HasLate deadline (x ∷ xs) = elim (misses-HasLate deadline xs) [
    | divided late in_time same above below count ↦ elim (Bool-cases (d.lt deadline x)) [
      | inl t ↦ rw t (divided (x ∷ late) in_time (Perm.cons x same) (t, above) below (ap suc count))
      | inr t ↦ rw t (
          divided late (x ∷ in_time) (Perm.trans (perm_middle late in_time) (Perm.cons x same))
            above (t, below) count)
    ]
  ]

  HasLate-Perm :
      (deadline : W) (xs ys : List W) (n : ℕ)
      → Perm xs ys
      → HasLate deadline xs n
      → HasLate deadline ys n
  HasLate-Perm deadline xs ys n p h = elim h [
    | divided late in_time same above below count ↦
        divided late in_time (Perm.trans same p) above below count
  ]

  -- What a report says where there are samples.
  pub record HasRanks (xs : List W) (r : DeadlineReport W) : Type ℓ where
    pub ratio : r.miss_ratio ≡ d.div (d.of_nat r.deadline_misses) (d.of_nat (length xs))
    pub median : IsRanked d.lt xs (place_of d 50 (length xs)) r.median_us
    pub p90 : IsRanked d.lt xs (place_of d 90 (length xs)) r.p90_us
    pub p95 : IsRanked d.lt xs (place_of d 95 (length xs)) r.p95_us
    pub p99 : IsRanked d.lt xs (place_of d 99 (length xs)) r.p99_us
    pub greatest : IsRanked d.lt xs (length xs - 1) r.max_us

  -- What a report says of the samples and the deadline.
  pub record IsReport (xs : List W) (slot fraction : W) (r : DeadlineReport W) : Type ℓ where
    pub deadline : r.deadline_us ≡ d.mul slot fraction
    pub samples : r.samples ≡ length xs
    pub late : HasLate r.deadline_us xs r.deadline_misses
    pub ranks : (xs ≡ []) ⊎ HasRanks xs r

  -- The value at the place of a percentile in the sorted samples.
  percentile-IsRanked :
      IsWeakOrder d.lt
      → RoundsDown d
      → (xs : List W) (percent : ℕ) → 0 < length xs
      → percent ≤ 100
      → IsRanked d.lt xs
          (place_of d percent (length xs))
          (get_or (sort_by d.lt xs) (place_of d percent (length (sort_by d.lt xs))) (d.lit 0 1))
  percentile-IsRanked order rounded xs percent some p = rw (length-sort_by d.lt xs) (
      sort_by-IsRanked d.lt order xs (place_of d percent (length xs)) (d.lit 0 1)
        (omega (arith, rounded.below percent (length xs - 1) p)))

  report_of-IsReport :
      IsWeakOrder d.lt
      → RoundsDown d
      → (xs : List W) (mu : ℕ) (slot fraction : W)
      → IsReport xs slot fraction (report_of xs (empty_report mu slot (d.mul slot fraction)))
  unfolding sort_times
  report_of-IsReport order rounded [] mu slot fraction = record {
    deadline = refl;
    samples = refl;
    late = misses-HasLate (d.mul slot fraction) [];
    ranks = inl refl;
  }
  report_of-IsReport order rounded (x ∷ xs) mu slot fraction =
      let size = length-sort_by d.lt (x ∷ xs) in
      let rank = percentile-IsRanked order rounded (x ∷ xs) in
      record {
        deadline = refl;
        samples = refl;
        late =
            HasLate-Perm (d.mul slot fraction) (sort_by d.lt (x ∷ xs)) (x ∷ xs) _
              (sort_by-Perm d.lt (x ∷ xs))
              (misses-HasLate (d.mul slot fraction) (sort_by d.lt (x ∷ xs)));
        ranks = inr (record {
          ratio =
              ap
                (λ (n : ℕ).
                  d.div (d.of_nat (misses (d.mul slot fraction) (sort_by d.lt (x ∷ xs))))
                    (d.of_nat n))
                size;
          median = rank 50 (omega arith) (omega arith);
          p90 = rank 90 (omega arith) (omega arith);
          p95 = rank 95 (omega arith) (omega arith);
          p99 = rank 99 (omega arith) (omega arith);
          greatest = rw size (
              sort_by-IsRanked d.lt order (x ∷ xs) (length (x ∷ xs) - 1) (d.lit 0 1) (omega arith));
        });
      }

  -- A report that `evaluate_deadlines` makes counts all samples, and as misses those that are above the
  -- fraction of the slot's duration. With samples, its ratio is that of the two counts, its percentiles are
  -- the samples that stand in the order of their size at the places of 50, 90, 95 and 99 percent, rounded
  -- down, and its maximum is the last of the order. Comparing numbers must be a weak order, which it is
  -- without NaN, and a fraction of at most 1 of a number must round down to at most the number.
  pub evaluate_deadlines-IsReport :
      IsWeakOrder d.lt
      → RoundsDown d
      → (sample_us : List W) (cfg : NumerologyConfig W) (fraction : W) (r : DeadlineReport W)
      → evaluate_deadlines sample_us cfg fraction ≡ ok r
      → (slot : W) × (slot_of cfg ≡ ok slot) × IsReport sample_us slot fraction r
  unfolding evaluate_deadlines
  evaluate_deadlines-IsReport order rounded sample_us cfg fraction r e =
      let (_, e1) =
        require-eq-ok (d.lt (d.lit 0 1) fraction && d.le fraction (d.lit 1 1)) "deadline_fraction" _
          e in
      let (slot, found, made) = >>=-eq-ok (slot_of cfg) _ e1 in
      let same : report_of sample_us (empty_report cfg.mu slot (d.mul slot fraction)) ≡ r = cc in
      (slot, found, rw (← same) (report_of-IsReport order rounded sample_us cfg.mu slot fraction))
