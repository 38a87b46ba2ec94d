-- ===== src/Scheduler/Packing.antt =====
-- The resource blocks of the served users.
use Prim.Native.Nat.{min}
use gunnchos_gpu_nr_baseband.Base.{
  ℕ, suc, ◌+◌, ◌-◌, ◌≤◌, ◌<◌, ◌≡◌, refl, ap, ◌∙◌, arith, Bool, List, [], ◌∷◌, if◌then◌else◌, ltb,
  lt→ltb, length, take, length-take, ok,
}
use gunnchos_gpu_nr_baseband.Base.Double.{Double}
use gunnchos_gpu_nr_baseband.Base.Sorting.{length-sort_by}
use gunnchos_gpu_nr_baseband.Scheduler.{
  UeState, PrbAllocation, ScheduleResult, SchedulerConfig, share, pack, eligible, filtered,
  result_for, stable_sort, precedes, schedule,
}

module _ {ℓ} {W : Type ℓ} where
  -- The blocks from `from` up to `to`, each user's behind those of the one before.
  abbrev pub Contiguous : ℕ → ℕ → List (PrbAllocation W) → Type 0
  Contiguous from to [] = from ≡ to
  Contiguous from to (a ∷ more) = (a.prb_start ≡ from) × Contiguous (from + a.prb_count) to more

module _ {ℓ} {W : Type ℓ} ⦃d : Double W⦄ (cfg : SchedulerConfig W) where
  pack-Contiguous :
      (sum : W) (ue : UeState W) (ues : List (UeState W)) (cursor remaining to : ℕ)
      → cursor + remaining ≡ to
      → Contiguous cursor to (pack cfg sum (ue ∷ ues) cursor remaining)
  unfolding pack
  pack-Contiguous sum ue [] cursor remaining to e = ground arith
  pack-Contiguous sum ue (next ∷ ues) cursor remaining to e =
      let n : ℕ =
        (let wanted = share cfg sum ue (next ∷ ues) remaining in
          if ltb remaining wanted then remaining else wanted) in
      let fits : n ≤ remaining = ground arith in
      (refl, pack-Contiguous sum next ues (cursor + n) (remaining - n) to (omega arith))

  length-pack :
      (sum : W) (ues : List (UeState W)) (cursor remaining : ℕ)
      → length (pack cfg sum ues cursor remaining) ≡ length ues
  unfolding pack
  length-pack sum [] cursor remaining = refl
  length-pack sum (ue ∷ ues) cursor remaining = ap suc (length-pack sum ues _ _)

  length-stable_sort :
      (qos : Bool) (xs : List (UeState W)) → length (stable_sort qos xs) ≡ length xs
  unfolding stable_sort
  length-stable_sort qos xs = length-sort_by (precedes qos) xs

  result_for_none :
      (left_out : List ℕ) (ues : List (UeState W))
      → length ues ≡ 0
      → (result_for cfg left_out ues).allocations ≡ []
  result_for_none left_out [] e = refl
  result_for_none left_out (ue ∷ ues) e = absurd (omega arith)

  result_for-Contiguous :
      (left_out : List ℕ) (ues : List (UeState W))
      → 0 < length ues
      → Contiguous 0 cfg.n_prb (result_for cfg left_out ues).allocations
  result_for-Contiguous left_out [] h = absurd (omega arith)
  result_for-Contiguous left_out (ue ∷ ues) h =
      pack-Contiguous _ ue ues 0 cfg.n_prb cfg.n_prb (omega arith)

  length-result_for :
      (left_out : List ℕ) (ues : List (UeState W))
      → length (result_for cfg left_out ues).allocations ≡ length ues
  length-result_for left_out [] = refl
  length-result_for left_out (ue ∷ ues) = length-pack _ (ue ∷ ues) 0 cfg.n_prb

  -- With a positive number of blocks and of users a slot is always scheduled. Where no user passes the
  -- filter, nothing is allocated. Else the allocations lie side by side from block 0 on and use up all
  -- of the blocks, and there are as many as users pass, `max_ues` at most.
  pub schedule_packs :
      (ues : List (UeState W))
      → 0 < cfg.n_prb
      → 0 < cfg.max_ues
      → (r : ScheduleResult W) × (schedule cfg ues ≡ ok r)
        × (eligible cfg ues ≡ [] → r.allocations ≡ [])
        × (0 < length (eligible cfg ues) → Contiguous 0 cfg.n_prb r.allocations)
        × (length r.allocations ≡ min cfg.max_ues (length (eligible cfg ues)))
  unfolding schedule
  schedule_packs ues some_prb some_ue =
      let fit : List (UeState W) = eligible cfg ues in
      let sorted : List (UeState W) = stable_sort cfg.enable_qos fit in
      let size : length sorted ≡ length fit = length-stable_sort cfg.enable_qos fit in
      let chosen : List (UeState W) = take (min cfg.max_ues (length sorted)) sorted in
      let chosen_size : length chosen ≡ min cfg.max_ues (length fit) =
        omega (arith, length-take (min cfg.max_ues (length sorted)) sorted) in
      (
        result_for cfg (filtered cfg ues) chosen,
        rw (lt→ltb 0 cfg.n_prb some_prb, lt→ltb 0 cfg.max_ues some_ue) refl,
        λ e.
            let none : length fit ≡ 0 = ap length e in
            result_for_none (filtered cfg ues) chosen (omega arith),
        λ h. result_for-Contiguous (filtered cfg ues) chosen (omega arith),
        length-result_for (filtered cfg ues) chosen ∙ chosen_size,
      )
