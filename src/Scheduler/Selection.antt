-- ===== src/Scheduler/Selection.antt =====
-- Which users `schedule` serves.
use mathlib.Core.List.{Perm, perm_middle}
use mathlib.Core.List.Perm
use Prim.Native.Nat.{min}
use gunnchos_gpu_nr_baseband.Base.{
  ℕ, ◌<◌, ◌≡◌, refl, sym, ap, ◌∙◌, arith, Bool, true, false, List, [], ◌∷◌, ◌++◌, map,
  if◌then◌else◌, ltb, length, take, drop, take-append-drop, length-take, All, Bool-cases, inl, inr,
  ok, require-eq-ok,
}
use gunnchos_gpu_nr_baseband.Base.Double.{Double}
use gunnchos_gpu_nr_baseband.Base.Sorting
use gunnchos_gpu_nr_baseband.Base.Sorting.{IsWeakOrder}
use gunnchos_gpu_nr_baseband.Scheduler.{
  UeState, ScheduleResult, SchedulerConfig, composite_metric, precedes, stable_sort, pass, eligible,
  filtered, pack, result_for, schedule,
}

module _ {ℓ} {W : Type ℓ} ⦃d : Double W⦄ (qos : Bool) where
  -- The metric of `x` is not below that of any of the others.
  abbrev pub IsFirst : UeState W → List (UeState W) → Type 0
  IsFirst x others =
      All (λ y. d.lt (composite_metric qos x) (composite_metric qos y) ≡ false) others

  -- No metric is below a later one.
  abbrev pub IsSorted : List (UeState W) → Type 0
  IsSorted [] = Unit
  IsSorted (x ∷ xs) = IsFirst x xs × IsSorted xs

  precedes-IsWeakOrder : IsWeakOrder d.lt → IsWeakOrder (precedes {W = W} qos)
  precedes-IsWeakOrder order = record {
    asymmetric = λ a b e. order.asymmetric _ _ e;
    negatively_transitive = λ a b c e f. order.negatively_transitive _ _ _ f e;
  }

  in_order : (xs : List (UeState W)) → Sorting.IsSorted (precedes qos) xs → IsSorted xs
  in_order [] h = tt
  in_order (x ∷ xs) h = (h.0, in_order xs h.1)

module _ {ℓ} {W : Type ℓ} ⦃d : Double W⦄ (cfg : SchedulerConfig W) where
  -- What the scheduler asks of a user.
  pub record CanServe (ue : UeState W) : Type ℓ where
    pub connected : ue.rrc_connected ≡ true
    pub kept : ue.filtered_out ≡ false
    pub enough : d.le cfg.min_buffer_bytes ue.buffer_bytes ≡ true
    pub below_limit : ue.harq_processes_active < cfg.max_harq_active
    pub process_free : ue.harq_processes_active < ue.harq_processes_max

  pass-CanServe : (ue : UeState W) → pass cfg ue ≡ true → CanServe ue
  unfolding pass
  pass-CanServe ue e = ground arith

  pass_of : (ue : UeState W) → CanServe ue → pass cfg ue ≡ true
  unfolding pass
  pass_of ue h = ground arith

  -- The users that do not pass.
  abbrev rejected : List (UeState W) → List (UeState W)
  rejected [] = []
  rejected (ue ∷ ues) = let rest = rejected ues in if pass cfg ue then rest else ue ∷ rest

  eligible-CanServe : (ues : List (UeState W)) → All CanServe (eligible cfg ues)
  eligible-CanServe [] = tt
  eligible-CanServe (ue ∷ ues) = elim (Bool-cases (pass cfg ue)) [
    | inl fine ↦ rw fine (pass-CanServe ue fine, eligible-CanServe ues)
    | inr bad ↦ rw bad (eligible-CanServe ues)
  ]

  not-CanServe-rejected : (ues : List (UeState W)) → All (λ ue. ¬ CanServe ue) (rejected ues)
  not-CanServe-rejected [] = tt
  not-CanServe-rejected (ue ∷ ues) = elim (Bool-cases (pass cfg ue)) [
    | inl fine ↦ rw fine (not-CanServe-rejected ues)
    | inr bad ↦
        rw bad
          ((λ can. let fine : pass cfg ue ≡ true = pass_of ue can in cc), not-CanServe-rejected ues)
  ]

  split-Perm : (ues : List (UeState W)) → Perm (eligible cfg ues ++ rejected ues) ues
  split-Perm [] = Perm.refl []
  split-Perm (ue ∷ ues) = elim (Bool-cases (pass cfg ue)) [
    | inl fine ↦ rw fine (Perm.cons ue (split-Perm ues))
    | inr bad ↦
        rw bad (
          Perm.trans (perm_middle (eligible cfg ues) (rejected ues))
            (Perm.cons ue (split-Perm ues)))
  ]

  abbrev pub ids : List (UeState W) → List ℕ
  ids ues = map (λ ue. ue.ue_id) ues

  pack-ids :
      (sum : W) (ues : List (UeState W)) (cursor remaining : ℕ)
      → map (λ a. a.ue_id) (pack cfg sum ues cursor remaining) ≡ ids ues
  unfolding pack
  pack-ids sum [] cursor remaining = refl
  pack-ids sum (ue ∷ ues) cursor remaining = ap (◌∷◌ ue.ue_id) (pack-ids sum ues _ _)

  result_for-ids :
      (left_out : List ℕ) (ues : List (UeState W))
      → ((result_for cfg left_out ues).selected_ues ≡ ids ues)
        × ((result_for cfg left_out ues).filtered_ues ≡ left_out)
  result_for-ids left_out [] = (refl, refl)
  result_for-ids left_out (ue ∷ ues) = (pack-ids _ (ue ∷ ues) 0 cfg.n_prb, refl)

  filtered-rejected : (ues : List (UeState W)) → filtered cfg ues ≡ ids (rejected ues)
  filtered-rejected [] = refl
  filtered-rejected (ue ∷ ues) = elim (Bool-cases (pass cfg ue)) [
    | inl fine ↦ rw fine (filtered-rejected ues)
    | inr bad ↦ rw bad (ap (◌∷◌ ue.ue_id) (filtered-rejected ues))
  ]

  -- The users are divided into those served, those waiting and those left out. The result names the served
  -- and the left out. A user is left out exactly when it is not connected, is filtered out, does not have
  -- the least amount in its buffer, or has as many active HARQ processes as the configuration or the user
  -- itself allows. Of the others as many as possible are served, up to `max_ues`; served and waiting stand
  -- in the order of their metrics, and no waiting user has a better metric than a served one. Comparing
  -- numbers must be a weak order, which it is without NaN.
  pub schedule_selects :
      IsWeakOrder d.lt
      → (ues : List (UeState W)) (r : ScheduleResult W) → schedule cfg ues ≡ ok r
      → (served : List (UeState W)) × (waiting : List (UeState W)) × (left_out : List (UeState W))
        × Perm ((served ++ waiting) ++ left_out) ues
        × (r.selected_ues ≡ ids served)
        × (r.filtered_ues ≡ ids left_out)
        × All CanServe (served ++ waiting)
        × All (λ ue. ¬ CanServe ue) left_out
        × (length served ≡ min cfg.max_ues (length (served ++ waiting)))
        × All (λ s. IsFirst cfg.enable_qos s waiting) served
        × IsSorted cfg.enable_qos (served ++ waiting)
  unfolding schedule stable_sort
  schedule_selects order ues r e =
      let before : UeState W → UeState W → Bool = precedes cfg.enable_qos in
      let fit : List (UeState W) = eligible cfg ues in
      let sorted : List (UeState W) = Sorting.sort_by before fit in
      let n : ℕ = min cfg.max_ues (length sorted) in
      let split : take n sorted ++ drop n sorted ≡ sorted = take-append-drop n sorted in
      let (_, e1) = require-eq-ok (ltb 0 cfg.n_prb) "n_prb must be > 0" _ e in
      let (_, e2) = require-eq-ok (ltb 0 cfg.max_ues) "max_ues must be > 0" _ e1 in
      let made : result_for cfg (filtered cfg ues) (take n sorted) ≡ r = cc in
      let (chosen, left) = result_for-ids (filtered cfg ues) (take n sorted) in
      let sorted_now : Sorting.IsSorted before sorted =
        Sorting.sort_by-IsSorted before (precedes-IsWeakOrder cfg.enable_qos order) fit in
      let size : length (take n sorted) ≡ min cfg.max_ues (length sorted) =
        omega (arith, length-take n sorted) in
      (
        take n sorted,
        drop n sorted,
        rejected ues,
        rw split (
            Perm.trans (Perm.append_right (rejected ues) (Sorting.sort_by-Perm before fit))
              (split-Perm ues)),
        ap (λ t. t.selected_ues) (sym made) ∙ chosen,
        ap (λ t. t.filtered_ues) (sym made) ∙ left ∙ filtered-rejected ues,
        rw split (Sorting.All-sort_by before CanServe fit (eligible-CanServe ues)),
        not-CanServe-rejected ues,
        rw split size,
        Sorting.take-IsFirst before n sorted sorted_now,
        rw split (in_order cfg.enable_qos sorted sorted_now),
      )
