-- ===== src/Scheduler/Examples.antt =====
-- The theorems on the scheduler at three users, one of them not connected.
use mathlib.Core.List.{Perm}
use Prim.Native.Nat.{min}
use gunnchos_gpu_nr_baseband.Base.{
  ℕ, ◌<◌, ◌≡◌, refl, arith, Bool, true, false, List, [], ◌∷◌, ◌++◌, length, All, ok,
}
use gunnchos_gpu_nr_baseband.Base.Double.{milli_double}
use gunnchos_gpu_nr_baseband.Base.Sorting.{IsWeakOrder}
use gunnchos_gpu_nr_baseband.Scheduler.{
  UeState, PrbAllocation, ScheduleResult, SchedulerConfig, eligible, schedule, mix64,
  composite_metric, stable_sort, pass, pack,
}
use gunnchos_gpu_nr_baseband.Scheduler.Packing.{Contiguous, schedule_packs}
use gunnchos_gpu_nr_baseband.Scheduler.Selection.{
  CanServe, IsFirst, IsSorted, ids, schedule_selects,
}

-- The rate in thousandths.
abbrev user : ℕ → ℕ → Bool → UeState ℕ
user id rate connected = record {
  ue_id = id;
  avg_throughput = 1000;
  instant_rate = rate;
  harq_processes_active = 0;
  harq_processes_max = 16;
  qos_weight = 1000;
  buffer_bytes = 1_000_000;
  rrc_connected = connected;
  filtered_out = false;
  preferred_mcs = 4;
  preferred_layers = 1;
  cqi = 11;
}

abbrev users : List (UeState ℕ)
users = user 1 1000 true ∷ user 2 5000 false ∷ user 3 3000 true ∷ user 4 2000 true ∷ []

abbrev small : SchedulerConfig ℕ
small = record {
  n_prb = 50;
  max_ues = 2;
  max_harq_active = 8;
  min_buffer_bytes = 1000;
  enable_qos = true;
  seed = 1;
}

abbrev block_of : ℕ → ℕ → ℕ → ℕ → PrbAllocation ℕ
block_of id start count metric = record {
  ue_id = id;
  prb_start = start;
  prb_count = count;
  mcs = 16;
  layers = 1;
  metric = metric;
}

abbrev slot : ScheduleResult ℕ
slot = record {
  allocations = block_of 3 0 29 12342 ∷ block_of 4 29 21 8229 ∷ [];
  selected_ues = 3 ∷ 4 ∷ [];
  filtered_ues = 2 ∷ [];
  replay_hash = 4119911121981146700;
}

slot_run : schedule small users ≡ ok slot
unfolding schedule stable_sort composite_metric pass pack mix64
slot_run = refl

schedule_packs_example :
    (r : ScheduleResult ℕ) × (schedule small users ≡ ok r)
    × (eligible small users ≡ [] → r.allocations ≡ [])
    × (0 < length (eligible small users) → Contiguous 0 50 r.allocations)
    × (length r.allocations ≡ min 2 (length (eligible small users)))
schedule_packs_example = schedule_packs small users (omega arith) (omega arith)

milli_order : IsWeakOrder milli_double.lt
milli_order = record {
  asymmetric = λ a b e. ground arith;
  negatively_transitive = λ a b c e f. ground arith;
}

schedule_selects_example :
    (served : List (UeState ℕ)) × (waiting : List (UeState ℕ)) × (left_out : List (UeState ℕ))
    × Perm ((served ++ waiting) ++ left_out) users
    × (3 ∷ 4 ∷ [] ≡ ids small served)
    × (2 ∷ [] ≡ ids small left_out)
    × All (CanServe small) (served ++ waiting)
    × All (λ ue. ¬ CanServe small ue) left_out
    × (length served ≡ min 2 (length (served ++ waiting)))
    × All (λ s. IsFirst true s waiting) served
    × IsSorted true (served ++ waiting)
schedule_selects_example = schedule_selects small milli_order users slot slot_run
