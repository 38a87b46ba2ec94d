-- ===== src/Scheduler.antt =====
-- src/scheduler.cpp and include/nr_bb/scheduler.hpp: which users are served in a slot, and with which
-- resource blocks. Counts, indices and shares that the source keeps in an `int` are numbers; `double` is
-- the instance argument.
mod Packing
mod Selection
mod Examples
use gunnchos_gpu_nr_baseband.Base.{
  ℕ, zero, suc, ◌+◌, ◌-◌, ◌*◌, ◌%◌, ◌^◌, bit_xor, Bool, true, false, not, ◌&&◌, List, [], ◌∷◌, map,
  if◌then◌else◌, ◌==◌, ltb, leb, length, take, Result, ok, throw, ◌>>=◌, ◌>>◌, require, ◌<<<◌,
  ◌>>>◌,
}
use Prim.Native.Nat.{min, max}
use gunnchos_gpu_nr_baseband.Base.Double.{Double}
use gunnchos_gpu_nr_baseband.Base.Sorting.{sort_by}

pub record UeState {ℓ} (W : Type ℓ) : Type ℓ where
  pub ue_id : ℕ
  pub avg_throughput : W
  pub instant_rate : W
  pub harq_processes_active : ℕ
  pub harq_processes_max : ℕ
  pub qos_weight : W
  pub buffer_bytes : W
  pub rrc_connected : Bool
  pub filtered_out : Bool
  pub preferred_mcs : ℕ
  pub preferred_layers : ℕ
  pub cqi : ℕ

pub record PrbAllocation {ℓ} (W : Type ℓ) : Type ℓ where
  pub ue_id : ℕ
  pub prb_start : ℕ
  pub prb_count : ℕ
  pub mcs : ℕ
  pub layers : ℕ
  pub metric : W

pub record ScheduleResult {ℓ} (W : Type ℓ) : Type ℓ where
  pub allocations : List (PrbAllocation W)
  pub selected_ues : List ℕ
  pub filtered_ues : List ℕ
  pub replay_hash : ℕ

pub record SchedulerConfig {ℓ} (W : Type ℓ) : Type ℓ where
  pub n_prb : ℕ
  pub max_ues : ℕ
  pub max_harq_active : ℕ
  pub min_buffer_bytes : W
  pub enable_qos : Bool
  pub seed : ℕ

-- The default member initialisers.
abbrev pub default_scheduler {ℓ} : {W : Type ℓ} ⦃d : Double W⦄ → SchedulerConfig W
default_scheduler ⦃d⦄ = record {
  n_prb = 50;
  max_ues = 4;
  max_harq_active = 8;
  min_buffer_bytes = d.lit 1 1;
  enable_qos = true;
  seed = 1;
}

-- `x ^= x >> n`
abbrev pub xor_shift : ℕ → ℕ → ℕ
xor_shift n x = bit_xor x (x >>> n)

unfoldable pub mix64 : ℕ → ℕ
mix64 x =
    let first = xor_shift 30 x * 0xbf58476d1ce4e5b9 % 2 ^ 64 in
    let second = xor_shift 27 first * 0x94d049bb133111eb % 2 ^ 64 in xor_shift 31 second

module _ {ℓ} {W : Type ℓ} ⦃d : Double W⦄ where
  -- `std::max` and `std::min` on `double`.
  abbrev pub maximum : W → W → W
  maximum a b = if d.lt a b then b else a

  abbrev pub minimum : W → W → W
  minimum a b = if d.lt b a then b else a

  abbrev pub pf_metric : UeState W → W
  pf_metric ue =
      d.mul ue.qos_weight
        (d.div ue.instant_rate (maximum ue.avg_throughput (d.lit 1 1_000_000_000)))

  -- `m *= (1.0 + by)`
  abbrev pub boost : W → W → W
  boost m by = d.mul m (d.add (d.lit 1 1) by)

  unfoldable pub composite_metric : Bool → UeState W → W
  composite_metric enable_qos ue =
      let with_cqi = boost (pf_metric ue) (d.mul (d.lit 5 100) (d.of_nat ue.cqi)) in
      let with_layers = boost with_cqi (d.mul (d.lit 2 100) (d.of_nat ue.preferred_layers)) in
      let with_qos =
        if enable_qos
        then d.mul with_layers (maximum (d.lit 1 10) ue.qos_weight)
        else with_layers in
      let with_buffer =
        boost with_qos (d.div (minimum ue.buffer_bytes (d.lit 1_000_000 1)) (d.lit 1_000_000 1)) in
      boost with_buffer
        (d.mul (d.lit 1 10) (d.of_nat (ue.harq_processes_max - ue.harq_processes_active)))

  -- Before `a` in the order of the sort.
  abbrev pub precedes : Bool → UeState W → UeState W → Bool
  precedes qos a b = d.lt (composite_metric qos b) (composite_metric qos a)

  unfoldable pub stable_sort : Bool → List (UeState W) → List (UeState W)
  stable_sort qos xs = sort_by (precedes qos) xs

  module _ (cfg : SchedulerConfig W) where
    -- `pass`
    unfoldable pub pass : UeState W → Bool
    pass ue =
        ue.rrc_connected
        && (not ue.filtered_out
            && (d.le cfg.min_buffer_bytes ue.buffer_bytes
                && (ltb ue.harq_processes_active cfg.max_harq_active
                    && ltb ue.harq_processes_active ue.harq_processes_max)))

    abbrev pub eligible : List (UeState W) → List (UeState W)
    eligible [] = []
    eligible (ue ∷ ues) = let rest = eligible ues in if pass ue then ue ∷ rest else rest

    abbrev pub filtered : List (UeState W) → List ℕ
    filtered [] = []
    filtered (ue ∷ ues) = let rest = filtered ues in if pass ue then rest else ue.ue_id ∷ rest

    abbrev pub metric_of : UeState W → W
    metric_of ue = composite_metric cfg.enable_qos ue

    -- `sum_m`, from a sum on.
    abbrev pub sum_metrics : W → List (UeState W) → W
    sum_metrics s [] = s
    sum_metrics s (ue ∷ ues) =
        sum_metrics (d.add s (maximum (d.lit 1 1_000_000_000) (metric_of ue))) ues

    -- `n` before it is cut down to what remains.
    abbrev pub share : W → UeState W → List (UeState W) → ℕ → ℕ
    share sum ue [] remaining = remaining
    share sum ue (next ∷ more) remaining =
        max 1 (d.floor (d.mul (d.of_nat cfg.n_prb) (d.div (metric_of ue) sum)))

    abbrev pub mcs_of : UeState W → ℕ
    mcs_of ue =
        if leb 10 ue.cqi
        then max ue.preferred_mcs 16
        else if leb 7 ue.cqi
        then max ue.preferred_mcs 10
        else if leb ue.cqi 2
        then min ue.preferred_mcs 2
        else ue.preferred_mcs

    abbrev pub allocation : UeState W → ℕ → ℕ → PrbAllocation W
    allocation ue start n = record {
      ue_id = ue.ue_id;
      prb_start = start;
      prb_count = n;
      mcs = mcs_of ue;
      layers = ue.preferred_layers;
      metric = metric_of ue;
    }

    -- The loop over the selected users.
    unfoldable pub pack : W → List (UeState W) → ℕ → ℕ → List (PrbAllocation W)
    pack sum [] cursor remaining = []
    pack sum (ue ∷ ues) cursor remaining =
        let wanted = share sum ue ues remaining in
        let n = if ltb remaining wanted then remaining else wanted in
        allocation ue cursor n ∷ pack sum ues (cursor + n) (remaining - n)

    abbrev pub replay : ℕ → List (PrbAllocation W) → ℕ
    replay h [] = h
    replay h (a ∷ more) =
        let ids = bit_xor h (a.ue_id <<< 32) in
        let places = bit_xor (bit_xor ids a.prb_start) (a.prb_count <<< 16) in
        replay (mix64 (bit_xor places a.mcs)) more

    -- The result for the selected users.
    abbrev pub result_for : List ℕ → List (UeState W) → ScheduleResult W
    result_for left_out [] = record {
      allocations = [];
      selected_ues = [];
      filtered_ues = left_out;
      replay_hash = mix64 (bit_xor cfg.seed cfg.n_prb);
    }
    result_for left_out (ue ∷ ues) =
        let served = pack (sum_metrics (d.lit 0 1) (ue ∷ ues)) (ue ∷ ues) 0 cfg.n_prb in
        record {
          allocations = served;
          selected_ues = map (λ a. a.ue_id) served;
          filtered_ues = left_out;
          replay_hash = replay cfg.seed served;
        }

    unfoldable pub schedule : List (UeState W) → Result (ScheduleResult W)
    schedule ues = do
      require (ltb 0 cfg.n_prb) "n_prb must be > 0"
      require (ltb 0 cfg.max_ues) "max_ues must be > 0"
      let sorted = stable_sort cfg.enable_qos (eligible ues)
      ok (result_for (filtered ues) (take (min cfg.max_ues (length sorted)) sorted))

  -- `PfScheduler(n_prb).schedule(ues, max_ues)`
  unfoldable pub pf_schedule : ℕ → List (UeState W) → ℕ → Result (ScheduleResult W)
  unfolding schedule
  pf_schedule n_prb ues max_ues =
      schedule (record default_scheduler { n_prb = n_prb; max_ues = max_ues }) ues
