-- ===== src/Segmentation/Fixed.antt =====
-- The success of `segment_transport_block_fixed`.
use Prim.Native.Nat.{min}
use native.Mathlib.Nat.{mul-le-mul_left, mul-le-mul_right}
use gunnchos_gpu_nr_baseband.Base.{
  ℕ, zero, suc, ◌-◌, ◌*◌, ◌≤◌, ◌<◌, ◌≡◌, refl, ap, ◌∙◌, arith, Bool, false, List, [], ◌∷◌, ltb, leb,
  le→leb, ltb→lt, leb→le, Bool-cases, inl, inr, length, take, drop, length-take, All, ok,
}
use gunnchos_gpu_nr_baseband.Base.Double.{Double}
use gunnchos_gpu_nr_baseband.Crc.Codeword.{IsBit}
use gunnchos_gpu_nr_baseband.Ldpc.{
  BaseGraph, bg1, bg2, LiftingChoice, choose_basegraph, select_lifting, kb_for_selection,
  default_kb,
}
use gunnchos_gpu_nr_baseband.Ldpc.Lifting.{select_lifting_least, select_lifting_total}
use gunnchos_gpu_nr_baseband.Segmentation.{
  CodeBlockPlan, SegmentationResult, fixed_config, crc_bits, info_bits, block_count, pad, plan_of,
  plan_block, plan_blocks, total_filler, segment_transport_block, segment_transport_block_fixed,
}
use gunnchos_gpu_nr_baseband.Segmentation.Count.{
  div_up, div_up-pos, div_up_least, div_up-div_up, info_bits-div_up, count_of, count_of-pos,
  block_count_lem,
}
use gunnchos_gpu_nr_baseband.Segmentation.Blocks.{
  length-pad, IsSegmented, segment_transport_block-IsSegmented,
}
use gunnchos_gpu_nr_baseband.Segmentation.Failure.{select_basegraph-ok}

-- Columns of the selection are columns of the base graph.
columns-le : (k : ℕ) (bg : BaseGraph) → kb_for_selection k bg ≤ default_kb bg
unfolding kb_for_selection
columns-le k bg1 = omega arith
columns-le k bg2 = ground arith

-- The base graph for a rate above 0.25 and at most 8448 bits has a lifting size for them.
graph_fits {ℓ} :
    {W : Type ℓ} ⦃d : Double W⦄ (k : ℕ) (rate : W)
    → d.le rate (d.lit 25 100) ≡ false
    → k ≤ 8448
    → k ≤ kb_for_selection k (choose_basegraph k rate) * 384
unfolding kb_for_selection
graph_fits k rate above h = ground arith

module _ {ℓ} (W : Type ℓ) ⦃d : Double W⦄ (above : d.le (d.lit 5 10) (d.lit 25 100) ≡ false)
    (k : ℕ) where
  plan_of_works :
      (bits : List ℕ) (bg : BaseGraph) (lift : LiftingChoice)
      → select_lifting (length bits) bg ≡ ok lift
      → (p : CodeBlockPlan) × (plan_of (fixed_config {W = W} k) bits bg lift ≡ ok p)
  unfolding plan_of
  plan_of_works bits bg lift e =
      let (fits, _, columns, _) = select_lifting_least (length bits) bg lift e in
      let room : length bits ≤ lift.kb * lift.zc =
        rw columns (omega (arith, fits, mul-le-mul_right lift.zc (columns-le (length bits) bg))) in
      rw (le→leb _ _ room) (_, refl)

  plan_block_works :
      (payload : List ℕ)
      → 12 ≤ length payload
      → length payload ≤ 8448
      → (p : CodeBlockPlan) × (plan_block (fixed_config {W = W} k) false payload ≡ ok p)
  unfolding plan_block
  plan_block_works payload low high =
      let n : ℕ = length payload in
      let rate : W = d.lit 5 10 in
      let bg : BaseGraph = choose_basegraph n rate in
      let (lift, found) = (select_lifting_total n bg).0 (graph_fits n rate above high) in
      let (p, made) = plan_of_works payload bg lift found in
      (p, rw (select_basegraph-ok n rate low, found) made)

  plan_blocks_work :
      (kinfo c : ℕ) (tb : List ℕ)
      → 12 ≤ kinfo
      → kinfo ≤ 8448
      → (ps : List CodeBlockPlan) × (plan_blocks (fixed_config {W = W} k) false kinfo c tb ≡ ok ps)
  unfolding plan_blocks
  plan_blocks_work kinfo zero tb low high = ([], refl)
  plan_blocks_work kinfo (suc c) tb low high =
      let taken : ℕ = min kinfo (length tb) in
      let payload : List ℕ = pad kinfo (take taken tb) in
      let size : length payload ≡ kinfo =
        length-pad kinfo (take taken tb) (omega (arith, length-take taken tb)) in
      let (p, one) = plan_block_works payload (omega arith) (omega arith) in
      let (ps, rest) = plan_blocks_work kinfo c (drop taken tb) low high in
      (p ∷ ps, rw (one, rest) refl)

-- The count is the least, so that `k` bits in one block less are too few.
count_least : (b k : ℕ) → 0 < k → k < b → k * (div_up b k - 1) < b
count_least b k hk many = elim (Bool-cases (ltb (k * (div_up b k - 1)) b)) [
  | inl less ↦ ltb→lt _ _ less
  | inr more ↦
      let enough : b ≤ k * (div_up b k - 1) = ground arith in
      absurd (
        omega
          (arith, (div_up_least b k hk).1 (div_up b k - 1) enough, div_up-pos b k (omega arith) hk))
]

-- A block of more than `k` bits is cut into pieces of 12 and more.
pieces-long : (b k : ℕ) → 40 ≤ k → k < b → 12 ≤ div_up b (div_up b k)
pieces-long b k hk many =
    let c : ℕ = div_up b k in
    let q : ℕ = div_up b c in
    let cut : b ≤ k * c = (div_up_least b k (omega arith)).0 in
    let whole : b ≤ c * q = (div_up_least b c (div_up-pos b k (omega arith) (omega arith))).0 in
    let least = count_least b k (omega arith) many in
    elim (Bool-cases (leb 12 q)) [
      | inl long ↦ leb→le 12 q long
      | inr short ↦
          let few : q ≤ 11 = ground arith in
          let one : c ≤ 1 =
            omega (arith, whole, least, mul-le-mul_left c few, mul-le-mul_right (c - 1) hk) in
          absurd (omega (arith, cut, mul-le-mul_left k one))
    ]

pieces_bounds :
    (b k : ℕ) → 12 ≤ b → 40 ≤ k → (12 ≤ div_up b (count_of b k)) × (div_up b (count_of b k) ≤ k)
pieces_bounds b k h hk = elim (Bool-cases (ltb k b)) [
  | inl many ↦
      rw many (pieces-long b k hk (ltb→lt k b many), div_up-div_up b k (omega arith) (omega arith))
  | inr one ↦ rw one (ground arith)
]

-- `segment_transport_block_fixed` cuts every transport block of at least 12 bits, for a size of 40 to
-- 8448, and with the promise of a segmentation. Of the arithmetic of `double` it needs that 0.5 is not
-- at most 0.25.
pub segment_transport_block_fixed_total {ℓ} :
    (W : Type ℓ) ⦃d : Double W⦄
    → d.le (d.lit 5 10) (d.lit 25 100) ≡ false
    → (tb : List ℕ) (k : ℕ) → All IsBit tb
    → 12 ≤ length tb
    → 40 ≤ k
    → k ≤ 8448
    → (r : SegmentationResult) × (segment_transport_block_fixed W tb k ≡ ok r)
      × IsSegmented (fixed_config {W = W} k) tb r
unfolding segment_transport_block_fixed segment_transport_block
segment_transport_block_fixed_total W ⦃d⦄ above [] k bits long low high = absurd (omega arith)
segment_transport_block_fixed_total W ⦃d⦄ above (x ∷ xs) k bits long low high =
    let tb : List ℕ = x ∷ xs in
    let c : ℕ = count_of (length tb) k in
    let positive : 0 < c = count_of-pos (length tb) k (omega arith) in
    let counted : block_count false (length tb) k ≡ ok c =
      block_count_lem false (length tb) k (omega arith) in
    let info : info_bits false (length tb) c ≡ div_up (length tb) c =
      info_bits-div_up false (length tb) c positive in
    let sizes = pieces_bounds (length tb) k long low in
    let (ps, made) =
      plan_blocks_work W above k (info_bits false (length tb) c) c tb (rw info sizes.0)
        (omega (arith, info, sizes.1)) in
    let none : ltb 0 (crc_bits false c) ≡ false = ground arith in
    let as_called : plan_blocks (fixed_config {W = W} k) (ltb 0 (crc_bits false c))
          (info_bits false (length tb) c) c tb
        ≡ ok ps =
      ap (λ (u : Bool). plan_blocks (fixed_config {W = W} k) u (info_bits false (length tb) c) c tb)
        none
      ∙ made in
    let r : SegmentationResult = record {
      code_blocks = ps;
      transport_crc_bits = 0;
      total_filler_bits = total_filler ps;
      num_code_blocks = c;
    } in
    let fine : segment_transport_block_fixed W tb k ≡ ok r =
      rw (le→leb _ _ low, counted, as_called) refl in
    (r, fine, segment_transport_block-IsSegmented (fixed_config k) tb r bits (omega arith) fine)
