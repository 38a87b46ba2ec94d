-- ===== src/Segmentation/Failure.antt =====
-- Long transport blocks in the default configuration, whose loop over C compares the payload of a block,
-- without its CRC-24B, to `max_cb_info_bits`.
use Prim.Native.Nat.{min}
use native.Mathlib.Nat.{mul-le-mul_left}
use gunnchos_gpu_nr_baseband.Base.{
  ℕ, zero, suc, ◌-◌, ◌*◌, ◌≤◌, ◌<◌, ◌≡◌, refl, ap, ◌∙◌, arith, Bool, true, List, [], ◌∷◌, ◌++◌, ltb,
  le→leb, ltb→lt, Bool-cases, inl, inr, length, take, replicate, length-append, length-take, All,
  All-append, All-take, All-replicate, ok, throw,
}
use gunnchos_gpu_nr_baseband.Base.Double.{Double}
use gunnchos_gpu_nr_baseband.Crc.{crc24b, crc_length_bits}
use gunnchos_gpu_nr_baseband.Crc.Codeword.{IsBit}
use gunnchos_gpu_nr_baseband.Crc.Detect.{crc_attach-crc_check}
use gunnchos_gpu_nr_baseband.Ldpc.{BaseGraph, select_basegraph, choose_basegraph, select_lifting}
use gunnchos_gpu_nr_baseband.Ldpc.Lifting.{kb_for_selection_bounds, select_lifting_total}
use gunnchos_gpu_nr_baseband.Segmentation.{
  default_config, crc_bits, info_bits, block_count, pad, plan_block, plan_blocks,
  segment_transport_block,
}
use gunnchos_gpu_nr_baseband.Segmentation.Count.{
  div_up, div_up_least, info_bits-div_up, count_of, block_count_lem,
}
use gunnchos_gpu_nr_baseband.Segmentation.Blocks.{length-pad}

-- No lifting size of either base graph holds more than 8448 bits.
too_long :
    (k : ℕ) (bg : BaseGraph) → 8448 < k → select_lifting k bg ≡ throw "no valid lifting size for K"
too_long k bg h = (select_lifting_total k bg).1 (omega (arith, kb_for_selection_bounds k bg))

pub select_basegraph-ok {ℓ} :
    {W : Type ℓ} ⦃d : Double W⦄ (k : ℕ) (rate : W)
    → 12 ≤ k
    → select_basegraph k rate ≡ ok (choose_basegraph k rate)
unfolding select_basegraph
select_basegraph-ok k rate h = rw (le→leb _ _ h)

factor-lt : (b c n m : ℕ) → b ≤ c * n → m * c < b → m < n
factor-lt b c n m p q = elim (Bool-cases (ltb m n)) [
  | inl less ↦ ltb→lt m n less
  | inr more ↦ let below : n ≤ m = ground arith in absurd (omega (arith, mul-le-mul_left c below))
]

module _ {ℓ} (W : Type ℓ) ⦃d : Double W⦄ where
  plan_block_fails :
      (payload : List ℕ)
      → All IsBit payload
      → 8424 < length payload
      → plan_block (default_config {W = W}) true payload ≡ throw "no valid lifting size for K"
  unfolding plan_block crc_length_bits
  plan_block_fails payload bits h =
      let (tail, made, size, _, _) = crc_attach-crc_check crc24b payload bits in
      let coded : List ℕ = payload ++ tail in
      let long : 8448 < length coded = omega (arith, length-append payload tail) in
      let rate : W = d.lit 5 10 in
      rw
        (
          made,
          select_basegraph-ok (length coded) rate (omega arith),
          too_long (length coded) (choose_basegraph (length coded) rate) long,
        )
        refl

  plan_blocks_fails :
      (kinfo c : ℕ) (tb : List ℕ)
      → All IsBit tb
      → 0 < c
      → 8424 < kinfo
      → plan_blocks (default_config {W = W}) true kinfo c tb ≡ throw "no valid lifting size for K"
  unfolding plan_blocks
  plan_blocks_fails kinfo zero tb bits some_block h = absurd (omega arith)
  plan_blocks_fails kinfo (suc c) tb bits some_block h =
      let taken : ℕ = min kinfo (length tb) in
      let payload : List ℕ = pad kinfo (take taken tb) in
      let payload_bits : All IsBit payload =
        All-append IsBit (take taken tb) (replicate (kinfo - length (take taken tb)) 0)
          (All-take IsBit taken tb bits) (All-replicate IsBit _ 0 (omega arith)) in
      let size : length payload ≡ kinfo =
        length-pad kinfo (take taken tb) (omega (arith, length-take taken tb)) in
      rw (plan_block_fails payload payload_bits (omega arith)) refl

  -- With the default configuration the segmentation fails for each transport block of bits that is
  -- longer than 8448 and that 8424 payload bits in each of its C blocks do not hold, where C is the
  -- quotient by 8448 rounded up.
  pub segment_transport_block_fails :
      (tb : List ℕ)
      → All IsBit tb
      → 8448 < length tb
      → 8424 * div_up (length tb) 8448 < length tb
      → segment_transport_block (default_config {W = W}) tb ≡ throw "no valid lifting size for K"
  unfolding segment_transport_block
  segment_transport_block_fails [] bits long over = absurd (omega arith)
  segment_transport_block_fails (x ∷ xs) bits long over =
      let tb : List ℕ = x ∷ xs in
      let c : ℕ = div_up (length tb) 8448 in
      let count : count_of (length tb) 8448 ≡ c = ground arith in
      let counted : block_count true (length tb) 8448 ≡ ok c =
        block_count_lem true (length tb) 8448 (omega arith) ∙ ap ok count in
      let several : 1 < c = omega (arith, (div_up_least (length tb) 8448 (omega arith)).0) in
      let info : info_bits true (length tb) c ≡ div_up (length tb) c =
        info_bits-div_up true (length tb) c (omega arith) in
      let crc : ltb 0 (crc_bits true c) ≡ true = ground arith in
      let wide : 8424 < info_bits true (length tb) c = rw info (
        factor-lt (length tb) c (div_up (length tb) c) 8424
          (div_up_least (length tb) c (omega arith)).0 over) in
      let fails : plan_blocks (default_config {W = W}) (ltb 0 (crc_bits true c))
            (info_bits true (length tb) c) c tb
          ≡ throw "no valid lifting size for K" =
        ap
          (λ (u : Bool). plan_blocks (default_config {W = W}) u (info_bits true (length tb) c) c tb)
          crc
        ∙ plan_blocks_fails (info_bits true (length tb) c) c tb bits (omega arith) wide in
      rw (counted, fails) refl
