-- ===== src/Segmentation/RoundTrip.antt =====
-- Blocks without a CRC, joined again.
use gunnchos_gpu_nr_baseband.Base.{
  ℕ, zero, suc, ◌+◌, ◌-◌, ◌*◌, ◌≤◌, ◌<◌, ◌≡◌, refl, ap, ap₂, ◌∙◌, arith, false, ◌&&◌, List, [], ◌∷◌,
  ◌++◌, map, append-nil, ltb, le→leb, length, replicate, length-append, length-replicate,
  take-append, All, ok,
}
use gunnchos_gpu_nr_baseband.Base.Double.{Double}
use gunnchos_gpu_nr_baseband.Crc.Codeword.{IsBit}
use gunnchos_gpu_nr_baseband.Segmentation.{
  SegmentationConfig, CodeBlockPlan, SegmentationResult, joined, segment_transport_block,
  concatenate_code_blocks,
}
use gunnchos_gpu_nr_baseband.Segmentation.Count.{div_up}
use gunnchos_gpu_nr_baseband.Segmentation.Blocks.{
  Carries, ArePlans, segment_transport_block-IsSegmented,
}

abbrev block_bits : List CodeBlockPlan → List (List ℕ)
block_bits plans = map (λ p. p.bits_with_crc) plans

no_tail : (payload bits : List ℕ) → Carries false payload bits → bits ≡ payload
no_tail payload bits ([], same, size, _) = same ∙ append-nil payload
no_tail payload bits (x ∷ tail, same, size, _) = absurd (omega arith)

joined-plans :
    (ws : List (List ℕ)) (ps : List CodeBlockPlan)
    → ArePlans false ws ps
    → joined (block_bits ps) ≡ joined ws
joined-plans [] [] h = refl
joined-plans [] (p ∷ ps) h = absurd h
joined-plans (w ∷ ws) [] h = absurd h
joined-plans (w ∷ ws) (p ∷ ps) (h, hs) =
    ap₂ (λ (a b : List ℕ). a ++ b) (no_tail w p.bits_with_crc h.0) (joined-plans ws ps hs)

-- The zeros at the end go again, however many they are.
concatenate-pad :
    (cbs : List (List ℕ)) (tb : List ℕ) (n : ℕ)
    → joined cbs ≡ tb ++ replicate n 0
    → concatenate_code_blocks cbs n ≡ ok tb
unfolding concatenate_code_blocks
concatenate-pad cbs tb zero e = ap ok (e ∙ append-nil tb)
concatenate-pad cbs tb (suc n) e =
    let zeros : List ℕ = replicate (suc n) 0 in
    let count : length zeros ≡ suc n = length-replicate (suc n) 0 in
    let size : length (tb ++ zeros) ≡ length tb + length zeros = length-append tb zeros in
    let room : suc n ≤ length (tb ++ zeros) = omega arith in
    let kept : length (tb ++ zeros) - suc n ≡ length tb = omega arith in
    rw (e, le→leb _ _ room) (ap ok (take-append (length (tb ++ zeros) - suc n) tb zeros kept))

-- The blocks of a successful segmentation without CRC, joined, less the zeros that fill up the last of
-- them, are the transport block of bits again.
pub concatenate_code_blocks-segment_transport_block {ℓ} :
    {W : Type ℓ} ⦃d : Double W⦄ (cfg : SegmentationConfig W) (tb : List ℕ) (r : SegmentationResult)
    → cfg.attach_crc24b_when_segmented ≡ false
    → All IsBit tb
    → 0 < length tb
    → segment_transport_block cfg tb ≡ ok r
    → concatenate_code_blocks
        (map (λ p. p.bits_with_crc) r.code_blocks)
        (r.num_code_blocks * div_up (length tb) r.num_code_blocks - length tb)
      ≡ ok tb
concatenate_code_blocks-segment_transport_block cfg tb r plain bits nonempty e =
    let (_, _, (ws, are, _, _, whole)) =
      segment_transport_block-IsSegmented cfg tb r bits nonempty e in
    let off : (ltb 1 r.num_code_blocks && cfg.attach_crc24b_when_segmented) ≡ false =
      ground arith in
    let plans : ArePlans false ws r.code_blocks = rw (← off) are in
    concatenate-pad (block_bits r.code_blocks) tb _ (joined-plans ws r.code_blocks plans ∙ whole)
