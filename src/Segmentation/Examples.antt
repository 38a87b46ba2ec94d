-- ===== src/Segmentation/Examples.antt =====
-- The theorems on segmentation at concrete blocks.
use gunnchos_gpu_nr_baseband.Base.{
  ℕ, ◌*◌, ◌<◌, ◌≡◌, refl, arith, true, List, [], ◌∷◌, ◌++◌, length, replicate, length-replicate,
  All, All-replicate, ok, throw,
}
use gunnchos_gpu_nr_baseband.Base.Int.{pos, negsuc}
use gunnchos_gpu_nr_baseband.Base.Double.{milli_double}
use gunnchos_gpu_nr_baseband.Crc.{bits_msb, crc_attach, compute_crc, crc_loop, crc_step, poly}
use gunnchos_gpu_nr_baseband.Crc.Codeword.{IsBit}
use gunnchos_gpu_nr_baseband.Ldpc.{
  bg2, select_basegraph, select_lifting, best_lifting, kb_for_selection,
}
use gunnchos_gpu_nr_baseband.Segmentation.{
  SegmentationConfig, CodeBlockPlan, SegmentationResult, default_config, fixed_config, block_count,
  refine_count, plan_blocks, plan_block, plan_of, segment_transport_block,
  segment_transport_block_fixed, concatenate_code_blocks,
}
use gunnchos_gpu_nr_baseband.Segmentation.Count.{div_up, block_count_lem}
use gunnchos_gpu_nr_baseband.Segmentation.Blocks.{IsSegmented, segment_transport_block-IsSegmented}
use gunnchos_gpu_nr_baseband.Segmentation.Failure.{segment_transport_block_fails}
use gunnchos_gpu_nr_baseband.Segmentation.Fixed.{segment_transport_block_fixed_total}
use gunnchos_gpu_nr_baseband.Segmentation.RoundTrip.{
  concatenate_code_blocks-segment_transport_block,
}

abbrev ones : ℕ → List ℕ
ones n = replicate n 1

ones-IsBit : (n : ℕ) → All IsBit (ones n)
ones-IsBit n = All-replicate IsBit n 1 (omega arith)

block_count_example : block_count true 100 40 ≡ ok 3
block_count_example = block_count_lem true 100 40 (omega arith)

-- A size of 40 and the CRC.
abbrev small_config : SegmentationConfig ℕ
small_config = record {
  max_cb_info_bits = 40;
  attach_crc24b_when_segmented = true;
  bg = bg2;
  target_rate = 500;
  auto_select_bg = true;
}

-- 25 ones and their CRC.
abbrev small_plan : CodeBlockPlan
small_plan = record {
  bits_with_crc = ones 25 ++ bits_msb 24 0x1fc6;
  filler_bits = 41;
  k_ldpc = 90;
  zc = 9;
  i_ls = 4;
  bg = bg2;
  ldpc = record {
    bg = bg2;
    zc = pos 9;
    i_ls = pos 4;
    max_iter = pos 25;
    info_bits = pos 49;
    kb = pos 10;
    mb_use = negsuc 0;
  };
}

abbrev small_result : SegmentationResult
small_result = record {
  code_blocks = small_plan ∷ small_plan ∷ [];
  transport_crc_bits = 0;
  total_filler_bits = 82;
  num_code_blocks = 2;
}

small_run : segment_transport_block small_config (ones 50) ≡ ok small_result
unfolding segment_transport_block block_count refine_count plan_blocks plan_block plan_of
    select_basegraph select_lifting best_lifting kb_for_selection crc_attach compute_crc crc_loop
    crc_step poly
small_run = refl

segment_transport_block-IsSegmented_example : IsSegmented small_config (ones 50) small_result
segment_transport_block-IsSegmented_example =
    segment_transport_block-IsSegmented small_config (ones 50) small_result (ones-IsBit 50)
      (omega arith) small_run

-- The last of two blocks is filled up by a zero.
abbrev plain_plan : List ℕ → CodeBlockPlan
plain_plan bits = record {
  bits_with_crc = bits;
  filler_bits = 18;
  k_ldpc = 40;
  zc = 4;
  i_ls = 0;
  bg = bg2;
  ldpc = record {
    bg = bg2;
    zc = pos 4;
    i_ls = pos 0;
    max_iter = pos 25;
    info_bits = pos 22;
    kb = pos 10;
    mb_use = negsuc 0;
  };
}

abbrev last_block : List ℕ
last_block = 0 ∷ []

abbrev plain_result : SegmentationResult
plain_result = record {
  code_blocks = plain_plan (ones 22) ∷ plain_plan (ones 21 ++ last_block) ∷ [];
  transport_crc_bits = 0;
  total_filler_bits = 36;
  num_code_blocks = 2;
}

abbrev plain_config : SegmentationConfig ℕ
plain_config = fixed_config 40

plain_run : segment_transport_block plain_config (ones 43) ≡ ok plain_result
unfolding segment_transport_block block_count refine_count plan_blocks plan_block plan_of
    select_basegraph select_lifting best_lifting kb_for_selection
plain_run = refl

concatenate_code_blocks-segment_transport_block_example :
    concatenate_code_blocks (ones 22 ∷ (ones 21 ++ last_block) ∷ []) 1 ≡ ok (ones 43)
concatenate_code_blocks-segment_transport_block_example =
    concatenate_code_blocks-segment_transport_block plain_config (ones 43) plain_result refl
      (ones-IsBit 43) (omega arith) plain_run

segment_transport_block_fixed_total_example :
    (r : SegmentationResult) × (segment_transport_block_fixed ℕ (ones 43) 40 ≡ ok r)
    × IsSegmented plain_config (ones 43) r
segment_transport_block_fixed_total_example =
    segment_transport_block_fixed_total ℕ refl (ones 43) 40 (ones-IsBit 43) (omega arith)
      (omega arith) (omega arith)

abbrev two_full : List ℕ
two_full = ones 16896

length-two_full : length two_full ≡ 16896
length-two_full = length-replicate {A = ℕ} 16896 1

two_full_over : 8424 * div_up (length two_full) 8448 < length two_full
two_full_over = rw length-two_full (omega arith)

segment_transport_block_fails_example :
    segment_transport_block (default_config {W = ℕ}) two_full ≡ throw "no valid lifting size for K"
segment_transport_block_fails_example =
    segment_transport_block_fails ℕ two_full (ones-IsBit 16896) (omega (arith, length-two_full))
      two_full_over
