-- ===== src/Segmentation.antt =====
-- src/segmentation.cpp and include/nr_bb/segmentation.hpp: a transport block cut into code blocks.
-- Lengths are numbers: those of real blocks fit the source's `int` with room to spare.
mod Count
mod Blocks
mod Failure
mod Fixed
mod RoundTrip
mod Examples
use gunnchos_gpu_nr_baseband.Base.{
  ℕ, zero, suc, ◌+◌, ◌-◌, ◌*◌, ◌/◌, Bool, true, false, ◌&&◌, List, [], ◌∷◌, ◌++◌, if◌then◌else◌,
  ◌==◌, ltb, leb, length, take, drop, replicate, Result, ok, throw, ◌>>=◌, ◌>>◌, require,
}
use Prim.Native.Nat.{min}
use gunnchos_gpu_nr_baseband.Base.Int.{ℤ, pos, negsuc}
use gunnchos_gpu_nr_baseband.Base.Double.{Double}
use gunnchos_gpu_nr_baseband.Crc.{crc24b, crc_attach}
use gunnchos_gpu_nr_baseband.Ldpc.{
  BaseGraph, bg2, LdpcParams, LiftingChoice, select_basegraph, select_lifting,
}

pub record SegmentationConfig {ℓ} (W : Type ℓ) : Type ℓ where
  pub max_cb_info_bits : ℕ
  pub attach_crc24b_when_segmented : Bool
  pub bg : BaseGraph
  pub target_rate : W
  pub auto_select_bg : Bool

-- The default member initialisers.
abbrev pub default_config {ℓ} : {W : Type ℓ} ⦃d : Double W⦄ → SegmentationConfig W
default_config ⦃d⦄ = record {
  max_cb_info_bits = 8448;
  attach_crc24b_when_segmented = true;
  bg = bg2;
  target_rate = d.lit 5 10;
  auto_select_bg = true;
}

pub record CodeBlockPlan : Type 0 where
  pub bits_with_crc : List ℕ
  pub filler_bits : ℕ
  pub k_ldpc : ℕ
  pub zc : ℕ
  pub i_ls : ℕ
  pub bg : BaseGraph
  pub ldpc : LdpcParams

pub record SegmentationResult : Type 0 where
  pub code_blocks : List CodeBlockPlan
  pub transport_crc_bits : ℕ
  pub total_filler_bits : ℕ
  pub num_code_blocks : ℕ

-- `L` and `Luse`: the CRC bits of each of `c` blocks.
abbrev pub crc_bits : Bool → ℕ → ℕ
crc_bits attach c = if ltb 1 c && attach then 24 else 0

-- `Kp - L`: the payload bits of each of `c` blocks.
abbrev pub info_bits : Bool → ℕ → ℕ → ℕ
info_bits attach b c =
    let l = crc_bits attach c in let bp = b + c * l in let kp = (bp + c - 1) / c in kp - l

-- The `while (true)` loop, on fuel. 10000 rounds are enough: it throws at C = 10000.
unfoldable pub refine_count : ℕ → Bool → ℕ → ℕ → ℕ → Result ℕ
refine_count zero attach b k c = throw "out of fuel"
refine_count (suc fuel) attach b k c =
    let more =
      require (ltb (c + 1) 10000) "segmentation C runaway"
      >> refine_count fuel attach b k (c + 1) in
    if leb (info_bits attach b c) k then ok c else more

-- The number C of code blocks.
unfoldable pub block_count : Bool → ℕ → ℕ → Result ℕ
block_count attach b k =
    let first = (b + k - 1) / k in if ltb k b then refine_count 10000 attach b k first else ok 1

-- `payload.resize(Kinfo, 0)` where the payload is shorter.
abbrev pub pad : ℕ → List ℕ → List ℕ
pad n xs = xs ++ replicate (n - length xs) 0

abbrev pub with_crc : Bool → List ℕ → Result (List ℕ)
with_crc true payload = crc_attach payload crc24b
with_crc false payload = ok payload

abbrev pub total_filler : List CodeBlockPlan → ℕ
total_filler [] = 0
total_filler (p ∷ ps) = p.filler_bits + total_filler ps

abbrev pub no_blocks : SegmentationResult
no_blocks = record {
  code_blocks = [];
  transport_crc_bits = 0;
  total_filler_bits = 0;
  num_code_blocks = 0;
}

module _ {ℓ} {W : Type ℓ} ⦃d : Double W⦄ (cfg : SegmentationConfig W) where
  abbrev pub basegraph_of : Bool → ℕ → Result BaseGraph
  basegraph_of true size = select_basegraph size cfg.target_rate
  basegraph_of false size = ok cfg.bg

  -- The rest of a round, once the lifting size is chosen.
  unfoldable pub plan_of : List ℕ → BaseGraph → LiftingChoice → Result CodeBlockPlan
  plan_of bits bg lift = do
    require (leb (length bits) (lift.kb * lift.zc)) "negative filler"
    ok (record {
      bits_with_crc = bits;
      filler_bits = lift.kb * lift.zc - length bits;
      k_ldpc = lift.kb * lift.zc;
      zc = lift.zc;
      i_ls = lift.i_ls;
      bg = bg;
      ldpc = record {
        bg = bg;
        zc = pos lift.zc;
        i_ls = pos lift.i_ls;
        max_iter = pos 25;
        info_bits = pos (length bits);
        kb = pos lift.kb;
        mb_use = negsuc 0;
      };
    })

  -- The plan of one block, from its payload; `segmented` is `L > 0`.
  unfoldable pub plan_block : Bool → List ℕ → Result CodeBlockPlan
  plan_block segmented payload = do
    bits ← with_crc segmented payload
    bg ← basegraph_of cfg.auto_select_bg (length bits)
    lift ← select_lifting (length bits) bg
    plan_of bits bg lift

  -- The loop over `c`, with `left` rounds to go, on what stands in the transport block from `offset`
  -- on: `take` payload bits are read, and the offset grows by as many.
  unfoldable pub plan_blocks : Bool → ℕ → ℕ → List ℕ → Result (List CodeBlockPlan)
  plan_blocks segmented kinfo zero rest = ok []
  plan_blocks segmented kinfo (suc left) rest = do
    let taken = min kinfo (length rest)
    plan ← plan_block segmented (pad kinfo (take taken rest))
    plans ← plan_blocks segmented kinfo left (drop taken rest)
    ok (plan ∷ plans)

  unfoldable pub segment_transport_block : List ℕ → Result SegmentationResult
  segment_transport_block [] = ok no_blocks
  segment_transport_block (x ∷ xs) = do
    let tb = x ∷ xs
    let attach = cfg.attach_crc24b_when_segmented
    require (leb 40 cfg.max_cb_info_bits) "max_cb_info_bits too small"
    c ← block_count attach (length tb) cfg.max_cb_info_bits
    let kinfo = info_bits attach (length tb) c
    plans ← plan_blocks (ltb 0 (crc_bits attach c)) kinfo c tb
    ok (record {
      code_blocks = plans;
      transport_crc_bits = 0;
      total_filler_bits = total_filler plans;
      num_code_blocks = c;
    })

-- `segment_transport_block_fixed`: the defaults, but for the size and no CRC.
abbrev pub fixed_config {ℓ} : {W : Type ℓ} ⦃d : Double W⦄ → ℕ → SegmentationConfig W
fixed_config ⦃d⦄ max_cb_bits = record {
  max_cb_info_bits = max_cb_bits;
  attach_crc24b_when_segmented = false;
  bg = bg2;
  target_rate = d.lit 5 10;
  auto_select_bg = true;
}

unfoldable pub segment_transport_block_fixed {ℓ} :
    (W : Type ℓ) ⦃d : Double W⦄ → List ℕ → ℕ → Result SegmentationResult
segment_transport_block_fixed W tb max_cb_bits =
    segment_transport_block {W = W} (fixed_config max_cb_bits) tb

-- `concatenate_code_blocks`: the blocks one after another, less `filler_bits` at the end.
abbrev pub joined : List (List ℕ) → List ℕ
joined [] = []
joined (b ∷ bs) = b ++ joined bs

unfoldable pub concatenate_code_blocks : List (List ℕ) → ℕ → Result (List ℕ)
concatenate_code_blocks cbs zero = ok (joined cbs)
concatenate_code_blocks cbs (suc n) = do
  let out = joined cbs
  require (leb (suc n) (length out)) "filler exceeds concatenated size"
  ok (take (length out - suc n) out)
