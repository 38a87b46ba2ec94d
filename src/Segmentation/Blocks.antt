-- ===== src/Segmentation/Blocks.antt =====
-- What a successful segmentation returns.
use Prim.Native.Nat.{min}
use mathlib.Core.Bool.{true≢false}
use gunnchos_gpu_nr_baseband.Base.{
  ℕ, zero, suc, ◌+◌, ◌-◌, ◌*◌, ◌≤◌, ◌<◌, ◌≡◌, refl, inl, inr, sym, ap, ap₂, ◌∙◌, arith, Bool, true,
  false, ◌&&◌, List, [], ◌∷◌, ◌++◌, append-nil, append_assoc, if◌then◌else◌, ltb, leb, length, take,
  drop, replicate, length-append, length-take, length-drop, length-replicate, take-append-drop,
  take_all, drop_all, replicate-append, All, All-append, All-take, All-drop, All-replicate, ok,
  ◌>>=◌, leb→le, >>=-eq-ok, require-eq-ok, some, Bool-cases,
}
use gunnchos_gpu_nr_baseband.Base.Int.{pos}
use gunnchos_gpu_nr_baseband.Base.Double.{Double}
use gunnchos_gpu_nr_baseband.Crc.{crc24b, crc_check, crc_length_bits}
use gunnchos_gpu_nr_baseband.Crc.Codeword.{IsBit}
use gunnchos_gpu_nr_baseband.Crc.Detect.{crc_attach-crc_check}
use gunnchos_gpu_nr_baseband.Ldpc.{
  BaseGraph, LiftingChoice, default_kb, i_ls_for_zc, select_lifting,
}
use gunnchos_gpu_nr_baseband.Ldpc.Lifting.{select_lifting_least}
use gunnchos_gpu_nr_baseband.Segmentation.{
  SegmentationConfig, CodeBlockPlan, SegmentationResult, crc_bits, info_bits, block_count, pad,
  with_crc, basegraph_of, plan_of, plan_block, plan_blocks, total_filler, joined,
  segment_transport_block,
}
use gunnchos_gpu_nr_baseband.Segmentation.Count.{
  div_up, div_up_least, info_bits-div_up, count_of, count_of-pos, block_count_lem,
}

-- A payload, with the CRC of a segmented block behind it.
abbrev pub Carries : Bool → List ℕ → List ℕ → Type 0
Carries segmented payload bits =
    (tail : List ℕ) × (bits ≡ payload ++ tail)
    × (length tail ≡ (if segmented then 24 else 0))
    × (segmented ≡ true → crc_check bits crc24b ≡ ok true)

with_crc-Carries :
    (segmented : Bool) (payload bits : List ℕ)
    → All IsBit payload
    → with_crc segmented payload ≡ ok bits
    → Carries segmented payload bits
with_crc-Carries false payload bits h e =
    let same : payload ≡ bits = cc in
    ([], sym same ∙ sym (append-nil payload), refl, λ f. absurd (true≢false (sym f)))
with_crc-Carries true payload bits h e =
    let (tail, made, size, _, fine) = crc_attach-crc_check crc24b payload h in
    let made_again : ok (payload ++ tail) ≡ ok bits = sym made ∙ e in
    let same : payload ++ tail ≡ bits = cc in
    (tail, sym same, unfold crc_length_bits in size, λ _. rw (← same) fine)

-- What a plan promises of the payload that it is made from.
abbrev pub IsPlan : Bool → List ℕ → CodeBlockPlan → Type 0
IsPlan segmented payload p =
    Carries segmented payload p.bits_with_crc
    × (p.k_ldpc ≡ default_kb p.bg * p.zc)
    × (length p.bits_with_crc + p.filler_bits ≡ p.k_ldpc)
    × (i_ls_for_zc (pos p.zc) ≡ some p.i_ls)

-- The same, once the bits are known.
abbrev Sized : List ℕ → CodeBlockPlan → Type 0
Sized bits p =
    (bits ≡ p.bits_with_crc)
    × (p.k_ldpc ≡ default_kb p.bg * p.zc)
    × (length p.bits_with_crc + p.filler_bits ≡ p.k_ldpc)
    × (i_ls_for_zc (pos p.zc) ≡ some p.i_ls)

module _ {ℓ} {W : Type ℓ} ⦃d : Double W⦄ (cfg : SegmentationConfig W) where
  plan_of-Sized :
      (bits : List ℕ) (bg : BaseGraph) (lift : LiftingChoice) (p : CodeBlockPlan)
      → lift.kb ≡ default_kb bg
      → i_ls_for_zc (pos lift.zc) ≡ some lift.i_ls
      → plan_of cfg bits bg lift ≡ ok p
      → Sized bits p
  unfolding plan_of
  plan_of-Sized bits bg lift p columns row e = ground arith

  selected-Sized :
      (bits : List ℕ) (bg : BaseGraph) (p : CodeBlockPlan)
      → (select_lifting (length bits) bg >>= plan_of cfg bits bg) ≡ ok p
      → Sized bits p
  selected-Sized bits bg p e =
      let (lift, found, made) =
        >>=-eq-ok (select_lifting (length bits) bg) (plan_of cfg bits bg) e in
      let (_, row, columns, _) = select_lifting_least (length bits) bg lift found in
      plan_of-Sized bits bg lift p columns row made

  plan_block-IsPlan :
      (segmented : Bool) (payload : List ℕ) (p : CodeBlockPlan)
      → All IsBit payload
      → plan_block cfg segmented payload ≡ ok p
      → IsPlan segmented payload p
  unfolding plan_block
  plan_block-IsPlan segmented payload p h e =
      let (bits, carried, e1) = >>=-eq-ok (with_crc segmented payload) _ e in
      let (bg, _, e2) = >>=-eq-ok (basegraph_of cfg cfg.auto_select_bg (length bits)) _ e1 in
      let (same, k, total, row) = selected-Sized bits bg p e2 in
      (rw (← same) (with_crc-Carries segmented payload bits h carried), k, total, row)

abbrev no_bits : List ℕ
no_bits = []

abbrev zeros : ℕ → List ℕ
zeros n = replicate n 0

length-zeros : (n : ℕ) → length (zeros n) ≡ n
length-zeros n = length-replicate n 0

zeros-append : (n m : ℕ) → zeros n ++ zeros m ≡ zeros (n + m)
zeros-append n m = replicate-append n m 0

pub length-pad : (n : ℕ) (xs : List ℕ) → length xs ≤ n → length (pad n xs) ≡ n
length-pad n xs h =
    omega (arith, length-append xs (zeros (n - length xs)), length-zeros (n - length xs))

-- A block of a long rest is a piece of it.
pad-long :
    (n m : ℕ) (rest : List ℕ)
    → n ≤ length rest
    → pad n (take n rest) ++ pad m (drop n rest) ≡ pad (m + n) rest
pad-long n m rest h =
    let whole : n - length (take n rest) ≡ 0 = ground (arith, length-take n rest) in
    let left : m - length (drop n rest) ≡ m + n - length rest =
      ground (arith, length-drop n rest) in
    let end = zeros (m + n - length rest) in
    ap₂ (λ (i j : ℕ). (take n rest ++ zeros i) ++ (drop n rest ++ zeros j)) whole left
    ∙ ap (λ (t : List ℕ). t ++ (drop n rest ++ end)) (append-nil (take n rest))
    ∙ sym (append_assoc (take n rest) (drop n rest) end)
    ∙ ap (λ (t : List ℕ). t ++ end) (take-append-drop n rest)

-- That of a short rest is filled up with zeros, as are those behind it.
pad-short :
    (n m : ℕ) (rest : List ℕ)
    → length rest ≤ n
    → pad n (take (length rest) rest) ++ pad m (drop (length rest) rest) ≡ pad (m + n) rest
pad-short n m rest h =
    let none : length rest ≤ length rest = omega arith in
    let sum : n - length rest + m ≡ m + n - length rest = omega arith in
    let all : m - length no_bits ≡ m = omega arith in
    ap₂ (λ (t u : List ℕ). pad n t ++ pad m u) (take_all (length rest) rest none)
      (drop_all (length rest) rest none)
    ∙ ap (λ (t : ℕ). pad n rest ++ zeros t) all
    ∙ append_assoc rest (zeros (n - length rest)) (zeros m)
    ∙ ap (λ (t : List ℕ). rest ++ t) (zeros-append (n - length rest) m)
    ∙ ap (λ (t : ℕ). rest ++ zeros t) sum

pad-step :
    (n m : ℕ) (rest : List ℕ)
    → pad n (take (min n (length rest)) rest) ++ pad m (drop (min n (length rest)) rest)
      ≡ pad (m + n) rest
pad-step n m rest = elim (Bool-cases (leb n (length rest))) [
  | inl long ↦
      let size : min n (length rest) ≡ n = ground arith in
      ap (λ (t : ℕ). pad n (take t rest) ++ pad m (drop t rest)) size
      ∙ pad-long n m rest (ground arith)
  | inr short ↦
      let size : min n (length rest) ≡ length rest = ground arith in
      ap (λ (t : ℕ). pad n (take t rest) ++ pad m (drop t rest)) size
      ∙ pad-short n m rest (ground arith)
]

-- Block for block.
abbrev pub ArePlans : Bool → List (List ℕ) → List CodeBlockPlan → Type 0
ArePlans segmented [] [] = Unit {0}
ArePlans segmented (w ∷ ws) (p ∷ ps) = IsPlan segmented w p × ArePlans segmented ws ps
ArePlans segmented [] (p ∷ ps) = ⊥
ArePlans segmented (w ∷ ws) [] = ⊥

-- The plans of a transport block in order: those of blocks of `kinfo` bits, which make up the transport
-- block and zeros behind it.
abbrev pub Segments : Bool → ℕ → ℕ → List ℕ → List CodeBlockPlan → Type 0
Segments segmented kinfo c tb plans =
    (payloads : List (List ℕ)) × ArePlans segmented payloads plans
    × All (λ w. length w ≡ kinfo) payloads
    × (length plans ≡ c)
    × (joined payloads ≡ tb ++ replicate (c * kinfo - length tb) 0)

module _ {ℓ} {W : Type ℓ} ⦃d : Double W⦄ (cfg : SegmentationConfig W) where
  plan_blocks-Segments :
      (segmented : Bool) (kinfo c : ℕ) (tb : List ℕ) (plans : List CodeBlockPlan)
      → All IsBit tb
      → length tb ≤ c * kinfo
      → plan_blocks cfg segmented kinfo c tb ≡ ok plans
      → Segments segmented kinfo c tb plans
  unfolding plan_blocks
  plan_blocks-Segments segmented kinfo zero [] plans bits room e =
      let empty : [] ≡ plans = cc in
      let none : 0 * kinfo - length no_bits ≡ 0 = omega arith in
      rw (← empty) ([], tt, tt, refl, sym (ap zeros none))
  plan_blocks-Segments segmented kinfo zero (x ∷ xs) plans bits room e = absurd (omega arith)
  plan_blocks-Segments segmented kinfo (suc c) tb plans bits room e =
      let taken : ℕ = min kinfo (length tb) in
      let payload : List ℕ = pad kinfo (take taken tb) in
      let (plan, first, e1) = >>=-eq-ok (plan_block cfg segmented payload) _ e in
      let (ps, others, e2) = >>=-eq-ok (plan_blocks cfg segmented kinfo c (drop taken tb)) _ e1 in
      let payload_bits : All IsBit payload =
        All-append IsBit (take taken tb) (replicate (kinfo - length (take taken tb)) 0)
          (All-take IsBit taken tb bits) (All-replicate IsBit _ 0 (omega arith)) in
      let rest_room : length (drop taken tb) ≤ c * kinfo = omega (arith, length-drop taken tb) in
      let (ws, are, sizes, count, whole) =
        plan_blocks-Segments segmented kinfo c (drop taken tb) ps (All-drop IsBit taken tb bits)
          rest_room others in
      let one_more : c * kinfo + kinfo ≡ suc c * kinfo = omega arith in
      let both : plan ∷ ps ≡ plans = cc in
      rw (← both) (
        payload ∷ ws,
        (plan_block-IsPlan cfg segmented payload plan payload_bits first, are),
        (length-pad kinfo (take taken tb) (omega (arith, length-take taken tb)), sizes),
        ap suc count,
        ap (λ (t : List ℕ). payload ++ t) whole
            ∙ pad-step kinfo (c * kinfo) tb
            ∙ ap (λ (t : ℕ). pad t tb) one_more,
      )

  planned-Segments :
      (c : ℕ) (tb : List ℕ) (plans : List CodeBlockPlan)
      → 0 < c
      → All IsBit tb
      → plan_blocks cfg
          (ltb 0 (crc_bits cfg.attach_crc24b_when_segmented c))
          (info_bits cfg.attach_crc24b_when_segmented (length tb) c)
          c
          tb
        ≡ ok plans
      → Segments (ltb 1 c && cfg.attach_crc24b_when_segmented) (div_up (length tb) c) c tb plans
  planned-Segments c tb plans positive bits planned =
      let attach : Bool = cfg.attach_crc24b_when_segmented in
      let info : info_bits attach (length tb) c ≡ div_up (length tb) c =
        info_bits-div_up attach (length tb) c positive in
      let crc : ltb 0 (crc_bits attach c) ≡ (ltb 1 c && attach) = ground arith in
      let as_named : plan_blocks cfg (ltb 1 c && attach) (div_up (length tb) c) c tb ≡ ok plans =
        ap₂ (λ (u : Bool) (n : ℕ). plan_blocks cfg u n c tb) (sym crc) (sym info) ∙ planned in
      plan_blocks-Segments (ltb 1 c && attach) (div_up (length tb) c) c tb plans bits
        (div_up_least (length tb) c positive).0 as_named

  -- What a segmentation promises.
  abbrev pub IsSegmented : List ℕ → SegmentationResult → Type 0
  IsSegmented tb r =
      (r.num_code_blocks ≡ count_of (length tb) cfg.max_cb_info_bits)
      × (r.total_filler_bits ≡ total_filler r.code_blocks)
      × Segments (ltb 1 r.num_code_blocks && cfg.attach_crc24b_when_segmented)
          (div_up (length tb) r.num_code_blocks) r.num_code_blocks tb r.code_blocks

-- A successful segmentation of a transport block of bits into C blocks: C is 1 where the block is no
-- longer than `max_cb_info_bits`, else the quotient of the two rounded up. The plans are those of C
-- payloads of the same length (the block's length over C, rounded up) which in their order make up
-- the transport block and zeros behind it. A plan carries its payload, with an accepted CRC-24B behind
-- it where there are several blocks and the CRC is asked for. Its bits and its filler make up k_ldpc,
-- the columns of the base graph times a lifting size of the table.
pub segment_transport_block-IsSegmented {ℓ} :
    {W : Type ℓ} ⦃d : Double W⦄ (cfg : SegmentationConfig W) (tb : List ℕ) (r : SegmentationResult)
    → All IsBit tb
    → 0 < length tb
    → segment_transport_block cfg tb ≡ ok r
    → IsSegmented cfg tb r
unfolding segment_transport_block
segment_transport_block-IsSegmented ⦃d⦄ cfg [] r bits nonempty e = absurd (omega arith)
segment_transport_block-IsSegmented ⦃d⦄ cfg (x ∷ xs) r bits nonempty e =
    let tb : List ℕ = x ∷ xs in
    let attach : Bool = cfg.attach_crc24b_when_segmented in
    let k : ℕ = cfg.max_cb_info_bits in
    let (large, e1) = require-eq-ok (leb 40 k) "max_cb_info_bits too small" _ e in
    let (c, counted, e2) = >>=-eq-ok (block_count attach (length tb) k) _ e1 in
    let (plans, planned, e3) =
      >>=-eq-ok (plan_blocks cfg (ltb 0 (crc_bits attach c)) (info_bits attach (length tb) c) c tb)
        _ e2 in
    let enough : 40 ≤ k = leb→le 40 k large in
    let count : ok c ≡ ok (count_of (length tb) k) =
      sym counted ∙ block_count_lem attach (length tb) k (omega arith) in
    let count_is : c ≡ count_of (length tb) k = cc in
    let positive : 0 < c = rw count_is (count_of-pos (length tb) k (omega arith)) in
    let blocks = planned-Segments cfg c tb plans positive bits planned in
    let made : record {
      code_blocks = plans;
      transport_crc_bits = 0;
      total_filler_bits = total_filler plans;
      num_code_blocks = c;
    }
        ≡ r =
      cc in
    rw (← made) (count_is, refl, blocks)
