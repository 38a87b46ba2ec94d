-- ===== src/Educational/Compact/RoundTrip.antt =====
-- The encoder, the decoder and the test of the compact code fit together.
use mathlib.Core.Path.{subst}
use gunnchos_gpu_nr_baseband.Base.{
  ℕ, ◌+◌, ◌<◌, ◌≡◌, refl, sym, ap, ap₂, ◌∙◌, arith, true, false, ◌==◌, List, length, get_or, take,
  All, ok, require-eq-ok, >>-eq-ok, >>=-eq-ok, ==_iff, length-map, length-tabulate_from,
  get_or-take, get_or_ext, length-take,
}
use gunnchos_gpu_nr_baseband.Base.Double.{Double}
use gunnchos_gpu_nr_baseband.Base.Signed.{Signed}
use gunnchos_gpu_nr_baseband.Llr.{llr_to_bits, bits_to_llr, bits_to_llr_bits}
use gunnchos_gpu_nr_baseband.Parity.{codeword, rows_even}
use gunnchos_gpu_nr_baseband.Parity.Rows.{IsBit}
use gunnchos_gpu_nr_baseband.Parity.Syndrome.{
  parity_encode-eq-ok, parity_encode-rows_even, codeword-info,
}
use gunnchos_gpu_nr_baseband.MinSum.Rows.{matrix_of, matrix_of-IsBit, tests_agree}
use gunnchos_gpu_nr_baseband.MinSum.Clean.{minsum_clean, llr_to_bits-IsBit}
use gunnchos_gpu_nr_baseband.Ldpc.Encode.{check_bits}
use gunnchos_gpu_nr_baseband.Ldpc.Encode.Syndrome.{check_bits-IsBit}
use gunnchos_gpu_nr_baseband.Educational.Compact.Codewords.{
  build_h-matrix_of, IsGraph, make_graph-IsGraph,
}
use gunnchos_gpu_nr_baseband.Educational.Compact.{
  Graph, CompactQcLdpcParams, make_graph, n_of, k_of, m_of, build_h, encode_ge, expand_edges,
  decode_minsum, compact_qc_ldpc_encode, compact_qc_ldpc_decode, compact_qc_ldpc_syndrome_ok,
}

-- What the encoder returns: bits, with even checks, that start with the information bits.
record IsWord (g : Graph) (info word : List ℕ) : Type 0 where
  size : length word ≡ n_of g
  bits : All IsBit word
  even : rows_even (n_of g) (build_h g) word (m_of g) 0 ≡ true
  front : take (k_of g) word ≡ info

build_h-IsBit : (g : Graph) → All IsBit (build_h g)
build_h-IsBit g =
    subst (All IsBit) (sym (build_h-matrix_of g))
      (matrix_of-IsBit (m_of g) (n_of g) (expand_edges g))

take_codeword :
    (n k m : ℕ) (info rhs : List ℕ)
    → n ≡ k + m
    → length info ≡ k
    → take k (codeword n k info rhs) ≡ info
take_codeword n k m info rhs square size =
    let whole : length (codeword n k info rhs) ≡ n = length-tabulate_from 0 n _ in
    get_or_ext _ _ 0 (omega (arith, length-take k (codeword n k info rhs))) (λ j p.
      let below : j < k = omega (arith, length-take k (codeword n k info rhs)) in
      get_or-take k (codeword n k info rhs) j 0 below
      ∙ ap (λ (t : ℕ). get_or (codeword t k info rhs) j 0) square
      ∙ codeword-info k m info rhs j below)

encode_ge-IsWord :
    (g : Graph) (info word : List ℕ)
    → IsGraph g
    → All IsBit info
    → encode_ge info g ≡ ok word
    → IsWord g info word
unfolding encode_ge
encode_ge-IsWord g info word good bits e =
    let (test, made) = require-eq-ok (length info == k_of g) "info length must equal kb*zc" _ e in
    let long : length info ≡ k_of g = (==_iff (length info) (k_of g)).0 test in
    let (s, _, same) =
      parity_encode-eq-ok _ (n_of g) (k_of g) (m_of g) (build_h g) info word made in
    let fine =
      parity_encode-rows_even _ (n_of g) (k_of g) (m_of g) (build_h g) info word good.square long
        (build_h-IsBit g) bits made in
    record {
      size = ap length same ∙ length-tabulate_from 0 (n_of g) _;
      bits = fine.0;
      even = fine.1;
      front =
          ap (take (k_of g)) same
          ∙ take_codeword (n_of g) (k_of g) (m_of g) info s.rhs good.square long;
    }

encode-IsWord :
    (info word : List ℕ) (p : CompactQcLdpcParams)
    → compact_qc_ldpc_encode info p ≡ ok word
    → (g : Graph) × (make_graph p ≡ ok g) × IsGraph g × IsWord g info word
unfolding compact_qc_ldpc_encode
encode-IsWord info word p e =
    let (tested, e1) = >>-eq-ok (check_bits info) _ e in
    let (g, made, e2) = >>=-eq-ok (make_graph p) _ e1 in
    let good = make_graph-IsGraph p g made in
    (g, made, good, encode_ge-IsWord g info word good (check_bits-IsBit info tested) e2)

syndrome_ok_of_word :
    (info word : List ℕ) (p : CompactQcLdpcParams) (g : Graph)
    → make_graph p ≡ ok g
    → IsWord g info word
    → compact_qc_ldpc_syndrome_ok word p ≡ ok true
unfolding compact_qc_ldpc_syndrome_ok
syndrome_ok_of_word info word p g made w =
    let test : (length word == n_of g) ≡ true = (==_iff (length word) (n_of g)).1 w.size in
    rw (made, test, w.even) refl

module _ {ℓ} {W : Type ℓ} ⦃d : Double W⦄ ⦃s : Signed W⦄
    (adds_zero : (x : W) → d.le (d.lit 0 1) (d.add x (d.lit 0 1)) ≡ d.le (d.lit 0 1) x) where
  decode_of_word :
      (llr : List W) (info word : List ℕ) (p : CompactQcLdpcParams) (g : Graph)
      → make_graph p ≡ ok g
      → IsGraph g
      → IsWord g info word
      → llr_to_bits llr ≡ word
      → compact_qc_ldpc_decode llr p ≡ ok info
  unfolding compact_qc_ldpc_decode decode_minsum llr_to_bits
  decode_of_word llr info word p g made good w same =
      let size : length llr ≡ n_of g = sym (length-map _ llr) ∙ ap length same ∙ w.size in
      let test : (length llr == n_of g) ≡ true = (==_iff (length llr) (n_of g)).1 size in
      let agrees =
        tests_agree (m_of g) (n_of g) (expand_edges g) (llr_to_bits llr) good.inside
          (ap length same ∙ w.size) (llr_to_bits-IsBit llr) in
      let even : rows_even (n_of g) (matrix_of (m_of g) (n_of g) (expand_edges g)) (llr_to_bits llr)
            (m_of g) 0
          ≡ true =
        ap₂ (λ (h c : List ℕ). rows_even (n_of g) h c (m_of g) 0) (sym (build_h-matrix_of g)) same
        ∙ w.even in
      let clean =
        minsum_clean adds_zero (n_of g) (k_of g) (m_of g) (expand_edges g) llr p.max_iter size
          (agrees ∙ even) in
      rw (made, test) (ap ok (clean ∙ ap (take (k_of g)) same ∙ w.front))

module _ {ℓ} {W : Type ℓ} ⦃d : Double W⦄ ⦃s : Signed W⦄
    (adds_zero : (x : W) → d.le (d.lit 0 1) (d.add x (d.lit 0 1)) ≡ d.le (d.lit 0 1) x)
    (magnitude : W) (positive : d.le (d.lit 0 1) magnitude ≡ true)
    (negative : d.le (d.lit 0 1) (s.neg magnitude) ≡ false) where
  -- Every word of the compact encoder passes the syndrome test of the compact code under the same
  -- parameters and, made soft, decodes to the information bits. It is asked of the soft values that adding
  -- 0 keeps the sign of a value, and that the magnitude counts as not negative and its opposite as
  -- negative.
  pub compact_round_trip :
      (info word : List ℕ) (p : CompactQcLdpcParams)
      → compact_qc_ldpc_encode info p ≡ ok word
      → (compact_qc_ldpc_syndrome_ok word p ≡ ok true)
        × ((llr : List W) × (bits_to_llr word magnitude ≡ ok llr)
            × (compact_qc_ldpc_decode llr p ≡ ok info))
  compact_round_trip info word p e =
      let (g, made, good, w) = encode-IsWord info word p e in
      let (llr, soft, signs) = bits_to_llr_bits magnitude positive negative word w.bits in
      (
        syndrome_ok_of_word info word p g made w,
        (llr, soft, decode_of_word adds_zero llr info word p g made good w signs),
      )
