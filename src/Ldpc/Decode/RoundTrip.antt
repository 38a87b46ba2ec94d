-- ===== src/Ldpc/Decode/RoundTrip.antt =====
-- `ldpc_decode` on a clean codeword, and behind `ldpc_encode`.
use gunnchos_gpu_nr_baseband.Base.{
  ℕ, zero, suc, ◌-◌, ◌≤◌, ◌<◌, inl, inr, ◌≡◌, refl, sym, ap, ◌∙◌, arith, Bool, true, false,
  if◌then◌else◌, ◌==◌, List, ◌++◌, length, get_or, take, replicate, ok, length-map, length-append,
  length-replicate, length-take, get_or-take, get_or_ext, get_or-append_left, get_or-append_right,
  get_or-replicate, require-eq-ok, >>=-eq-ok, ==_iff, Bool-cases, Less-cases, lt→ltb,
}
use gunnchos_gpu_nr_baseband.Base.Int.{ℤ, pos, negsuc}
use gunnchos_gpu_nr_baseband.Base.Double.{Double}
use gunnchos_gpu_nr_baseband.Base.Signed.{Signed, ltb_int}
use gunnchos_gpu_nr_baseband.Llr.{llr_to_bits, bits_to_llr, bits_to_llr_bits}
use gunnchos_gpu_nr_baseband.Parity.{rows_even}
use gunnchos_gpu_nr_baseband.Ldpc.{LdpcParams, eq_int}
use gunnchos_gpu_nr_baseband.Ldpc.Graph.{
  Graph, make_graph, expand_edges, n_of, k_of, m_of, given, needed_bits, lift_of,
}
use gunnchos_gpu_nr_baseband.Ldpc.Graph.Bounds.{make_graph-IsGraph}
use gunnchos_gpu_nr_baseband.Ldpc.Encode.{build_h, info_or_size, ldpc_encode, ldpc_syndrome_ok}
use gunnchos_gpu_nr_baseband.Ldpc.Encode.Systematic.{ldpc_encode_systematic, k_of-le-n_of}
use gunnchos_gpu_nr_baseband.Ldpc.Encode.Syndrome.{KeepsColumns, ldpc_encode-IsCodeword}
use gunnchos_gpu_nr_baseband.Ldpc.Decode.{decode_minsum, ldpc_decode}
use gunnchos_gpu_nr_baseband.Ldpc.Decode.Matrix.{checks_even_agrees}
use gunnchos_gpu_nr_baseband.MinSum.Clean.{minsum_clean, llr_to_bits-IsBit}

-- The decoder's test of the number of bits.
abbrev size_given : ℤ → ℤ → Bool
size_given zc bits = if eq_int zc (pos 0) then ltb_int (pos 0) bits else true

needed_bits-size_given :
    (bits : ℤ) (n : ℕ) → needed_bits (given bits) ≡ ok n → ltb_int (pos 0) bits ≡ true
needed_bits-size_given (pos zero) n e = cc
needed_bits-size_given (pos (suc k)) n e = lt→ltb 0 (suc k) (omega arith)
needed_bits-size_given (negsuc k) n e = cc

lift_of-size_given :
    (p : LdpcParams) (zc : ℤ) (lift : ℕ × ℕ)
    → lift_of p (given zc) ≡ ok lift
    → size_given zc p.info_bits ≡ true
lift_of-size_given p (pos zero) lift e =
    let (n, found, _) = >>=-eq-ok (needed_bits (given p.info_bits)) _ e in
    needed_bits-size_given p.info_bits n found
lift_of-size_given p (pos (suc k)) lift e = elim (Bool-cases (suc k == 0)) [
  | inl t ↦ let impossible : suc k ≡ 0 = (==_iff (suc k) 0).0 t in absurd (omega arith)
  | inr t ↦ rw t refl
]
lift_of-size_given p (negsuc k) lift e = refl

make_graph-size_given :
    (p : LdpcParams) (g : Graph) → make_graph p ≡ ok g → size_given p.zc p.info_bits ≡ true
unfolding make_graph
make_graph-size_given p g e =
    let (lift, lifted, _) = >>=-eq-ok (lift_of p (given p.zc)) _ e in
    lift_of-size_given p p.zc lift lifted

module _ {ℓ} {W : Type ℓ} ⦃d : Double W⦄ ⦃s : Signed W⦄
    (adds_zero : (x : W) → d.le (d.lit 0 1) (d.add x (d.lit 0 1)) ≡ d.le (d.lit 0 1) x) where
  decode_of_codeword :
      (llr : List W) (p : LdpcParams) (g : Graph)
      → make_graph p ≡ ok g
      → length (llr_to_bits llr) ≡ n_of g
      → rows_even (n_of g) (build_h g) (llr_to_bits llr) (m_of g) 0 ≡ true
      → ldpc_decode llr p ≡ ok (take (k_of g) (llr_to_bits llr))
  unfolding ldpc_decode decode_minsum llr_to_bits
  decode_of_codeword llr p g made long even =
      let tested : size_given p.zc p.info_bits ≡ true = make_graph-size_given p g made in
      let size : length llr ≡ n_of g = sym (length-map _ llr) ∙ long in
      let test : (length llr == n_of g) ≡ true = (==_iff (length llr) (n_of g)).1 size in
      let agrees = checks_even_agrees p g (llr_to_bits llr) made long (llr_to_bits-IsBit llr) in
      let clean =
        minsum_clean adds_zero (n_of g) (k_of g) (m_of g) (expand_edges g) llr p.max_iter size
          (agrees ∙ even) in
      rw (tested, made, test) (ap ok clean)

  -- Soft bits whose signs are a codeword, as ldpc_syndrome_ok tests it, decode to the first kb * zc of
  -- those signs, for every number of iterations: the decoder stops before it sends a message that could
  -- change one. It is asked of the soft values that adding 0 keeps the sign of a value.
  ldpc_decode_clean :
      (llr : List W) (p : LdpcParams)
      → ldpc_syndrome_ok (llr_to_bits llr) p ≡ ok true
      → (g : Graph) × (make_graph p ≡ ok g)
        × (ldpc_decode llr p ≡ ok (take (k_of g) (llr_to_bits llr)))
  unfolding ldpc_syndrome_ok
  ldpc_decode_clean llr p e =
      let (g, made, e1) = >>=-eq-ok (make_graph p) _ e in
      let (size, e2) = require-eq-ok (length (llr_to_bits llr) == n_of g) "codeword length" _ e1 in
      let long = (==_iff (length (llr_to_bits llr)) (n_of g)).0 size in
      let even : rows_even (n_of g) (build_h g) (llr_to_bits llr) (m_of g) 0 ≡ true = cc in
      (g, made, decode_of_codeword llr p g made long even)

-- The first bits of a systematic word.
take_systematic :
    (k : ℕ) (info word : List ℕ)
    → k ≤ length word
    → length info ≤ k
    → ((i : ℕ) → i < length info → get_or word i 0 ≡ get_or info i 0)
    → ((i : ℕ) → length info ≤ i → i < k → get_or word i 0 ≡ 0)
    → take k word ≡ info ++ replicate (k - length info) 0
take_systematic k info word fits short front filler =
    let zeros : List ℕ = replicate (k - length info) 0 in
    let whole : length zeros ≡ k - length info = length-replicate (k - length info) 0 in
    get_or_ext _ _ 0 (omega (arith, length-take k word, length-append info zeros)) (λ i p.
      let below : i < k = omega (arith, length-take k word) in
      get_or-take k word i 0 below ∙ elim (Less-cases i (length info)) [
        | inl (t, h) ↦ front i h ∙ sym (get_or-append_left info zeros i 0 h)
        | inr (t, h) ↦
            filler i h below
            ∙ sym (
                get_or-append_right info zeros (i - length info) i 0 (omega arith)
                ∙ get_or-replicate (k - length info) 0 (i - length info))
      ])

module _ {ℓ} {W : Type ℓ} ⦃d : Double W⦄ ⦃s : Signed W⦄
    (adds_zero : (x : W) → d.le (d.lit 0 1) (d.add x (d.lit 0 1)) ≡ d.le (d.lit 0 1) x)
    (magnitude : W) (positive : d.le (d.lit 0 1) magnitude ≡ true)
    (negative : d.le (d.lit 0 1) (s.neg magnitude) ≡ false) where
  -- Encoding, making the word soft and decoding give the information bits back, followed by the filler
  -- zeros, where the number of information columns is not changed or the rows are cut to `mb_use`. It is
  -- asked of the soft values that adding 0 keeps the sign of a value, and that the magnitude counts as
  -- not negative and its opposite as negative.
  pub ldpc_round_trip :
      (info word : List ℕ) (p : LdpcParams)
      → KeepsColumns p
      → ldpc_encode info p ≡ ok word
      → (g : Graph) × (make_graph (record p { info_bits = info_or_size p.info_bits (length info) })
          ≡ ok g)
        × (llr : List W) × (bits_to_llr word magnitude ≡ ok llr)
        × (ldpc_decode llr (record p { info_bits = info_or_size p.info_bits (length info) })
            ≡ ok (info ++ replicate (k_of g - length info) 0))
  ldpc_round_trip info word p keeps e =
      let q : LdpcParams = record p { info_bits = info_or_size p.info_bits (length info) } in
      let (g, made, (size, bits, even)) = ldpc_encode-IsCodeword info word p keeps e in
      let (other, made2, size2, short, front, filler) = ldpc_encode_systematic info word p e in
      let same : other ≡ g = cc in
      let (llr, soft, signs) = bits_to_llr_bits magnitude positive negative word bits in
      let decoded : ldpc_decode llr q ≡ ok (take (k_of g) (llr_to_bits llr)) =
        decode_of_codeword adds_zero llr q g made (ap length signs ∙ size)
          (ap (λ (w : List ℕ). rows_even (n_of g) (build_h g) w (m_of g) 0) signs ∙ even) in
      let fits : k_of g ≤ length word =
        omega (arith, k_of-le-n_of g (make_graph-IsGraph q g made)) in
      let front_bits : take (k_of g) word ≡ info ++ replicate (k_of g - length info) 0 =
        take_systematic (k_of g) info word fits (rw (← same) short) front
          (λ i low high. filler i low (rw same high)) in
      (g, made, llr, soft, decoded ∙ ap ok (ap (take (k_of g)) signs ∙ front_bits))
