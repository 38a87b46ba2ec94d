-- ===== src/Educational/Compact/Examples.antt =====
-- The compact code at its smallest size.
use gunnchos_gpu_nr_baseband.Base.{ℕ, ◌≡◌, refl, arith, true, List, [], ◌∷◌, set, ok}
use gunnchos_gpu_nr_baseband.Base.Int.{ℤ, pos, negsuc}
use gunnchos_gpu_nr_baseband.Base.Signed.{milli_int, milli_signed, leb_int, ◌+ℤ◌}
use gunnchos_gpu_nr_baseband.Llr.{bits_to_llr}
use gunnchos_gpu_nr_baseband.Educational.Compact.{
  bg2, CompactQcLdpcParams, make_graph, build_h, encode_ge, expand_edges, decode_minsum,
  compact_qc_ldpc_encode, compact_qc_ldpc_decode, compact_qc_ldpc_syndrome_ok,
}
use gunnchos_gpu_nr_baseband.Educational.Compact.RoundTrip.{compact_round_trip}

abbrev params : CompactQcLdpcParams
params = record { bg = bg2; zc = pos 2; max_iter = pos 25; info_cols = negsuc 0 }

abbrev info : List ℕ
info = 1 ∷ 0 ∷ 1 ∷ 1 ∷ 0 ∷ 1 ∷ 0 ∷ 0 ∷ []

abbrev word : List ℕ
word = 1 ∷ 0 ∷ 1 ∷ 1 ∷ 0 ∷ 1 ∷ 0 ∷ 0 ∷ 0 ∷ 0 ∷ 1 ∷ 0 ∷ 0 ∷ 1 ∷ 0 ∷ 0 ∷ []

word_run : compact_qc_ldpc_encode info params ≡ ok word
unfolding compact_qc_ldpc_encode make_graph encode_ge build_h
word_run = refl

adds_zero : (x : ℤ) → leb_int (pos 0) (x +ℤ pos 0) ≡ leb_int (pos 0) x
adds_zero (pos a) = ground arith
adds_zero (negsuc a) = ground arith

compact_round_trip_example :
    (compact_qc_ldpc_syndrome_ok word params ≡ ok true)
    × ((llr : List ℤ) × (bits_to_llr word (pos 4000) ≡ ok llr)
        × (compact_qc_ldpc_decode llr params ≡ ok info))
compact_round_trip_example =
    compact_round_trip adds_zero (pos 4000) refl refl info word params word_run

abbrev soft : List ℤ
soft =
    negsuc 3999
    ∷ pos 4000
    ∷ negsuc 3999
    ∷ negsuc 3999
    ∷ pos 4000
    ∷ negsuc 3999
    ∷ pos 4000
    ∷ pos 4000
    ∷ pos 4000
    ∷ pos 4000
    ∷ negsuc 3999
    ∷ pos 4000
    ∷ pos 4000
    ∷ negsuc 3999
    ∷ pos 4000
    ∷ pos 4000
    ∷ []

-- A soft value with the wrong sign and a small magnitude is corrected.
one_wrong : compact_qc_ldpc_decode (set soft 0 (pos 500)) params ≡ ok info
unfolding compact_qc_ldpc_decode make_graph decode_minsum expand_edges
one_wrong = refl
