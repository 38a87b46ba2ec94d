-- ===== src/Ldpc/Decode/Examples.antt =====
-- The decoder at the short code, with soft values in thousandths.
use gunnchos_gpu_nr_baseband.Base.{
  All-replicate, ◌<◌, inr, ℕ, zero, suc, ◌-◌, ◌≡◌, refl, arith, true, List, [], ◌∷◌, ◌++◌, set,
  replicate, ok,
}
use gunnchos_gpu_nr_baseband.Base.Int.{ℤ, pos, negsuc}
use gunnchos_gpu_nr_baseband.Base.Signed.{milli_int, milli_signed, leb_int, ◌+ℤ◌}
use gunnchos_gpu_nr_baseband.Llr.{llr_to_bits, bits_to_llr}
use gunnchos_gpu_nr_baseband.Ldpc.{LdpcParams, i_ls_for_zc}
use gunnchos_gpu_nr_baseband.Ldpc.Tables.{bg2_edges, bg2_rows_0_5, bg2_rows_6_19, bg2_rows_20_41}
use gunnchos_gpu_nr_baseband.Ldpc.Graph.{Graph, make_graph, finish_graph, kept, expand_edges, k_of}
use gunnchos_gpu_nr_baseband.Ldpc.Encode.{build_h, ldpc_syndrome_ok}
use gunnchos_gpu_nr_baseband.Ldpc.Encode.Examples.{params, info, word, word_run}
use gunnchos_gpu_nr_baseband.Ldpc.Decode.{decode_minsum, ldpc_decode}
use gunnchos_gpu_nr_baseband.Ldpc.Decode.Matrix.{checks_even_agrees}
use gunnchos_gpu_nr_baseband.MinSum.{tables_of, checks_even}
use gunnchos_gpu_nr_baseband.Parity.{rows_even}
use gunnchos_gpu_nr_baseband.Ldpc.Decode.RoundTrip.{ldpc_round_trip}

adds_zero : (x : ℤ) → leb_int (pos 0) (x +ℤ pos 0) ≡ leb_int (pos 0) x
adds_zero (pos a) = ground arith
adds_zero (negsuc a) = ground arith

abbrev soft_bit : ℕ → ℤ
soft_bit zero = pos 4000
soft_bit (suc b) = negsuc 3999

abbrev soft : List ℕ → List ℤ
soft [] = []
soft (b ∷ bits) = soft_bit b ∷ soft bits

abbrev sized : LdpcParams
sized = record params { info_bits = pos 17 }

clean_fine : ldpc_syndrome_ok (llr_to_bits (soft word)) sized ≡ ok true
unfolding ldpc_syndrome_ok llr_to_bits build_h make_graph finish_graph i_ls_for_zc bg2_edges
    bg2_rows_0_5 bg2_rows_6_19 bg2_rows_20_41
clean_fine = refl

ldpc_round_trip_example :
    (g : Graph) × (make_graph sized ≡ ok g)
    × (llr : List ℤ) × (bits_to_llr word (pos 4000) ≡ ok llr)
    × (ldpc_decode llr sized ≡ ok (info ++ replicate (k_of g - 17) 0))
ldpc_round_trip_example =
    ldpc_round_trip adds_zero (pos 4000) refl refl info word params (inr (4, refl)) word_run

-- One soft value with the wrong sign and a small magnitude is corrected.
one_wrong : ldpc_decode (set (soft word) 3 (pos 1000)) sized ≡ ok (info ++ (0 ∷ 0 ∷ 0 ∷ []))
unfolding ldpc_decode decode_minsum expand_edges make_graph finish_graph i_ls_for_zc bg2_edges
    bg2_rows_0_5 bg2_rows_6_19 bg2_rows_20_41
one_wrong = refl

abbrev graph : Graph
graph = record {
  mb = 4;
  nb = 14;
  kb = 10;
  zc = 2;
  i_ls = 0;
  filler = 3;
  edges = kept 4 14 bg2_edges;
  provenance = "NR BG2 TS 38.212 via Sionna Apache-2.0 CSV tables";
}

graph_run : make_graph sized ≡ ok graph
unfolding make_graph finish_graph i_ls_for_zc bg2_edges bg2_rows_0_5 bg2_rows_6_19 bg2_rows_20_41
graph_run = refl

abbrev ones : List ℕ
ones = replicate 28 1

checks_even_agrees_example :
    checks_even (tables_of 28 8 (expand_edges graph)) ones 8 0
    ≡ rows_even 28 (build_h graph) ones 8 0
checks_even_agrees_example =
    checks_even_agrees sized graph ones graph_run refl
      (All-replicate (λ b. b < 2) 28 1 (omega arith))
