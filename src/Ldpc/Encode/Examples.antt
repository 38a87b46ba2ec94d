-- ===== src/Ldpc/Encode/Examples.antt =====
-- The encoder at a short code: four rows of the second base graph, lifted by two.
use gunnchos_gpu_nr_baseband.Base.{inr, ℕ, ◌≡◌, refl, true, List, [], ◌∷◌, ok}
use gunnchos_gpu_nr_baseband.Base.Int.{pos, negsuc}
use gunnchos_gpu_nr_baseband.Ldpc.{bg2, LdpcParams, i_ls_for_zc}
use gunnchos_gpu_nr_baseband.Ldpc.Encode.{ldpc_encode, ldpc_syndrome_ok, encode_ge, build_h}
use gunnchos_gpu_nr_baseband.Ldpc.Encode.Syndrome.{ldpc_encode_syndrome_ok}
use gunnchos_gpu_nr_baseband.Ldpc.Graph.{make_graph, finish_graph}
use gunnchos_gpu_nr_baseband.Ldpc.Tables.{bg2_edges, bg2_rows_0_5, bg2_rows_6_19, bg2_rows_20_41}

abbrev pub params : LdpcParams
params = record {
  bg = bg2;
  zc = pos 2;
  i_ls = negsuc 0;
  max_iter = pos 25;
  info_bits = negsuc 0;
  kb = negsuc 0;
  mb_use = pos 4;
}

abbrev pub info : List ℕ
info = 1 ∷ 0 ∷ 1 ∷ 1 ∷ 0 ∷ 1 ∷ 0 ∷ 0 ∷ 1 ∷ 1 ∷ 1 ∷ 0 ∷ 0 ∷ 1 ∷ 1 ∷ 0 ∷ 1 ∷ []

abbrev pub word : List ℕ
word =
    1 ∷ 0 ∷ 1 ∷ 1 ∷ 0 ∷ 1 ∷ 0 ∷ 0 ∷ 1 ∷ 1 ∷ 1 ∷ 0 ∷ 0 ∷ 1 ∷ 1 ∷ 0 ∷ 1 ∷ 0 ∷ 0 ∷ 0 ∷ 1 ∷ 0 ∷ 1 ∷ 1
    ∷ 0 ∷ 1 ∷ 1 ∷ 1 ∷ []

pub word_run : ldpc_encode info params ≡ ok word
unfolding ldpc_encode encode_ge build_h make_graph finish_graph i_ls_for_zc bg2_edges bg2_rows_0_5
    bg2_rows_6_19 bg2_rows_20_41
word_run = refl

word_fine : ldpc_syndrome_ok word params ≡ ok true
unfolding ldpc_syndrome_ok build_h make_graph finish_graph i_ls_for_zc bg2_edges bg2_rows_0_5
    bg2_rows_6_19 bg2_rows_20_41
word_fine = refl

ldpc_encode_syndrome_ok_example :
    ldpc_syndrome_ok word (record params { info_bits = pos 17 }) ≡ ok true
ldpc_encode_syndrome_ok_example = ldpc_encode_syndrome_ok info word params (inr (4, refl)) word_run
