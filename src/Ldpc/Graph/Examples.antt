-- ===== src/Ldpc/Graph/Examples.antt =====
-- The graph of a short code: four rows of the second base graph, lifted by two.
use gunnchos_gpu_nr_baseband.Base.{◌≡◌, refl, [], ◌∷◌, All, ok}
use gunnchos_gpu_nr_baseband.Base.Int.{pos, negsuc}
use gunnchos_gpu_nr_baseband.Ldpc.{bg2, LdpcParams, i_ls_for_zc}
use gunnchos_gpu_nr_baseband.Ldpc.Tables.{BgEdge, edge, bg2_edges}
use gunnchos_gpu_nr_baseband.Ldpc.Graph.{Graph, kept, finish_graph, make_graph, expand_edges}
use gunnchos_gpu_nr_baseband.Ldpc.Graph.Bounds.{IsLifted, expand_edges_bounds}

abbrev params : LdpcParams
params = record {
  bg = bg2;
  zc = pos 2;
  i_ls = negsuc 0;
  max_iter = pos 25;
  info_bits = pos 17;
  kb = negsuc 0;
  mb_use = pos 4;
}

abbrev graph : Graph
graph = record {
  mb = 4;
  nb = 14;
  kb = 10;
  zc = 2;
  i_ls = 0;
  filler = 3;
  edges = kept 4 14 bg2_edges;
  provenance = "NR BG2 TS 38.212 via Sionna Apache-2.0 CSV tables";
}

graph_run : make_graph params ≡ ok graph
unfolding make_graph finish_graph i_ls_for_zc
graph_run = refl

expand_edges_bounds_example : All (IsLifted graph) (expand_edges graph)
expand_edges_bounds_example = expand_edges_bounds params graph graph_run

-- A shift by one, modulo 2.
abbrev entry : BgEdge
entry = edge 1 3 (9 ∷ [])
