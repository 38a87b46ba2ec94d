-- ===== src/Educational/Compact.antt =====
-- educational/nr_style_compact_ldpc/src/compact_qc_ldpc.cpp: the encoder, the decoder and the test of a
-- code with a small base graph. What it shares with src/ldpc.cpp stands in Parity and MinSum.
mod Codewords
mod RoundTrip
mod Examples
use gunnchos_gpu_nr_baseband.Base.{
  ℕ, zero, suc, ◌+◌, ◌-◌, ◌*◌, Bool, true, false, ◌&&◌, ◌||◌, List, [], ◌∷◌, ◌++◌, ◌==◌, ltb,
  length, replicate, tabulate, String, Result, ok, throw, ◌>>=◌, ◌>>◌, require,
}
use gunnchos_gpu_nr_baseband.Base.Int.{ℤ, pos, negsuc}
use gunnchos_gpu_nr_baseband.Base.Double.{Double}
use gunnchos_gpu_nr_baseband.Base.Signed.{Signed}
use gunnchos_gpu_nr_baseband.Parity.{xor_at, parity_encode, rows_even}
use gunnchos_gpu_nr_baseband.MinSum.{minsum}
use gunnchos_gpu_nr_baseband.Ldpc.Graph.{SparseEdge, lifted_var, given, given_or}
use gunnchos_gpu_nr_baseband.Ldpc.Encode.{check_bits}

pub record Edge : Type 0 where
  pub row : ℕ
  pub col : ℕ
  pub shift : ℕ

abbrev entry : ℕ → ℕ → ℕ → Edge
entry r c s = record { row = r; col = c; shift = s }

abbrev pub bg1_edges : List Edge
bg1_edges =
    entry 0 0 0
    ∷ entry 0 1 1
    ∷ entry 0 2 0
    ∷ entry 0 6 0
    ∷ entry 1 0 1
    ∷ entry 1 3 0
    ∷ entry 1 4 1
    ∷ entry 1 7 0
    ∷ entry 2 1 0
    ∷ entry 2 2 1
    ∷ entry 2 5 0
    ∷ entry 2 8 0
    ∷ entry 3 0 0
    ∷ entry 3 3 1
    ∷ entry 3 5 1
    ∷ entry 3 9 0
    ∷ []

abbrev pub bg2_edges : List Edge
bg2_edges =
    entry 0 0 0
    ∷ entry 0 1 1
    ∷ entry 0 2 0
    ∷ entry 0 4 0
    ∷ entry 1 0 1
    ∷ entry 1 1 0
    ∷ entry 1 3 1
    ∷ entry 1 5 0
    ∷ entry 2 1 0
    ∷ entry 2 2 1
    ∷ entry 2 3 0
    ∷ entry 2 6 0
    ∷ entry 3 0 0
    ∷ entry 3 2 1
    ∷ entry 3 3 1
    ∷ entry 3 7 0
    ∷ []

pub record Graph : Type 0 where
  pub mb : ℕ
  pub nb : ℕ
  pub kb : ℕ
  pub zc : ℕ
  pub edges : List Edge
  pub provenance : String

pub data CompactBaseGraph : Type 0 where
  bg1 bg2 : CompactBaseGraph

pub record CompactQcLdpcParams : Type 0 where
  pub bg : CompactBaseGraph
  pub zc : ℤ
  pub max_iter : ℤ
  pub info_cols : ℤ

pub record CompactQcLdpcGraphInfo : Type 0 where
  pub mb : ℕ
  pub nb : ℕ
  pub kb : ℕ
  pub zc : ℕ
  pub provenance : String

-- The test of the lifting size.
abbrev pub size_of : ℤ → Result ℕ
size_of (pos z) = do require (z == 2 || z == 4 || z == 8) "compact Zc must be 2,4, or 8"; ok z
size_of (negsuc n) = throw "compact Zc must be 2,4, or 8"

-- The branches for the two base graphs.
abbrev pub scaffold : CompactBaseGraph → ℕ → ℤ → Graph
scaffold bg1 zc info_cols = record {
  mb = 4;
  nb = 10;
  kb = given_or 6 (given info_cols);
  zc = zc;
  edges = bg1_edges;
  provenance = "EDUCATIONAL_ONLY CompactQcLdpc BG1-style scaffold";
}
scaffold bg2 zc info_cols = record {
  mb = 4;
  nb = 8;
  kb = given_or 4 (given info_cols);
  zc = zc;
  edges = bg2_edges;
  provenance = "EDUCATIONAL_ONLY CompactQcLdpc BG2-style scaffold";
}

unfoldable pub make_graph : CompactQcLdpcParams → Result Graph
make_graph p = do
  zc ← size_of p.zc
  let g = scaffold p.bg zc p.info_cols
  require (ltb 0 g.kb && ltb g.kb g.nb) "invalid kb"
  require (g.nb - g.kb == g.mb) "scaffold requires nb-kb == mb"
  ok g

abbrev pub n_of : Graph → ℕ
n_of g = g.nb * g.zc

abbrev pub k_of : Graph → ℕ
k_of g = g.kb * g.zc

abbrev pub m_of : Graph → ℕ
m_of g = g.mb * g.zc

-- The loop over `z`, with `left` rounds to go.
abbrev pub toggle_edge : Graph → Edge → ℕ → ℕ → List ℕ → List ℕ
toggle_edge g e zero z h = h
toggle_edge g e (suc left) z h =
    toggle_edge g e left (suc z)
      (xor_at h ((e.row * g.zc + z) * n_of g + lifted_var e.col e.shift z g.zc) 1)

abbrev pub toggle_edges : Graph → List Edge → List ℕ → List ℕ
toggle_edges g [] h = h
toggle_edges g (e ∷ edges) h = toggle_edges g edges (toggle_edge g e g.zc 0 h)

unfoldable pub build_h : Graph → List ℕ
build_h g = toggle_edges g g.edges (replicate (m_of g * n_of g) 0)

unfoldable pub encode_ge : List ℕ → Graph → Result (List ℕ)
unfolding parity_encode
encode_ge info g = do
  require (length info == k_of g) "info length must equal kb*zc"
  parity_encode "parity submatrix singular" (n_of g) (k_of g) (m_of g) (build_h g) info

-- The edges of one entry of the base matrix.
abbrev pub expand_edge : Graph → Edge → List SparseEdge
expand_edge g e =
    tabulate g.zc (λ z. record { check = e.row * g.zc + z; var = lifted_var e.col e.shift z g.zc })

abbrev pub expand_from : Graph → List Edge → List SparseEdge
expand_from g [] = []
expand_from g (e ∷ edges) = expand_edge g e ++ expand_from g edges

unfoldable pub expand_edges : Graph → List SparseEdge
expand_edges g = expand_from g g.edges

module _ {ℓ} {W : Type ℓ} ⦃d : Double W⦄ ⦃s : Signed W⦄ where
  unfoldable pub decode_minsum : List W → Graph → ℤ → Result (List ℕ)
  decode_minsum llr g max_iter = do
    require (length llr == n_of g) "LLR length must equal nb*zc"
    ok (minsum (n_of g) (k_of g) (m_of g) (expand_edges g) llr max_iter)

  unfoldable pub compact_qc_ldpc_decode : List W → CompactQcLdpcParams → Result (List ℕ)
  compact_qc_ldpc_decode llr p = do g ← make_graph p; decode_minsum llr g p.max_iter

unfoldable pub compact_qc_ldpc_graph_info : CompactQcLdpcParams → Result CompactQcLdpcGraphInfo
compact_qc_ldpc_graph_info p = do
  g ← make_graph p
  ok (record { mb = g.mb; nb = g.nb; kb = g.kb; zc = g.zc; provenance = g.provenance })

unfoldable pub compact_qc_ldpc_encode : List ℕ → CompactQcLdpcParams → Result (List ℕ)
compact_qc_ldpc_encode info p = do check_bits info; g ← make_graph p; encode_ge info g

unfoldable pub compact_qc_ldpc_syndrome_ok : List ℕ → CompactQcLdpcParams → Result Bool
compact_qc_ldpc_syndrome_ok codeword p = do
  g ← make_graph p
  require (length codeword == n_of g) "codeword length"
  ok (rows_even (n_of g) (build_h g) codeword (m_of g) 0)
