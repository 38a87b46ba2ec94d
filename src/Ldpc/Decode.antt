-- ===== src/Ldpc/Decode.antt =====
-- Of src/ldpc.cpp the decoder: `decode_minsum` and `ldpc_decode`. The iterations are in MinSum.
mod Matrix
mod RoundTrip
mod Examples
use gunnchos_gpu_nr_baseband.Base.{
  Bool, true, List, if◌then◌else◌, ◌==◌, length, ℕ, Result, ok, throw, ◌>>=◌, ◌>>◌, require,
}
use gunnchos_gpu_nr_baseband.Base.Int.{ℤ, pos}
use gunnchos_gpu_nr_baseband.Base.Double.{Double}
use gunnchos_gpu_nr_baseband.Base.Signed.{Signed, ltb_int}
use gunnchos_gpu_nr_baseband.MinSum.{minsum}
use gunnchos_gpu_nr_baseband.Ldpc.{LdpcParams, eq_int}
use gunnchos_gpu_nr_baseband.Ldpc.Graph.{Graph, make_graph, expand_edges, n_of, k_of, m_of}

module _ {ℓ} {W : Type ℓ} ⦃d : Double W⦄ ⦃s : Signed W⦄ where
  unfoldable pub decode_minsum : List W → Graph → ℤ → Result (List ℕ)
  decode_minsum llr g max_iter = do
    require (length llr == n_of g) "LLR length must equal nb*zc"
    ok (minsum (n_of g) (k_of g) (m_of g) (expand_edges g) llr max_iter)

  unfoldable pub ldpc_decode : List W → LdpcParams → Result (List ℕ)
  ldpc_decode llr p = do
    require (if eq_int p.zc (pos 0) then ltb_int (pos 0) p.info_bits else true)
        "decode with zc==0 needs info_bits"
    g ← make_graph p
    decode_minsum llr g p.max_iter
