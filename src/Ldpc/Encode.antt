-- ===== src/Ldpc/Encode.antt =====
-- Of src/ldpc.cpp the encoder: `build_H`, `encode_ge`, `ldpc_encode`, and the test `ldpc_syndrome_ok`.
-- The elimination is in Parity.
pub mod Systematic
pub mod Syndrome
pub mod Examples
use Prim.Native.String.{◌++◌ as text_append}
use gunnchos_gpu_nr_baseband.Base.{
  String, ℕ, zero, suc, ◌+◌, ◌-◌, ◌*◌, ◌/◌, ◌%◌, bit_xor, Bool, true, false, not, ◌&&◌, ◌||◌, List,
  [], ◌∷◌, ◌++◌, if◌then◌else◌, ◌==◌, ltb, leb, length, get_or, set, replicate, tabulate, Result,
  ok, throw, ◌>>=◌, ◌>>◌, require,
}
use gunnchos_gpu_nr_baseband.Parity.{xor_at, parity_encode, rows_even}
use gunnchos_gpu_nr_baseband.Base.Int.{ℤ, pos, negsuc}
use gunnchos_gpu_nr_baseband.Ldpc.{LdpcParams}
use gunnchos_gpu_nr_baseband.Ldpc.Tables.{BgEdge}
use gunnchos_gpu_nr_baseband.Ldpc.Graph.{
  Graph, make_graph, ldpc_graph_info, n_of, k_of, m_of, mod_shift, lifted_var,
}

-- The loop over `z`, with `left` rounds to go.
abbrev pub toggle_edge : Graph → BgEdge → ℕ → ℕ → List ℕ → List ℕ
toggle_edge g e zero z h = h
toggle_edge g e (suc left) z h =
    let c = lifted_var e.col (mod_shift (get_or e.shift g.i_ls 0) g.zc) z g.zc in
    toggle_edge g e left (suc z) (xor_at h ((e.row * g.zc + z) * n_of g + c) 1)

abbrev pub toggle_edges : Graph → List BgEdge → List ℕ → List ℕ
toggle_edges g [] h = h
toggle_edges g (e ∷ edges) h = toggle_edges g edges (toggle_edge g e g.zc 0 h)

unfoldable pub build_h : Graph → List ℕ
build_h g = toggle_edges g g.edges (replicate (m_of g * n_of g) 0)

unfoldable pub encode_ge : List ℕ → Graph → Result (List ℕ)
unfolding parity_encode
encode_ge info_full g = do
  require (length info_full == k_of g) "info length must equal kb*zc (incl. filler)"
  parity_encode "parity submatrix singular — check Zc/i_ls/BG" (n_of g) (k_of g) (m_of g)
      (build_h g) info_full

abbrev pub check_bits : List ℕ → Result (Unit {0})
check_bits [] = ok tt
check_bits (b ∷ bits) =
    let rest = check_bits bits in require (b == 0 || b == 1) "info bits must be 0/1" >> rest

-- `pp.info_bits`
abbrev pub info_or_size : ℤ → ℕ → ℤ
info_or_size (pos n) size = pos n
info_or_size (negsuc n) size = pos size

unfoldable pub ldpc_encode : List ℕ → LdpcParams → Result (List ℕ)
ldpc_encode info p = do
  check_bits info
  g ← make_graph (record p { info_bits = info_or_size p.info_bits (length info) })
  require (leb (length info) (k_of g)) "info longer than kb*Zc"
  encode_ge (info ++ replicate (k_of g - length info) 0) g

unfoldable pub ldpc_syndrome_ok : List ℕ → LdpcParams → Result Bool
ldpc_syndrome_ok word p = do
  g ← make_graph p
  require (length word == n_of g) "codeword length"
  ok (rows_even (n_of g) (build_h g) word (m_of g) 0)

pub record LdpcReferenceVector : Type 0 where
  pub info : List ℕ
  pub codeword : List ℕ
  pub params : LdpcParams
  pub provenance : String

unfoldable pub ldpc_make_reference : List ℕ → LdpcParams → Result LdpcReferenceVector
unfolding ldpc_encode
ldpc_make_reference info p = do
  codeword ← ldpc_encode info p
  graph ← ldpc_graph_info p
  ok (record {
    info = info;
    codeword = codeword;
    params = p;
    provenance = text_append graph.provenance "; self-generated";
  })
