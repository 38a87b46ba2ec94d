-- ===== src/Ldpc/Encode/Systematic.antt =====
-- The information bits in what `ldpc_encode` returns.
use native.Mathlib.Nat.{mul-le-mul_right}
use gunnchos_gpu_nr_baseband.Base.{
  ℕ, ◌-◌, ◌≤◌, ◌<◌, ◌≡◌, refl, ◌∙◌, arith, true, List, ◌++◌, ◌==◌, ltb, lt→ltb, leb, leb→le, length,
  get_or, replicate, length-tabulate_from, get_or-tabulate, get_or-append_left, get_or-append_right,
  get_or-replicate, ok, require-eq-ok, >>-eq-ok, >>=-eq-ok,
}
use gunnchos_gpu_nr_baseband.Parity.{codeword}
use gunnchos_gpu_nr_baseband.Parity.Syndrome.{parity_encode-eq-ok}
use gunnchos_gpu_nr_baseband.Ldpc.{LdpcParams}
use gunnchos_gpu_nr_baseband.Ldpc.Graph.{Graph, make_graph, n_of, k_of, m_of}
use gunnchos_gpu_nr_baseband.Ldpc.Graph.Bounds.{IsGraph, make_graph-IsGraph}
use gunnchos_gpu_nr_baseband.Ldpc.Encode.{build_h, encode_ge, check_bits, info_or_size, ldpc_encode}

-- The block is the first of the bits, at the length of the code.
abbrev pub StartsWith : Graph → List ℕ → List ℕ → Type 0
StartsWith g info word =
    (length word ≡ n_of g) × ((i : ℕ) → i < k_of g → get_or word i 0 ≡ get_or info i 0)

pub k_of-le-n_of : (g : Graph) → IsGraph g → k_of g ≤ n_of g
k_of-le-n_of g v = let fewer : g.kb ≤ g.nb = omega (arith, v.columns) in mul-le-mul_right g.zc fewer

codeword-StartsWith :
    (g : Graph) (info rhs : List ℕ)
    → k_of g ≤ n_of g
    → StartsWith g info (codeword (n_of g) (k_of g) info rhs)
codeword-StartsWith g info rhs fits = (
  length-tabulate_from 0 (n_of g) _,
  λ i h.
      let front : ltb i (k_of g) ≡ true = lt→ltb i (k_of g) h in
      get_or-tabulate (n_of g) _ i 0 (omega arith) ∙ rw front refl,
)

encode_ge-StartsWith :
    (g : Graph) (info word : List ℕ)
    → k_of g ≤ n_of g
    → encode_ge info g ≡ ok word
    → StartsWith g info word
unfolding encode_ge
encode_ge-StartsWith g info word fits e =
    let (_, e1) =
      require-eq-ok (length info == k_of g) "info length must equal kb*zc (incl. filler)" _ e in
    let (s, _, made) = parity_encode-eq-ok _ (n_of g) (k_of g) (m_of g) (build_h g) info word e1 in
    rw made (codeword-StartsWith g info s.rhs fits)

-- The code is systematic: what `ldpc_encode` returns has the length nb * zc of the code of a graph that
-- `make_graph` returns, starts with the information bits, and has zeros in the filler behind them.
pub ldpc_encode_systematic :
    (info word : List ℕ) (p : LdpcParams)
    → ldpc_encode info p ≡ ok word
    → (g : Graph) × (make_graph (record p { info_bits = info_or_size p.info_bits (length info) })
        ≡ ok g)
      × (length word ≡ n_of g)
      × (length info ≤ k_of g)
      × ((i : ℕ) → i < length info → get_or word i 0 ≡ get_or info i 0)
      × ((i : ℕ) → length info ≤ i → i < k_of g → get_or word i 0 ≡ 0)
unfolding ldpc_encode
ldpc_encode_systematic info word p e =
    let (_, e1) = >>-eq-ok (check_bits info) _ e in
    let (g, made, e2) =
      >>=-eq-ok (make_graph (record p { info_bits = info_or_size p.info_bits (length info) })) _
        e1 in
    let (short, e3) = require-eq-ok (leb (length info) (k_of g)) "info longer than kb*Zc" _ e2 in
    let fits : length info ≤ k_of g = leb→le (length info) (k_of g) short in
    let zeros : List ℕ = replicate (k_of g - length info) 0 in
    let good =
      make_graph-IsGraph (record p { info_bits = info_or_size p.info_bits (length info) }) g made in
    let (size, front) = encode_ge-StartsWith g (info ++ zeros) word (k_of-le-n_of g good) e3 in
    (
      g,
      made,
      size,
      fits,
      λ i h. front i (omega arith) ∙ get_or-append_left info zeros i 0 h,
      λ i low high.
          front i high
          ∙ get_or-append_right info zeros (i - length info) i 0 (omega arith)
          ∙ get_or-replicate (k_of g - length info) 0 (i - length info),
    )
