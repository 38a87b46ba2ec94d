-- ===== src/Ldpc/Decode/Matrix.antt =====
-- The matrix that `build_H` makes has the lifted edges as its ones, so that the two tests of a word agree.
use gunnchos_gpu_nr_baseband.Base.{
  ℕ, zero, suc, ◌+◌, ◌*◌, ◌≡◌, refl, sym, ap, ◌∙◌, List, [], ◌∷◌, length, get_or, tabulate_from,
  All, replicate, ok,
}
use gunnchos_gpu_nr_baseband.Parity.{rows_even}
use gunnchos_gpu_nr_baseband.Parity.Rows.{IsBit}
use gunnchos_gpu_nr_baseband.Ldpc.{LdpcParams}
use gunnchos_gpu_nr_baseband.Ldpc.Tables.{BgEdge}
use gunnchos_gpu_nr_baseband.Ldpc.Graph.{
  Graph, SparseEdge, make_graph, n_of, m_of, mod_shift, lifted_var, expand_edge, expand_from,
  expand_edges,
}
use gunnchos_gpu_nr_baseband.Ldpc.Graph.Bounds.{expand_edges_bounds}
use gunnchos_gpu_nr_baseband.Ldpc.Encode.{toggle_edge, toggle_edges, build_h}
use gunnchos_gpu_nr_baseband.MinSum.{tables_of, checks_even}
use gunnchos_gpu_nr_baseband.MinSum.Rows.{toggle_all, toggle_all-append, matrix_of, tests_agree}

-- The lifted edge of round `z`.
abbrev lifted : Graph → BgEdge → ℕ → SparseEdge
lifted g e z = record {
  check = e.row * g.zc + z;
  var = lifted_var e.col (mod_shift (get_or e.shift g.i_ls 0) g.zc) z g.zc;
}

toggle_edge-lifted :
    (g : Graph) (e : BgEdge) (left z : ℕ) (h : List ℕ)
    → toggle_edge g e left z h ≡ toggle_all (n_of g) (tabulate_from z left (lifted g e)) h
toggle_edge-lifted g e zero z h = refl
toggle_edge-lifted g e (suc left) z h = toggle_edge-lifted g e left (suc z) _

toggle_edges-expand_from :
    (g : Graph) (edges : List BgEdge) (h : List ℕ)
    → toggle_edges g edges h ≡ toggle_all (n_of g) (expand_from g edges) h
toggle_edges-expand_from g [] h = refl
toggle_edges-expand_from g (e ∷ edges) h =
    toggle_edges-expand_from g edges (toggle_edge g e g.zc 0 h)
    ∙ ap (toggle_all (n_of g) (expand_from g edges)) (toggle_edge-lifted g e g.zc 0 h)
    ∙ sym (toggle_all-append (n_of g) (expand_edge g e) (expand_from g edges) h)

pub build_h-matrix_of : (g : Graph) → build_h g ≡ matrix_of (m_of g) (n_of g) (expand_edges g)
unfolding build_h expand_edges
build_h-matrix_of g = toggle_edges-expand_from g g.edges (replicate (m_of g * n_of g) 0)

-- The decoder's test of a word, over the edges of each check, and the test of ldpc_syndrome_ok, over the
-- rows of the dense matrix, agree on every word of bits as long as the code of a graph that make_graph
-- returns.
pub checks_even_agrees :
    (p : LdpcParams) (g : Graph) (word : List ℕ)
    → make_graph p ≡ ok g
    → length word ≡ n_of g
    → All IsBit word
    → checks_even (tables_of (n_of g) (m_of g) (expand_edges g)) word (m_of g) 0
      ≡ rows_even (n_of g) (build_h g) word (m_of g) 0
checks_even_agrees p g word made size bits =
    tests_agree (m_of g) (n_of g) (expand_edges g) word (expand_edges_bounds p g made) size bits
    ∙ ap (λ (h : List ℕ). rows_even (n_of g) h word (m_of g) 0) (sym (build_h-matrix_of g))
