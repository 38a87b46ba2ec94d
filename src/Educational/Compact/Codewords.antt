-- ===== src/Educational/Compact/Codewords.antt =====
-- The graphs of the compact code, and the matrix of its lifted edges.
use native.Mathlib.Nat.{mod-lt, mul-le-mul_right, add-mul}
use gunnchos_gpu_nr_baseband.Base.{
  ℕ, zero, suc, ◌+◌, ◌-◌, ◌*◌, ◌≤◌, ◌<◌, ◌≡◌, refl, sym, ap, ◌∙◌, arith, Bool, true, ◌&&◌, ◌||◌,
  ◌==◌, ltb, List, [], ◌∷◌, replicate, tabulate_from, All, All-append, All-tabulate_from_below, ok,
  require-eq-ok, >>=-eq-ok,
}
use gunnchos_gpu_nr_baseband.Base.Int.{ℤ, pos, negsuc}
use gunnchos_gpu_nr_baseband.MinSum.Rows.{toggle_all, toggle_all-append, matrix_of, JoinsIn}
use gunnchos_gpu_nr_baseband.Ldpc.Graph.{SparseEdge, lifted_var}
use gunnchos_gpu_nr_baseband.Educational.Compact.{
  Edge, bg1_edges, bg2_edges, Graph, CompactBaseGraph, bg1, bg2, CompactQcLdpcParams, size_of,
  scaffold, make_graph, n_of, k_of, m_of, toggle_edge, toggle_edges, build_h, expand_edge,
  expand_from, expand_edges,
}

-- The lifted edge of round `z`.
abbrev lifted : Graph → Edge → ℕ → SparseEdge
lifted g e z = record { check = e.row * g.zc + z; var = lifted_var e.col e.shift z g.zc }

toggle_edge-lifted :
    (g : Graph) (e : Edge) (left z : ℕ) (h : List ℕ)
    → toggle_edge g e left z h ≡ toggle_all (n_of g) (tabulate_from z left (lifted g e)) h
toggle_edge-lifted g e zero z h = refl
toggle_edge-lifted g e (suc left) z h = toggle_edge-lifted g e left (suc z) _

toggle_edges-expand_from :
    (g : Graph) (edges : List Edge) (h : List ℕ)
    → toggle_edges g edges h ≡ toggle_all (n_of g) (expand_from g edges) h
toggle_edges-expand_from g [] h = refl
toggle_edges-expand_from g (e ∷ edges) h =
    toggle_edges-expand_from g edges (toggle_edge g e g.zc 0 h)
    ∙ ap (toggle_all (n_of g) (expand_from g edges)) (toggle_edge-lifted g e g.zc 0 h)
    ∙ sym (toggle_all-append (n_of g) (expand_edge g e) (expand_from g edges) h)

pub build_h-matrix_of : (g : Graph) → build_h g ≡ matrix_of (m_of g) (n_of g) (expand_edges g)
unfolding build_h expand_edges
build_h-matrix_of g = toggle_edges-expand_from g g.edges (replicate (m_of g * n_of g) 0)

-- The edges of a base matrix within its rows and columns.
abbrev within : ℕ → ℕ → List Edge → Bool
within mb nb [] = true
within mb nb (e ∷ edges) = (ltb e.row mb && ltb e.col nb) && within mb nb edges

abbrev IsInside : ℕ → ℕ → Edge → Type 0
IsInside mb nb e = (e.row < mb) × (e.col < nb)

within-IsInside :
    (mb nb : ℕ) (edges : List Edge) → within mb nb edges ≡ true → All (IsInside mb nb) edges
within-IsInside mb nb [] h = tt
within-IsInside mb nb (e ∷ edges) h = ground (arith, within-IsInside mb nb edges)

scaffold-IsInside :
    (bg : CompactBaseGraph) (zc : ℕ) (cols : ℤ)
    → All (IsInside (scaffold bg zc cols).mb (scaffold bg zc cols).nb) (scaffold bg zc cols).edges
scaffold-IsInside bg1 zc cols = within-IsInside 4 10 bg1_edges refl
scaffold-IsInside bg2 zc cols = within-IsInside 4 8 bg2_edges refl

scaffold-zc : (bg : CompactBaseGraph) (zc : ℕ) (cols : ℤ) → (scaffold bg zc cols).zc ≡ zc
scaffold-zc bg1 zc cols = refl
scaffold-zc bg2 zc cols = refl

size_of-pos : (zc : ℤ) (z : ℕ) → size_of zc ≡ ok z → 0 < z
size_of-pos (pos k) z e =
    let (test, made) =
      require-eq-ok (k == 2 || k == 4 || k == 8) "compact Zc must be 2,4, or 8" _ e in
    let same : k ≡ z = cc in rw (← same) (ground arith)
size_of-pos (negsuc k) z e = cc

block_place :
    (block blocks z place : ℕ) → block < blocks → place < z → block * z + place < blocks * z
block_place block blocks z place h p =
    let whole : suc block * z ≤ blocks * z = mul-le-mul_right z h in omega (arith, whole)

expand_from-JoinsIn :
    (g : Graph) (edges : List Edge)
    → 0 < g.zc
    → All (IsInside g.mb g.nb) edges
    → All (JoinsIn (m_of g) (n_of g)) (expand_from g edges)
expand_from-JoinsIn g [] positive h = tt
expand_from-JoinsIn g (e ∷ edges) positive h =
    All-append (JoinsIn (m_of g) (n_of g)) (expand_edge g e) (expand_from g edges)
      (All-tabulate_from_below (JoinsIn (m_of g) (n_of g)) 0 g.zc _ (λ z _ q. (
        block_place e.row g.mb g.zc z h.0.0 (omega arith),
        block_place e.col g.nb g.zc _ h.0.1 (mod-lt _ positive),
      )))
      (expand_from-JoinsIn g edges positive h.1)

-- What `make_graph` tests, and what its tables hold.
pub record IsGraph (g : Graph) : Type 0 where
  pub square : n_of g ≡ k_of g + m_of g
  pub inside : All (JoinsIn (m_of g) (n_of g)) (expand_edges g)

columns_square :
    (kb nb mb : ℕ) → (ltb 0 kb && ltb kb nb) ≡ true → (nb - kb == mb) ≡ true → nb ≡ kb + mb
columns_square kb nb mb h e = ground arith

pub make_graph-IsGraph : (p : CompactQcLdpcParams) (g : Graph) → make_graph p ≡ ok g → IsGraph g
unfolding make_graph expand_edges
make_graph-IsGraph p g e =
    let (zc, sized, e1) = >>=-eq-ok (size_of p.zc) _ e in
    let made : Graph = scaffold p.bg zc p.info_cols in
    let (cols, e2) = require-eq-ok (ltb 0 made.kb && ltb made.kb made.nb) "invalid kb" _ e1 in
    let (fills, e3) =
      require-eq-ok (made.nb - made.kb == made.mb) "scaffold requires nb-kb == mb" _ e2 in
    let same : made ≡ g = cc in
    let blocks : made.nb ≡ made.kb + made.mb = columns_square made.kb made.nb made.mb cols fills in
    let size : made.zc ≡ zc = scaffold-zc p.bg zc p.info_cols in
    let positive : 0 < made.zc = omega (arith, size_of-pos p.zc zc sized) in
    rw (← same) record {
      square = ap (λ (t : ℕ). t * made.zc) blocks ∙ add-mul made.kb made.mb made.zc;
      inside = expand_from-JoinsIn made made.edges positive (scaffold-IsInside p.bg zc p.info_cols);
    }
