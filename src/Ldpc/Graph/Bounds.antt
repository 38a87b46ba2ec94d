-- ===== src/Ldpc/Graph/Bounds.antt =====
-- The graphs that `make_graph` returns, and the bounds of their lifted edges.
use native.Mathlib.Nat.{mod-lt, mul-le-mul_right}
use gunnchos_gpu_nr_baseband.Base.{
  ℕ, zero, suc, ◌+◌, ◌-◌, ◌*◌, ◌≤◌, ◌<◌, ◌≡◌, refl, arith, true, ◌&&◌, List, [], ◌∷◌, Option, none,
  some, ltb, leb, leb→le, All, All-append, All-tabulate_from_below, ok, >>=-eq-ok, require-eq-ok,
}
use gunnchos_gpu_nr_baseband.Base.Int.{ℤ, pos, negsuc}
use gunnchos_gpu_nr_baseband.Ldpc.{BaseGraph, bg1, bg2, LdpcParams, i_ls_for_zc, select_lifting}
use gunnchos_gpu_nr_baseband.Ldpc.Lifting.{select_lifting_least}
use gunnchos_gpu_nr_baseband.Ldpc.Tables.{BgEdge, bg1_edges, bg2_edges}
use gunnchos_gpu_nr_baseband.Ldpc.Tables.Shape.{InRange, base_graphs_shape}
use gunnchos_gpu_nr_baseband.Ldpc.Graph.{
  Graph, SparseEdge, given, row_or, edges_of, base_graph, table_row, needed_bits, lift_of, kept,
  truncated, filled, finish_graph, make_graph, n_of, m_of, expand_edge, expand_from, expand_edges,
}

abbrev pub IsInside : ℕ → ℕ → BgEdge → Type 0
IsInside mb nb e = (e.row < mb) × (e.col < nb)

-- A lifting size of the table.
abbrev pub IsSize : ℕ → Type 0
IsSize z = (i : ℕ) × (i_ls_for_zc (pos z) ≡ some i)

IsSize-pos : (z : ℕ) → IsSize z → 0 < z
unfolding i_ls_for_zc
IsSize-pos zero (i, e) = cc
IsSize-pos (suc z) s = omega arith

-- A graph that the encoder and the decoder can use.
pub record IsGraph (g : Graph) : Type 0 where
  pub size : IsSize g.zc
  pub set : g.i_ls ≤ 7
  pub columns : (0 < g.kb) × (g.kb < g.nb)
  pub inside : All (IsInside g.mb g.nb) g.edges

kept-IsInside : (mb nb : ℕ) (edges : List BgEdge) → All (IsInside mb nb) (kept mb nb edges)
kept-IsInside mb nb [] = tt
kept-IsInside mb nb (e ∷ edges) = ground (arith, kept-IsInside mb nb edges)

ranges-IsInside :
    (mb nb : ℕ) (edges : List BgEdge) → All (InRange mb nb) edges → All (IsInside mb nb) edges
ranges-IsInside mb nb [] h = tt
ranges-IsInside mb nb (e ∷ edges) h = ((h.0.0, h.0.1), ranges-IsInside mb nb edges h.1)

base_graph-IsInside :
    (p : LdpcParams) → All (IsInside (base_graph p).mb (base_graph p).nb) (base_graph p).edges
base_graph-IsInside p = go p.bg
  where
    go :
        (bg : BaseGraph)
        → All
            (IsInside (base_graph (record p { bg = bg })).mb (base_graph (record p { bg = bg })).nb)
            (edges_of bg)
    go bg1 = ranges-IsInside 46 68 bg1_edges base_graphs_shape.0.ranges
    go bg2 = ranges-IsInside 42 52 bg2_edges base_graphs_shape.1.ranges

given-pos : (x : ℤ) (n : ℕ) → given x ≡ some n → 0 < n
given-pos (pos zero) n e = cc
given-pos (pos (suc k)) n e = ground arith
given-pos (negsuc k) n e = cc

table_row-some : (row : Option ℕ) (i : ℕ) → table_row row ≡ ok i → row ≡ some i
table_row-some none i e = cc
table_row-some (some k) i e = cc

lift_of-IsSize :
    (p : LdpcParams) (zc : Option ℕ) (lift : ℕ × ℕ) → lift_of p zc ≡ ok lift → IsSize lift.0
lift_of-IsSize p (some z) lift e =
    let (derived, found, e1) = >>=-eq-ok (table_row (i_ls_for_zc (pos z))) _ e in
    let same : (z, row_or derived p.i_ls) ≡ lift = cc in
    rw (← same) (derived, table_row-some (i_ls_for_zc (pos z)) derived found)
lift_of-IsSize p none lift e =
    let (n, _, e1) = >>=-eq-ok (needed_bits (given p.info_bits)) _ e in
    let (choice, found, e2) = >>=-eq-ok (select_lifting n p.bg) _ e1 in
    let same : (choice.zc, row_or choice.i_ls p.i_ls) ≡ lift = cc in
    let (_, row, _, _) = select_lifting_least n p.bg choice found in rw (← same) (choice.i_ls, row)

truncated-IsGraph :
    (m : Option ℕ) (g t : Graph)
    → ((n : ℕ) → m ≡ some n → 0 < n)
    → IsGraph g
    → truncated m g ≡ ok t
    → IsGraph t
truncated-IsGraph none g t positive h e = let same : g ≡ t = cc in rw (← same) h
truncated-IsGraph (some m) g t positive h e =
    let (_, made) = require-eq-ok (leb m g.mb) "mb_use exceeds base graph" _ e in
    let same : record g { mb = m; nb = g.kb + m; edges = kept m (g.kb + m) g.edges } ≡ t = cc in
    let some_row : 0 < m = positive m refl in
    rw (← same) record {
      size = h.size;
      set = h.set;
      columns = (h.columns.0, omega arith);
      inside = kept-IsInside m (g.kb + m) g.edges;
    }

filled-IsGraph : (n : Option ℕ) (g t : Graph) → IsGraph g → filled n g ≡ ok t → IsGraph t
filled-IsGraph none g t h e = let same : g ≡ t = cc in rw (← same) h
filled-IsGraph (some n) g t h e =
    let (_, made) = require-eq-ok (leb n (g.kb * g.zc)) "info_bits exceeds kb*Zc" _ e in
    let same : record g { filler = g.kb * g.zc - n } ≡ t = cc in
    rw (← same) record { size = h.size; set = h.set; columns = h.columns; inside = h.inside }

-- What the tests ask of the columns.
columns_tested : (kb nb : ℕ) → (ltb 0 kb && ltb kb nb) ≡ true → (0 < kb) × (kb < nb)
columns_tested kb nb e = ground arith

finish_graph-IsGraph :
    (p : LdpcParams) (g t : Graph)
    → IsSize g.zc
    → All (IsInside g.mb g.nb) g.edges
    → finish_graph p g ≡ ok t
    → IsGraph t
unfolding finish_graph
finish_graph-IsGraph p g t size inside e =
    let (low, e1) = require-eq-ok (leb g.i_ls 7) "i_ls out of range" _ e in
    let (cols, e2) = require-eq-ok (ltb 0 g.kb && ltb g.kb g.nb) "invalid kb" _ e1 in
    let (cut, made, e3) = >>=-eq-ok (truncated (given p.mb_use) g) _ e2 in
    let start : IsGraph g = record {
      size = size;
      set = leb→le g.i_ls 7 low;
      columns = columns_tested g.kb g.nb cols;
      inside = inside;
    } in
    filled-IsGraph (given p.info_bits) cut t
      (truncated-IsGraph (given p.mb_use) g cut (given-pos p.mb_use) start made) e3

-- A graph that `make_graph` returns has a lifting size of the table, a shift set in range, information
-- columns that leave parity columns, and edges inside its rows and columns.
pub make_graph-IsGraph : (p : LdpcParams) (g : Graph) → make_graph p ≡ ok g → IsGraph g
unfolding make_graph
make_graph-IsGraph p g e =
    let (lift, lifted, made) = >>=-eq-ok (lift_of p (given p.zc)) _ e in
    finish_graph-IsGraph p (record (base_graph p) { zc = lift.0; i_ls = lift.1 }) g
      (lift_of-IsSize p (given p.zc) lift lifted) (base_graph-IsInside p) made

-- An edge between a check and a bit of the code.
abbrev pub IsLifted : Graph → SparseEdge → Type 0
IsLifted g e = (e.check < m_of g) × (e.var < n_of g)

-- A place in a block of a number of blocks.
block_place :
    (block blocks z place : ℕ) → block < blocks → place < z → block * z + place < blocks * z
block_place block blocks z place h p =
    let whole : suc block * z ≤ blocks * z = mul-le-mul_right z h in omega (arith, whole)

expand_edge-IsLifted :
    (g : Graph) (e : BgEdge) → 0 < g.zc → IsInside g.mb g.nb e → All (IsLifted g) (expand_edge g e)
expand_edge-IsLifted g e positive h = All-tabulate_from_below (IsLifted g) 0 g.zc _ (λ z _ q. (
  block_place e.row g.mb g.zc z h.0 (omega arith),
  block_place e.col g.nb g.zc _ h.1 (mod-lt _ positive),
))

expand_from-IsLifted :
    (g : Graph) (edges : List BgEdge)
    → 0 < g.zc
    → All (IsInside g.mb g.nb) edges
    → All (IsLifted g) (expand_from g edges)
expand_from-IsLifted g [] positive h = tt
expand_from-IsLifted g (e ∷ edges) positive h =
    All-append (IsLifted g) (expand_edge g e) (expand_from g edges)
      (expand_edge-IsLifted g e positive h.0) (expand_from-IsLifted g edges positive h.1)

-- The lifted edges of a graph that `make_graph` returns join checks below mb * zc to bits below
-- nb * zc: the decoder indexes its arrays in range.
pub expand_edges_bounds :
    (p : LdpcParams) (g : Graph) → make_graph p ≡ ok g → All (IsLifted g) (expand_edges g)
unfolding expand_edges
expand_edges_bounds p g e =
    let good = make_graph-IsGraph p g e in
    expand_from-IsLifted g g.edges (IsSize-pos g.zc good.size) good.inside
