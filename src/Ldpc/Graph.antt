-- ===== src/Ldpc/Graph.antt =====
-- Of src/ldpc.cpp the graph of a code: `make_graph`, its sizes, and its lifted edges.
pub mod Bounds
mod Permutation
mod Examples
use gunnchos_gpu_nr_baseband.Base.{
  ℕ, zero, suc, ◌+◌, ◌-◌, ◌*◌, ◌%◌, Bool, true, false, ◌&&◌, List, [], ◌∷◌, ◌++◌, Option, none,
  some, if◌then◌else◌, ltb, leb, get_or, tabulate, String, Result, ok, throw, ◌>>=◌, ◌>>◌, require,
}
use gunnchos_gpu_nr_baseband.Base.Int.{ℤ, pos, negsuc}
use gunnchos_gpu_nr_baseband.Ldpc.{
  BaseGraph, bg1, bg2, LdpcParams, LiftingChoice, i_ls_for_zc, select_lifting, default_kb,
}
use gunnchos_gpu_nr_baseband.Ldpc.Tables.{
  BgEdge, bg1_edges, bg2_edges, bg1_mb, bg1_nb, bg2_mb, bg2_nb,
}

pub record Graph : Type 0 where
  pub mb : ℕ
  pub nb : ℕ
  pub kb : ℕ
  pub zc : ℕ
  pub i_ls : ℕ
  pub filler : ℕ
  pub edges : List BgEdge
  pub provenance : String

pub record LdpcGraphInfo : Type 0 where
  pub mb : ℕ
  pub nb : ℕ
  pub kb : ℕ
  pub zc : ℕ
  pub i_ls : ℕ
  pub n_ldpc : ℕ
  pub k_ldpc : ℕ
  pub filler_bits : ℕ
  pub provenance : String

-- A parameter that counts only when it is positive.
abbrev pub given : ℤ → Option ℕ
given (pos zero) = none
given (pos (suc n)) = some (suc n)
given (negsuc n) = none

abbrev pub given_or : ℕ → Option ℕ → ℕ
given_or default none = default
given_or default (some n) = n

-- `(p.i_ls >= 0) ? p.i_ls : derived`
abbrev pub row_or : ℕ → ℤ → ℕ
row_or derived (pos n) = n
row_or derived (negsuc n) = derived

abbrev pub edges_of : BaseGraph → List BgEdge
edges_of bg1 = bg1_edges
edges_of bg2 = bg2_edges

abbrev default_mb : BaseGraph → ℕ
default_mb bg1 = bg1_mb
default_mb bg2 = bg2_mb

abbrev default_nb : BaseGraph → ℕ
default_nb bg1 = bg1_nb
default_nb bg2 = bg2_nb

abbrev provenance_of : BaseGraph → String
provenance_of bg1 = "NR BG1 TS 38.212 via Sionna Apache-2.0 CSV tables"
provenance_of bg2 = "NR BG2 TS 38.212 via Sionna Apache-2.0 CSV tables"

-- The graph before its lifting size is known.
abbrev pub base_graph : LdpcParams → Graph
base_graph p = record {
  mb = default_mb p.bg;
  nb = default_nb p.bg;
  kb = given_or (default_kb p.bg) (given p.kb);
  zc = 0;
  i_ls = 0;
  filler = 0;
  edges = edges_of p.bg;
  provenance = provenance_of p.bg;
}

abbrev pub table_row : Option ℕ → Result ℕ
table_row none = throw "Zc not in TS 38.212 Table 5.3.2-1"
table_row (some i) = ok i

-- The number of bits that a selection needs.
abbrev pub needed_bits : Option ℕ → Result ℕ
needed_bits none = throw "zc==0 requires info_bits for lifting selection"
needed_bits (some n) = ok n

-- The lifting size and the set that it is in.
abbrev pub lift_of : LdpcParams → Option ℕ → Result (ℕ × ℕ)
lift_of p (some z) = do derived ← table_row (i_ls_for_zc (pos z)); ok (z, row_or derived p.i_ls)
lift_of p none = do
  n ← needed_bits (given p.info_bits)
  lift ← select_lifting n p.bg
  ok (lift.zc, row_or lift.i_ls p.i_ls)

-- `kept`
abbrev pub kept : ℕ → ℕ → List BgEdge → List BgEdge
kept mb nb [] = []
kept mb nb (e ∷ edges) =
    let rest = kept mb nb edges in if ltb e.row mb && ltb e.col nb then e ∷ rest else rest

-- The part of the graph for `mb_use` rows.
abbrev pub truncated : Option ℕ → Graph → Result Graph
truncated none g = ok g
truncated (some m) g = do
  require (leb m g.mb) "mb_use exceeds base graph"
  ok (record g { mb = m; nb = g.kb + m; edges = kept m (g.kb + m) g.edges })

abbrev pub filled : Option ℕ → Graph → Result Graph
filled none g = ok g
filled (some n) g = do
  require (leb n (g.kb * g.zc)) "info_bits exceeds kb*Zc"
  ok (record g { filler = g.kb * g.zc - n })

-- The tests behind the choice of a lifting size, and the rest.
unfoldable pub finish_graph : LdpcParams → Graph → Result Graph
finish_graph p g = do
  require (leb g.i_ls 7) "i_ls out of range"
  require (ltb 0 g.kb && ltb g.kb g.nb) "invalid kb"
  t ← truncated (given p.mb_use) g
  filled (given p.info_bits) t

unfoldable pub make_graph : LdpcParams → Result Graph
make_graph p = do
  lift ← lift_of p (given p.zc)
  finish_graph p (record (base_graph p) { zc = lift.0; i_ls = lift.1 })

abbrev pub n_of : Graph → ℕ
n_of g = g.nb * g.zc

abbrev pub k_of : Graph → ℕ
k_of g = g.kb * g.zc

abbrev pub m_of : Graph → ℕ
m_of g = g.mb * g.zc

unfoldable pub ldpc_graph_info : LdpcParams → Result LdpcGraphInfo
ldpc_graph_info p = do
  g ← make_graph p
  ok (record {
    mb = g.mb;
    nb = g.nb;
    kb = g.kb;
    zc = g.zc;
    i_ls = g.i_ls;
    n_ldpc = n_of g;
    k_ldpc = k_of g;
    filler_bits = g.filler;
    provenance = g.provenance;
  })

-- The shifts of the tables are not negative, so that `mod_shift` is a remainder.
abbrev pub mod_shift : ℕ → ℕ → ℕ
mod_shift v zc = v % zc

abbrev pub lifted_var : ℕ → ℕ → ℕ → ℕ → ℕ
lifted_var col_block shift row_within zc = col_block * zc + (row_within + shift) % zc

pub record SparseEdge : Type 0 where
  pub check : ℕ
  pub var : ℕ

-- The edges of one entry of the base matrix.
abbrev pub expand_edge : Graph → BgEdge → List SparseEdge
expand_edge g e =
    let sh = mod_shift (get_or e.shift g.i_ls 0) g.zc in
    tabulate g.zc (λ z. record { check = e.row * g.zc + z; var = lifted_var e.col sh z g.zc })

abbrev pub expand_from : Graph → List BgEdge → List SparseEdge
expand_from g [] = []
expand_from g (e ∷ edges) = expand_edge g e ++ expand_from g edges

unfoldable pub expand_edges : Graph → List SparseEdge
expand_edges g = expand_from g g.edges
