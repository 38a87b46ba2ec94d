-- ===== src/Ldpc/Tables/Edge.antt =====
-- `BgEdge` of include/nr_bb/ldpc_bg_tables.hpp: a row, a column and its eight shifts, one for each
-- set of lifting sizes.
use gunnchos_gpu_nr_baseband.Base.{ℕ, List}

pub record BgEdge : Type 0 where
  pub row : ℕ
  pub col : ℕ
  pub shift : List ℕ

abbrev pub edge : ℕ → ℕ → List ℕ → BgEdge
edge r c s = record { row = r; col = c; shift = s }
