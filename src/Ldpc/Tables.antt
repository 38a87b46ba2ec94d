-- ===== src/Ldpc/Tables.antt =====
-- include/nr_bb/ldpc_bg_tables.hpp: the edges of the two base graphs, and their sizes.
mod Edge
mod Bg1Rows0
mod Bg1Rows4
mod Bg1Rows12
mod Bg1Rows24
mod Bg1Rows36
mod Bg2Rows0
mod Bg2Rows6
mod Bg2Rows20
pub mod Shape
use gunnchos_gpu_nr_baseband.Base.{ℕ, List, ◌++◌}
pub use Edge.*
use Bg1Rows0.{bg1_rows_0_3}
use Bg1Rows4.{bg1_rows_4_11}
use Bg1Rows12.{bg1_rows_12_23}
use Bg1Rows24.{bg1_rows_24_35}
use Bg1Rows36.{bg1_rows_36_45}
unfoldable pub use Bg2Rows0.{bg2_rows_0_5}
unfoldable pub use Bg2Rows6.{bg2_rows_6_19}
unfoldable pub use Bg2Rows20.{bg2_rows_20_41}

unfoldable pub bg1_edges : List BgEdge
unfolding bg1_rows_0_3 bg1_rows_4_11 bg1_rows_12_23 bg1_rows_24_35 bg1_rows_36_45
bg1_edges =
    bg1_rows_0_3 ++ (bg1_rows_4_11 ++ (bg1_rows_12_23 ++ (bg1_rows_24_35 ++ (bg1_rows_36_45))))

unfoldable pub bg2_edges : List BgEdge
unfolding bg2_rows_0_5 bg2_rows_6_19 bg2_rows_20_41
bg2_edges = bg2_rows_0_5 ++ (bg2_rows_6_19 ++ (bg2_rows_20_41))

abbrev pub bg1_mb : ℕ
bg1_mb = 46

abbrev pub bg1_nb : ℕ
bg1_nb = 68

abbrev pub bg1_kb : ℕ
bg1_kb = 22

abbrev pub bg2_mb : ℕ
bg2_mb = 42

abbrev pub bg2_nb : ℕ
bg2_nb = 52

abbrev pub bg2_kb : ℕ
bg2_kb = 10
