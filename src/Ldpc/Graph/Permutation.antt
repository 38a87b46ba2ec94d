-- ===== src/Ldpc/Graph/Permutation.antt =====
-- The lifted edges of one entry of the base matrix.
use gunnchos_gpu_nr_baseband.Base.{
  ℕ, ◌+◌, ◌*◌, ◌%◌, ◌<◌, ◌≡◌, sym, ap, ◌∙◌, arith, Option, none, some, get_or, get_elem?,
  get_elem?-eq-get_or, get_or-tabulate, length-tabulate_from, length,
}
use gunnchos_gpu_nr_baseband.Base.Wrap.{distance, distance-lt, mod-distance, distance-mod}
use gunnchos_gpu_nr_baseband.Ldpc.Tables.{BgEdge}
use gunnchos_gpu_nr_baseband.Ldpc.Graph.{Graph, SparseEdge, mod_shift, lifted_var, expand_edge}

module _ (sh zc : ℕ) where
  -- Edge `distance sh zc v` of a block column `col` ends at its bit `v`.
  lifted-distance : (col v : ℕ) → v < zc → lifted_var col sh (distance sh zc v) zc ≡ col * zc + v
  lifted-distance col v h =
      let turned : distance sh zc v + sh ≡ sh + distance sh zc v = omega arith in
      ap (λ (t : ℕ). col * zc + t % zc) turned
      ∙ ap (λ (t : ℕ). col * zc + t) (mod-distance sh zc v h)

  lifted-only :
      (col v z : ℕ) → z < zc → lifted_var col sh z zc ≡ col * zc + v → z ≡ distance sh zc v
  lifted-only col v z h e =
      let turned : z + sh ≡ sh + z = omega arith in
      let place : (z + sh) % zc ≡ v = omega arith in
      sym (distance-mod sh zc z h)
      ∙ ap (λ (t : ℕ). distance sh zc t) (sym (ap (λ (t : ℕ). t % zc) turned) ∙ place)

element :
    (g : Graph) (e : BgEdge) (z : ℕ)
    → z < g.zc
    → get_elem? (expand_edge g e) z
      ≡ some (record {
        check = e.row * g.zc + z;
        var = lifted_var e.col (mod_shift (get_or e.shift g.i_ls 0) g.zc) z g.zc;
      })
element g e z h =
    let missing : SparseEdge = record { check = 0; var = 0 } in
    let size : length (expand_edge g e) ≡ g.zc = length-tabulate_from 0 g.zc _ in
    get_elem?-eq-get_or (expand_edge g e) z missing (omega arith)
    ∙ ap some (get_or-tabulate g.zc _ z missing h)

var_of : Option SparseEdge → ℕ
var_of none = 0
var_of (some e) = e.var

-- In every graph an entry of the base matrix lifts to a permutation: its edge z
-- starts from check z of the block row, and for each bit of the block column there is exactly one z
-- whose edge ends there.
expand_edge_permutes :
    (g : Graph) (e : BgEdge) (v : ℕ)
    → v < g.zc
    → (z : ℕ) × (z < g.zc)
      × (get_elem? (expand_edge g e) z
          ≡ some (record { check = e.row * g.zc + z; var = e.col * g.zc + v }))
      × ((other c : ℕ)
          → other < g.zc
          → get_elem? (expand_edge g e) other ≡ some (record { check = c; var = e.col * g.zc + v })
          → other ≡ z)
unfolding var_of
expand_edge_permutes g e v h =
    let sh : ℕ = mod_shift (get_or e.shift g.i_ls 0) g.zc in
    let z : ℕ = distance sh g.zc v in
    let below : z < g.zc = distance-lt sh g.zc v (omega arith) in
    (
      z,
      below,
      element g e z below
          ∙ ap (λ (t : ℕ). some (record { check = e.row * g.zc + z; var = t }))
              (lifted-distance sh g.zc e.col v h),
      λ other c inside there.
          let ends : lifted_var e.col sh other g.zc ≡ e.col * g.zc + v =
            ap var_of (sym (element g e other inside) ∙ there) in
          lifted-only sh g.zc e.col v other inside ends,
    )
