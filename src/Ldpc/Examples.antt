-- ===== src/Ldpc/Examples.antt =====
-- The choice of a lifting size at concrete numbers of bits.
use gunnchos_gpu_nr_baseband.Base.{ℕ, ◌*◌, ◌≤◌, ◌<◌, ◌≡◌, refl, true, some, ok, throw}
use gunnchos_gpu_nr_baseband.Base.Int.{pos}
use gunnchos_gpu_nr_baseband.Base.Double.{milli_double}
use gunnchos_gpu_nr_baseband.Ldpc.{
  LiftingChoice, bg1, bg2, select_basegraph, i_ls_for_zc, is_valid_lifting_size, kb_for_selection,
  best_lifting, default_kb, select_lifting,
}
use gunnchos_gpu_nr_baseband.Ldpc.Lifting.{select_lifting_least, select_lifting_total}

chosen : select_lifting 500 bg2 ≡ ok (record { zc = 64; i_ls = 0; kb = 10 })
unfolding select_lifting best_lifting kb_for_selection
chosen = refl

abbrev half : ℕ
half = 500

abbrev fifth : ℕ
fifth = 200

graphs :
    (select_basegraph 4000 half ≡ ok bg1)
    × (select_basegraph 4000 fifth ≡ ok bg2)
    × (select_basegraph 292 half ≡ ok bg2)
    × (select_basegraph 11 half ≡ throw "K too small for NR LDPC")
unfolding select_basegraph
graphs = (refl, refl, refl, refl)

select_lifting_least_example :
    (500 ≤ kb_for_selection 500 bg2 * 64)
    × (i_ls_for_zc (pos 64) ≡ some 0)
    × (10 ≡ default_kb bg2)
    × ((z : ℕ) → is_valid_lifting_size (pos z) ≡ true → 500 ≤ kb_for_selection 500 bg2 * z → 64 ≤ z)
select_lifting_least_example =
    select_lifting_least 500 bg2 (record { zc = 64; i_ls = 0; kb = 10 }) chosen

select_lifting_total_example :
    (9000 ≤ kb_for_selection 9000 bg1 * 384
      → (out : LiftingChoice) × (select_lifting 9000 bg1 ≡ ok out))
    × (kb_for_selection 9000 bg1 * 384 < 9000
        → select_lifting 9000 bg1 ≡ throw "no valid lifting size for K")
select_lifting_total_example = select_lifting_total 9000 bg1
