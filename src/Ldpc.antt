-- ===== src/Ldpc.antt =====
-- include/nr_bb/ldpc.hpp and src/ldpc.cpp: the choice of a base graph and of a lifting size.
-- The graphs themselves are in the children.
pub mod Tables
pub mod Lifting
pub mod Graph
pub mod Encode
pub mod Decode
mod Examples
use gunnchos_gpu_nr_baseband.Base.{
  ℕ, suc, ◌*◌, Bool, true, false, ◌&&◌, List, [], ◌∷◌, Option, none, some, if◌then◌else◌, ◌==◌, ltb,
  leb, Result, ok, throw, ◌>>=◌, ◌>>◌, require,
}
use gunnchos_gpu_nr_baseband.Base.Int.{ℤ, pos, negsuc}
use gunnchos_gpu_nr_baseband.Base.Double.{Double}
use gunnchos_gpu_nr_baseband.Ldpc.Tables.{bg1_kb, bg2_kb}

pub data BaseGraph : Type 0 where
  bg1 bg2 : BaseGraph

-- The fields that are `int` with -1 for "not given" are integers.
pub record LdpcParams : Type 0 where
  pub bg : BaseGraph
  pub zc : ℤ
  pub i_ls : ℤ
  pub max_iter : ℤ
  pub info_bits : ℤ
  pub kb : ℤ
  pub mb_use : ℤ

pub record LiftingChoice : Type 0 where
  pub zc : ℕ
  pub i_ls : ℕ
  pub kb : ℕ

-- The unused places of a row hold -1.
abbrev unused : ℤ
unused = negsuc 0

abbrev pub lifting_sets : List (List ℤ)
lifting_sets =
    (pos 2 ∷ pos 4 ∷ pos 8 ∷ pos 16 ∷ pos 32 ∷ pos 64 ∷ pos 128 ∷ pos 256 ∷ [])
    ∷ (pos 3 ∷ pos 6 ∷ pos 12 ∷ pos 24 ∷ pos 48 ∷ pos 96 ∷ pos 192 ∷ pos 384 ∷ [])
    ∷ (pos 5 ∷ pos 10 ∷ pos 20 ∷ pos 40 ∷ pos 80 ∷ pos 160 ∷ pos 320 ∷ unused ∷ [])
    ∷ (pos 7 ∷ pos 14 ∷ pos 28 ∷ pos 56 ∷ pos 112 ∷ pos 224 ∷ unused ∷ unused ∷ [])
    ∷ (pos 9 ∷ pos 18 ∷ pos 36 ∷ pos 72 ∷ pos 144 ∷ pos 288 ∷ unused ∷ unused ∷ [])
    ∷ (pos 11 ∷ pos 22 ∷ pos 44 ∷ pos 88 ∷ pos 176 ∷ pos 352 ∷ unused ∷ unused ∷ [])
    ∷ (pos 13 ∷ pos 26 ∷ pos 52 ∷ pos 104 ∷ pos 208 ∷ unused ∷ unused ∷ unused ∷ [])
    ∷ (pos 15 ∷ pos 30 ∷ pos 60 ∷ pos 120 ∷ pos 240 ∷ unused ∷ unused ∷ unused ∷ [])
    ∷ []

-- The tests of `select_basegraph` in their order.
abbrev pub choose_basegraph {ℓ} : {W : Type ℓ} ⦃d : Double W⦄ → ℕ → W → BaseGraph
choose_basegraph ⦃d⦄ k_bits coderate =
    if leb k_bits 292
    then bg2
    else if leb k_bits 3824 && d.le coderate (d.lit 67 100)
    then bg2
    else if d.le coderate (d.lit 25 100)
    then bg2
    else bg1

-- `select_basegraph`, for a number of bits and a rate.
unfoldable pub select_basegraph {ℓ} : {W : Type ℓ} ⦃d : Double W⦄ → ℕ → W → Result BaseGraph
select_basegraph k_bits coderate = do
  require (leb 12 k_bits) "K too small for NR LDPC"
  ok (choose_basegraph k_bits coderate)

abbrev pub eq_int : ℤ → ℤ → Bool
eq_int (pos a) (pos b) = a == b
eq_int (pos a) (negsuc b) = false
eq_int (negsuc a) (pos b) = false
eq_int (negsuc a) (negsuc b) = a == b

-- The loop over `j`.
abbrev pub in_row : ℤ → List ℤ → Bool
in_row zc [] = false
in_row zc (z ∷ row) = if eq_int z zc then true else in_row zc row

-- The loop over `i`, from `i` on.
abbrev pub find_row : ℤ → ℕ → List (List ℤ) → Option ℕ
find_row zc i [] = none
find_row zc i (row ∷ rows) = if in_row zc row then some i else find_row zc (suc i) rows

unfoldable pub i_ls_for_zc : ℤ → Option ℕ
i_ls_for_zc zc = find_row zc 0 lifting_sets

abbrev is_some {ℓ} : {A : Type ℓ} → Option A → Bool
is_some none = false
is_some (some a) = true

unfoldable pub is_valid_lifting_size : ℤ → Bool
unfolding i_ls_for_zc
is_valid_lifting_size zc = is_some (i_ls_for_zc zc)

-- `kb_sel`, the number of columns that the selection counts with.
unfoldable pub kb_for_selection : ℕ → BaseGraph → ℕ
kb_for_selection k_bits bg1 = 22
kb_for_selection k_bits bg2 =
    if ltb 640 k_bits then 10 else if ltb 560 k_bits then 9 else if ltb 192 k_bits then 8 else 6

-- `best_z`, `best_ils` and `best_val`.
pub record Best : Type 0 where
  pub z : ℕ
  pub ils : ℕ
  pub val : ℕ

abbrev pub better : (kb k i z : ℕ) → Best → Best
better kb k i z b =
    let x = kb * z in if leb k x && ltb x b.val then record { z = z; ils = i; val = x } else b

-- The loop over `j`: an unused place is passed over.
abbrev pub scan_row : (kb k i : ℕ) → List ℤ → Best → Best
scan_row kb k i [] b = b
scan_row kb k i (pos z ∷ row) b = scan_row kb k i row (better kb k i z b)
scan_row kb k i (negsuc n ∷ row) b = scan_row kb k i row b

abbrev pub scan_sets : (kb k i : ℕ) → List (List ℤ) → Best → Best
scan_sets kb k i [] b = b
scan_sets kb k i (row ∷ rows) b = scan_sets kb k (suc i) rows (scan_row kb k i row b)

abbrev pub no_best : Best
no_best = record { z = 0; ils = 0; val = 1_000_000 }

abbrev pub default_kb : BaseGraph → ℕ
default_kb bg1 = bg1_kb
default_kb bg2 = bg2_kb

-- The two loops of `select_lifting`.
unfoldable pub best_lifting : ℕ → BaseGraph → Best
best_lifting k_bits bg = scan_sets (kb_for_selection k_bits bg) k_bits 0 lifting_sets no_best

-- `select_lifting`, for a number of bits.
unfoldable pub select_lifting : ℕ → BaseGraph → Result LiftingChoice
select_lifting k_bits bg = do
  let best = best_lifting k_bits bg
  require (ltb 0 best.z) "no valid lifting size for K"
  ok (record { zc = best.z; i_ls = best.ils; kb = default_kb bg })
