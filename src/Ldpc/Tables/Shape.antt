-- ===== src/Ldpc/Tables/Shape.antt =====
-- The two base graphs of include/nr_bb/ldpc_bg_tables.hpp as a whole.
use gunnchos_gpu_nr_baseband.Base.{
  ℕ, ◌+◌, ◌-◌, ◌≤◌, ◌<◌, ◌≡◌, refl, ◌⊎◌, arith, Bool, true, ◌&&◌, ◌||◌, List, [], ◌∷◌, length, All,
  tabulate_from, if◌then◌else◌, ◌==◌, ltb, leb,
}
use gunnchos_gpu_nr_baseband.Ldpc.Tables.{
  BgEdge, bg1_edges, bg2_edges, bg1_mb, bg1_nb, bg1_kb, bg2_mb, bg2_nb, bg2_kb,
}

abbrev all {ℓ} : {A : Type ℓ} → (A → Bool) → List A → Bool
all p [] = true
all p (x ∷ xs) = p x && all p xs

all_sound {ℓ} :
    {A : Type ℓ} (p : A → Bool) (P : A → Type 0)
    → ((x : A) → p x ≡ true → P x)
    → (xs : List A) → all p xs ≡ true
    → All P xs
all_sound p P s [] h = tt
all_sound p P s (x ∷ xs) h =
    let parts : (p x ≡ true) × (all p xs ≡ true) = ground arith in
    (s x parts.0, all_sound p P s xs parts.1)

-- Rows and columns are in range, and there is a shift below 384 for each of the eight sets.
abbrev pub InRange : ℕ → ℕ → BgEdge → Type 0
InRange mb nb e = (e.row < mb) × (e.col < nb) × (length e.shift ≡ 8) × All (λ s. s < 384) e.shift

in_range : ℕ → ℕ → BgEdge → Bool
in_range mb nb e =
    ltb e.row mb && ltb e.col nb && length e.shift == 8 && all (λ s. ltb s 384) e.shift

below_384 : (xs : List ℕ) → all (λ s. ltb s 384) xs ≡ true → All (λ s. s < 384) xs
below_384 = all_sound (λ s. ltb s 384) (λ s. s < 384) (λ s h. ground arith)

in_range-InRange : (mb nb : ℕ) (e : BgEdge) → in_range mb nb e ≡ true → InRange mb nb e
unfolding in_range
in_range-InRange mb nb e h = ground (arith, below_384 e.shift)

-- The edges go up by row, and in a row by column: no entry of the base matrix stands twice.
abbrev pub Before : BgEdge → BgEdge → Type 0
Before e f = (e.row < f.row) ⊎ ((e.row ≡ f.row) × (e.col < f.col))

abbrev pub InOrder : List BgEdge → Type 0
InOrder [] = Unit {0}
InOrder (e ∷ []) = Unit {0}
InOrder (e ∷ f ∷ edges) = Before e f × InOrder (f ∷ edges)

before : BgEdge → BgEdge → Bool
before e f = ltb e.row f.row || (e.row == f.row && ltb e.col f.col)

in_order : List BgEdge → Bool
in_order [] = true
in_order (e ∷ []) = true
in_order (e ∷ f ∷ edges) = before e f && in_order (f ∷ edges)

in_order-InOrder : (edges : List BgEdge) → in_order edges ≡ true → InOrder edges
unfolding in_order before
in_order-InOrder [] h = tt
in_order-InOrder (e ∷ []) h = tt
in_order-InOrder (e ∷ f ∷ edges) h =
    let parts : (before e f ≡ true) × (in_order (f ∷ edges) ≡ true) = ground arith in
    (ground arith, in_order-InOrder (f ∷ edges) parts.1)

-- The rows of the edges in the columns behind the four parity columns of the core.
abbrev pub extension_rows : ℕ → List BgEdge → List ℕ
extension_rows kb [] = []
extension_rows kb (e ∷ edges) =
    if leb (kb + 4) e.col then e.row ∷ extension_rows kb edges else extension_rows kb edges

-- An edge in such a column is on the diagonal, with shift 0 in all sets.
abbrev pub OnDiagonal : ℕ → BgEdge → Type 0
OnDiagonal kb e = kb + 4 ≤ e.col → (e.col ≡ kb + e.row) × All (λ s. s ≡ 0) e.shift

on_diagonal : ℕ → BgEdge → Bool
on_diagonal kb e = ltb e.col (kb + 4) || (e.col == kb + e.row && all (λ s. s == 0) e.shift)

all_zero : (xs : List ℕ) → all (λ s. s == 0) xs ≡ true → All (λ s. s ≡ 0) xs
all_zero = all_sound (λ s. s == 0) (λ s. s ≡ 0) (λ s h. ground arith)

on_diagonal-OnDiagonal : (kb : ℕ) (e : BgEdge) → on_diagonal kb e ≡ true → OnDiagonal kb e
unfolding on_diagonal
on_diagonal-OnDiagonal kb e h far = ground (arith, all_zero e.shift)

-- What the lifted matrix is built from.
pub record IsBaseGraph (mb nb kb : ℕ) (edges : List BgEdge) : Type 0 where
  pub ranges : All (InRange mb nb) edges
  pub order : InOrder edges
  pub diagonal : All (OnDiagonal kb) edges
  pub rows : extension_rows kb edges ≡ tabulate_from 4 (mb - 4) (λ i. i)

-- Both base graphs have their edges in range and in order, without doubles, and in the columns behind
-- the core exactly the diagonal, with shift 0, one edge for each row from 4 on. They have 316 and 197
-- edges, and as many columns as information columns and rows.
pub base_graphs_shape :
    IsBaseGraph bg1_mb bg1_nb bg1_kb bg1_edges
    × IsBaseGraph bg2_mb bg2_nb bg2_kb bg2_edges
    × (length bg1_edges ≡ 316)
    × (length bg2_edges ≡ 197)
    × (bg1_nb ≡ bg1_kb + bg1_mb)
    × (bg2_nb ≡ bg2_kb + bg2_mb)
unfolding bg1_edges bg2_edges in_range in_order before on_diagonal
base_graphs_shape = (
  record {
    ranges = all_sound (in_range 46 68) _ (in_range-InRange 46 68) bg1_edges refl;
    order = in_order-InOrder bg1_edges refl;
    diagonal = all_sound (on_diagonal 22) _ (on_diagonal-OnDiagonal 22) bg1_edges refl;
    rows = refl;
  },
  record {
    ranges = all_sound (in_range 42 52) _ (in_range-InRange 42 52) bg2_edges refl;
    order = in_order-InOrder bg2_edges refl;
    diagonal = all_sound (on_diagonal 10) _ (on_diagonal-OnDiagonal 10) bg2_edges refl;
    rows = refl;
  },
  refl,
  refl,
  refl,
  refl,
)
