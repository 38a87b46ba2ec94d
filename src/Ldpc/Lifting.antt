-- ===== src/Ldpc/Lifting.antt =====
-- The lifting sizes of TS 38.212 Table 5.3.2-1, and what `select_lifting` takes of them.
use native.Mathlib.Nat.{le_of_mul-le-mul_left, mul-le-mul_left}
use gunnchos_gpu_nr_baseband.Base.{
  ℕ, suc, ◌*◌, ◌≤◌, ◌<◌, ◌≡◌, refl, ◌⊎◌, inl, inr, ap, arith, true, List, [], ◌∷◌, none, some,
  if◌then◌else◌, ◌==◌, ok, throw, Bool-cases,
}
use gunnchos_gpu_nr_baseband.Base.Int.{ℤ, pos, negsuc}
use gunnchos_gpu_nr_baseband.Ldpc.{
  BaseGraph, LiftingChoice, Best, lifting_sets, in_row, find_row, i_ls_for_zc,
  is_valid_lifting_size, kb_for_selection, best_lifting, better, scan_row, scan_sets, no_best,
  default_kb, select_lifting,
}

module _ (kb k : ℕ) where
  scan_row-le : (i : ℕ) (row : List ℤ) (b : Best) → (scan_row kb k i row b).val ≤ b.val
  scan_row-le i [] b = omega arith
  scan_row-le i (pos z ∷ row) b = ground (arith, scan_row-le i row (better kb k i z b))
  scan_row-le i (negsuc n ∷ row) b = scan_row-le i row b

  -- A size of the row that is enough and is not beaten bounds the result.
  scan_row-min :
      (i z : ℕ) (row : List ℤ) (b : Best)
      → in_row (pos z) row ≡ true
      → k ≤ kb * z
      → (scan_row kb k i row b).val ≤ kb * z
  scan_row-min i z [] b m h = cc
  scan_row-min i z (pos y ∷ row) b m h =
      ground
        (arith, scan_row-le i row (better kb k i y b), scan_row-min i z row (better kb k i y b))
  scan_row-min i z (negsuc n ∷ row) b m h = scan_row-min i z row b m h

  scan_sets-le : (i : ℕ) (rows : List (List ℤ)) (b : Best) → (scan_sets kb k i rows b).val ≤ b.val
  scan_sets-le i [] b = omega arith
  scan_sets-le i (row ∷ rows) b =
      omega (arith, scan_sets-le (suc i) rows (scan_row kb k i row b), scan_row-le i row b)

  scan_sets-min :
      (i z j : ℕ) (rows : List (List ℤ)) (b : Best)
      → find_row (pos z) i rows ≡ some j
      → k ≤ kb * z
      → (scan_sets kb k i rows b).val ≤ kb * z
  scan_sets-min i z j [] b m h = cc
  scan_sets-min i z j (row ∷ rows) b m h = elim (Bool-cases (in_row (pos z) row)) [
    | inl here ↦
        omega
          (arith, scan_sets-le (suc i) rows (scan_row kb k i row b), scan_row-min i z row b here h)
    | inr there ↦ scan_sets-min (suc i) z j rows (scan_row kb k i row b) (rw there at m) h
  ]

  -- The result so far is none, or a size of the table with its row.
  abbrev IsFound : Best → Type 0
  IsFound b =
      (b ≡ no_best)
      ⊎ ((b.val ≡ kb * b.z) × (k ≤ b.val) × (i_ls_for_zc (pos b.z) ≡ some b.ils) × (0 < b.z))

  -- Every size of the row stands in row `i` of the table.
  abbrev IsRow : ℕ → List ℤ → Type 0
  IsRow i [] = Unit {0}
  IsRow i (pos z ∷ row) = (i_ls_for_zc (pos z) ≡ some i) × (0 < z) × IsRow i row
  IsRow i (negsuc n ∷ row) = IsRow i row

  scan_row-IsFound :
      (i : ℕ) (row : List ℤ) (b : Best) → IsRow i row → IsFound b → IsFound (scan_row kb k i row b)
  scan_row-IsFound i [] b r f = f
  scan_row-IsFound i (pos z ∷ row) b r f =
      scan_row-IsFound i row (better kb k i z b) r.2 (ground arith)
  scan_row-IsFound i (negsuc n ∷ row) b r f = scan_row-IsFound i row b r f

  abbrev AreRows : ℕ → List (List ℤ) → Type 0
  AreRows i [] = Unit {0}
  AreRows i (row ∷ rows) = IsRow i row × AreRows (suc i) rows

  scan_sets-IsFound :
      (i : ℕ) (rows : List (List ℤ)) (b : Best)
      → AreRows i rows
      → IsFound b
      → IsFound (scan_sets kb k i rows b)
  scan_sets-IsFound i [] b r f = f
  scan_sets-IsFound i (row ∷ rows) b r f =
      scan_sets-IsFound (suc i) rows (scan_row kb k i row b) r.1 (scan_row-IsFound i row b r.0 f)

  lifting_sets-AreRows : AreRows 0 lifting_sets
  unfolding i_ls_for_zc
  lifting_sets-AreRows = ground arith

best_lifting-IsFound :
    (k : ℕ) (bg : BaseGraph) → IsFound (kb_for_selection k bg) k (best_lifting k bg)
unfolding best_lifting
best_lifting-IsFound k bg =
    scan_sets-IsFound (kb_for_selection k bg) k 0 lifting_sets no_best
      (lifting_sets-AreRows (kb_for_selection k bg) k) (inl refl)

pub kb_for_selection_bounds :
    (k : ℕ) (bg : BaseGraph) → (6 ≤ kb_for_selection k bg) × (kb_for_selection k bg ≤ 22)
unfolding kb_for_selection
kb_for_selection_bounds k bg = ground arith

valid-some :
    (z : ℕ) → is_valid_lifting_size (pos z) ≡ true → (i : ℕ) × (i_ls_for_zc (pos z) ≡ some i)
unfolding is_valid_lifting_size
valid-some z h = ground arith

best_lifting-min :
    (k : ℕ) (bg : BaseGraph) (z i : ℕ)
    → i_ls_for_zc (pos z) ≡ some i
    → k ≤ kb_for_selection k bg * z
    → (best_lifting k bg).val ≤ kb_for_selection k bg * z
unfolding best_lifting i_ls_for_zc
best_lifting-min k bg z i e h =
    scan_sets-min (kb_for_selection k bg) k 0 z i lifting_sets no_best e h

-- A size that was found is not above any other that is enough.
found-least :
    (k : ℕ) (bg : BaseGraph) (z i : ℕ)
    → 0 < (best_lifting k bg).z
    → i_ls_for_zc (pos z) ≡ some i
    → k ≤ kb_for_selection k bg * z
    → (best_lifting k bg).z ≤ z
found-least k bg z i some_size e h =
    let found = best_lifting-IsFound k bg in
    let value : (best_lifting k bg).val ≡ kb_for_selection k bg * (best_lifting k bg).z =
      ground arith in
    let least = best_lifting-min k bg z i e h in
    le_of_mul-le-mul_left {k = kb_for_selection k bg} (omega arith)
      (omega (arith, kb_for_selection_bounds k bg))

-- What `select_lifting` returns holds the bits in the columns that the selection counts with, is a
-- size of the table with its row, and is the least size of the table that holds the bits. The number
-- of columns that it hands on is that of the base graph.
pub select_lifting_least :
    (k : ℕ) (bg : BaseGraph) (out : LiftingChoice)
    → select_lifting k bg ≡ ok out
    → (k ≤ kb_for_selection k bg * out.zc)
      × (i_ls_for_zc (pos out.zc) ≡ some out.i_ls)
      × (out.kb ≡ default_kb bg)
      × ((z : ℕ)
          → is_valid_lifting_size (pos z) ≡ true
          → k ≤ kb_for_selection k bg * z
          → out.zc ≤ z)
unfolding select_lifting
select_lifting_least k bg out e =
    let found = best_lifting-IsFound k bg in
    let some_size : 0 < (best_lifting k bg).z = ground arith in
    let same : out ≡ record {
      zc = (best_lifting k bg).z;
      i_ls = (best_lifting k bg).ils;
      kb = default_kb bg;
    } =
      ground arith in
    rw same (
      ground arith,
      ground arith,
      refl,
      λ z v h. let (i, r) = valid-some z v in found-least k bg z i some_size r h,
    )

size_384 : i_ls_for_zc (pos 384) ≡ some 1
unfolding i_ls_for_zc
size_384 = refl

-- Every size of the table is at most 384.
sizes_below : (z i : ℕ) → i_ls_for_zc (pos z) ≡ some i → z ≤ 384
unfolding i_ls_for_zc
sizes_below z i h = ground arith

none-found : (k : ℕ) (bg : BaseGraph) → kb_for_selection k bg * 384 < k → (best_lifting k bg).z ≡ 0
none-found k bg h = elim (best_lifting-IsFound k bg) [
  | inl e ↦ ap (λ b. b.z) e
  | inr (value, enough, row, some_size) ↦ absurd (
      omega
        (arith, mul-le-mul_left (kb_for_selection k bg) (sizes_below (best_lifting k bg).z _ row)))
]

-- `select_lifting` fails exactly for the numbers of bits that not even the size 384 holds.
pub select_lifting_total :
    (k : ℕ) (bg : BaseGraph)
    → (k ≤ kb_for_selection k bg * 384 → (out : LiftingChoice) × (select_lifting k bg ≡ ok out))
      × (kb_for_selection k bg * 384 < k
          → select_lifting k bg ≡ throw "no valid lifting size for K")
unfolding select_lifting
select_lifting_total k bg =
    let found = best_lifting-IsFound k bg in
    let bounds = kb_for_selection_bounds k bg in
    (
      (λ h.
          let fits = best_lifting-min k bg 384 1 size_384 h in
          let some_size : 0 < (best_lifting k bg).z = ground arith in
          (
            record {
              zc = (best_lifting k bg).z;
              i_ls = (best_lifting k bg).ils;
              kb = default_kb bg;
            },
            ground arith,
          )),
      (λ h. ground (arith, none-found k bg h)),
    )

-- Of the negative integers -1 alone passes for a lifting size, of row 2: it is the mark of the unused
-- places of the table.
i_ls_for_zc_negative : (n : ℕ) → i_ls_for_zc (negsuc n) ≡ (if n == 0 then some 2 else none)
unfolding i_ls_for_zc
i_ls_for_zc_negative n = ground arith
