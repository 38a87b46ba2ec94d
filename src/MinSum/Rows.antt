-- ===== src/MinSum/Rows.antt =====
-- The test of a word over the lists of edges, and over the rows of the matrix that has the edges as its ones.
use gunnchos_gpu_nr_baseband.Base.{
  ℕ, zero, suc, ◌+◌, ◌*◌, ◌%◌, ◌<◌, inl, inr, ◌≡◌, refl, sym, ap, ◌∙◌, arith, bit_xor,
  if◌then◌else◌, ◌==◌, List, [], ◌∷◌, ◌++◌, length, get_or, replicate, All, length-set,
  length-replicate, get_or-set_self, get_or-set_ne, get_or-replicate, All-replicate, Same-cases,
}
use gunnchos_gpu_nr_baseband.Parity.{xor_at, row_sum, rows_even}
use gunnchos_gpu_nr_baseband.Parity.Sums.{
  total, total_ext, total_zero, total_single, total-parity, weigh, weigh-xor,
}
use gunnchos_gpu_nr_baseband.Parity.Rows.{
  IsBit, All-set, get_or-IsBit, bit_xor-IsBit, row-lt, rows-Apart,
}
use gunnchos_gpu_nr_baseband.Parity.Equations.{terms, row_sum-parity, row_sum-IsBit}
use gunnchos_gpu_nr_baseband.Ldpc.Graph.{SparseEdge}
use gunnchos_gpu_nr_baseband.MinSum.{edge_sum, tables_of, checks_even}
use gunnchos_gpu_nr_baseband.MinSum.Checks.{check_total, chk_edges-parity}

-- The sum of row `r` over a word.
abbrev pub row_weight : ℕ → List ℕ → List ℕ → ℕ → ℕ
row_weight n h word r = total n (terms h (r * n) word 0)

-- One entry of the matrix is turned over: its row takes the bit of its column, the others stay.
toggle-row :
    (m n : ℕ) (h word : List ℕ) (row c r : ℕ)
    → length h ≡ m * n
    → All IsBit h
    → row < m
    → c < n
    → row_weight n (xor_at h (row * n + c) 1) word r % 2
      ≡ (row_weight n h word r + (if row == r then get_or word c 0 else 0)) % 2
toggle-row m n h word row c r size bits p q = elim (Same-cases row r) [
  | inr (t, d) ↦
      let same : row_weight n (xor_at h (row * n + c) 1) word r ≡ row_weight n h word r =
        total_ext n _ _ (λ j inside.
          ap (λ (x : ℕ). weigh x (get_or word j 0))
            (get_or-set_ne h (row * n + c) (r * n + (0 + j)) _ 0
              (λ e. elim (rows-Apart n row r d) [ inl k ↦ omega arith | inr k ↦ omega arith ]))) in
      rw t (omega arith)
  | inl (t, e) ↦
      let here : ℕ → ℕ = λ j. if j == c then get_or word c 0 else 0 in
      let only : total n here ≡ here c = total_single n here c q (λ j inside d.
        elim (Same-cases j c) [ inl (t2, e2) ↦ absurd (d e2) | inr (t2, d2) ↦ rw t2 refl ]) in
      let value : here c ≡ get_or word c 0 = elim (Same-cases c c) [
        | inl (t2, e2) ↦ rw t2 refl
        | inr (t2, d2) ↦ absurd (d2 refl)
      ] in
      let sums : row_weight n (xor_at h (row * n + c) 1) word row % 2
          ≡ (row_weight n h word row + total n here) % 2 =
        total-parity n _ (terms h (row * n) word 0) here (λ j inside. elim (Same-cases j c) [
          | inl (t2, e2) ↦
              let place : row * n + (0 + j) ≡ row * n + c = omega arith in
              let below : row * n + c < length h = omega (arith, row-lt n row m p) in
              let entry : get_or (xor_at h (row * n + c) 1) (row * n + (0 + j)) 0
                  ≡ bit_xor (get_or h (row * n + (0 + j)) 0) 1 =
                rw place (get_or-set_self h (row * n + c) _ 0 below) in
              let flip =
                weigh-xor (get_or h (row * n + (0 + j)) 0) 1 (get_or word j 0)
                  (get_or-IsBit h (row * n + (0 + j)) bits) (omega arith) in
              let one : weigh 1 (get_or word j 0) ≡ get_or word c 0 =
                ap (λ (x : ℕ). get_or word x 0) e2 in
              let mine : here j ≡ get_or word c 0 = rw t2 refl in
              ap (λ (x : ℕ). weigh x (get_or word j 0) % 2) entry ∙ omega arith
          | inr (t2, d2) ↦
              let entry : get_or (xor_at h (row * n + c) 1) (row * n + (0 + j)) 0
                  ≡ get_or h (row * n + (0 + j)) 0 =
                get_or-set_ne h (row * n + c) (row * n + (0 + j)) _ 0 (λ k. d2 (omega arith)) in
              let mine : here j ≡ 0 = rw t2 refl in
              ap (λ (x : ℕ). weigh x (get_or word j 0) % 2) entry ∙ omega arith
        ]) in
      rw (t, ← e) (omega arith)
]

-- Every edge is turned over in a matrix of `n` columns.
abbrev pub toggle_all : ℕ → List SparseEdge → List ℕ → List ℕ
toggle_all n [] h = h
toggle_all n (e ∷ edges) h = toggle_all n edges (xor_at h (e.check * n + e.var) 1)

pub toggle_all-append :
    (n : ℕ) (xs ys : List SparseEdge) (h : List ℕ)
    → toggle_all n (xs ++ ys) h ≡ toggle_all n ys (toggle_all n xs h)
toggle_all-append n [] ys h = refl
toggle_all-append n (e ∷ xs) ys h = toggle_all-append n xs ys _

pub toggle_all-IsBit :
    (n : ℕ) (edges : List SparseEdge) (h : List ℕ) → All IsBit h → All IsBit (toggle_all n edges h)
toggle_all-IsBit n [] h bits = bits
toggle_all-IsBit n (e ∷ edges) h bits =
    toggle_all-IsBit n edges _
      (All-set h _ _ bits (bit_xor-IsBit _ 1 (get_or-IsBit h _ bits) (omega arith)))

-- An edge of a matrix with `m` rows.
abbrev pub JoinsIn : ℕ → ℕ → SparseEdge → Type 0
JoinsIn m n e = (e.check < m) × (e.var < n)

toggle_all-row :
    (m n : ℕ) (word : List ℕ) (r : ℕ) (edges : List SparseEdge) (h : List ℕ)
    → All (JoinsIn m n) edges
    → length h ≡ m * n
    → All IsBit h
    → row_weight n (toggle_all n edges h) word r % 2
      ≡ (row_weight n h word r + check_total edges r word) % 2
toggle_all-row m n word r [] h inside size bits = omega arith
toggle_all-row m n word r (e ∷ edges) h inside size bits =
    let next : List ℕ = xor_at h (e.check * n + e.var) 1 in
    let next_bits : All IsBit next =
      All-set h _ _ bits (bit_xor-IsBit _ 1 (get_or-IsBit h _ bits) (omega arith)) in
    let rest = toggle_all-row m n word r edges next inside.1 (length-set h _ _ ∙ size) next_bits in
    let here = toggle-row m n h word e.check e.var r size bits inside.0.0 inside.0.1 in omega arith

-- The matrix whose ones are the edges.
abbrev pub matrix_of : ℕ → ℕ → List SparseEdge → List ℕ
matrix_of m n edges = toggle_all n edges (replicate (m * n) 0)

pub matrix_of-IsBit : (m n : ℕ) (edges : List SparseEdge) → All IsBit (matrix_of m n edges)
matrix_of-IsBit m n edges = toggle_all-IsBit n edges _ (All-replicate IsBit (m * n) 0 (omega arith))

-- A row has the parity of the bits at the edges of its check.
matrix_of-row :
    (m n : ℕ) (edges : List SparseEdge) (word : List ℕ) (r : ℕ)
    → All (JoinsIn m n) edges
    → length word ≡ n
    → All IsBit word
    → (row_sum (matrix_of m n edges) (r * n) word 0 0 % 2 ≡ check_total edges r word % 2)
      × (row_sum (matrix_of m n edges) (r * n) word 0 0 < 2)
matrix_of-row m n edges word r inside size bits =
    let blank : List ℕ = replicate (m * n) 0 in
    let nothing : row_weight n blank word r ≡ 0 = total_zero n _ (λ j p.
      ap (λ (x : ℕ). weigh x (get_or word j 0)) (get_or-replicate (m * n) 0 (r * n + (0 + j)))) in
    let made =
      toggle_all-row m n word r edges blank inside (length-replicate (m * n) 0)
        (All-replicate IsBit (m * n) 0 (omega arith)) in
    let sum = row_sum-parity (matrix_of m n edges) (r * n) word 0 0 in
    let sum2 : row_sum (matrix_of m n edges) (r * n) word 0 0 % 2
        ≡ (0 + row_weight n (matrix_of m n edges) word r) % 2 =
      rw size at sum in
    (omega arith, row_sum-IsBit (matrix_of m n edges) (r * n) word 0 0 bits (omega arith))

bits_of_parity : (a b : ℕ) → a < 2 → b < 2 → a % 2 ≡ b % 2 → a ≡ b
bits_of_parity a b p q e = omega arith

module _ (m n : ℕ) (edges : List SparseEdge) (word : List ℕ) (inside : All (JoinsIn m n) edges)
    (size : length word ≡ n) (bits : All IsBit word) where
  same_sum :
      (r : ℕ)
      → r < m
      → row_sum (matrix_of m n edges) (r * n) word 0 0
        ≡ edge_sum edges word (get_or (tables_of n m edges).chk_edges r []) 0
  same_sum r below =
      let (parity1, small1) = matrix_of-row m n edges word r inside size bits in
      let (parity2, small2) = chk_edges-parity m edges word r below bits in
      bits_of_parity _ _ small1 small2 (parity1 ∙ sym parity2)

  tests_agree_from :
      (left c : ℕ)
      → c + left ≡ m
      → checks_even (tables_of n m edges) word left c
        ≡ rows_even n (matrix_of m n edges) word left c
  tests_agree_from zero c count = refl
  tests_agree_from (suc left) c count =
      rw (same_sum c (omega arith), tests_agree_from left (suc c) (omega arith)) refl

  -- The two tests agree on every word of bits.
  pub tests_agree :
      checks_even (tables_of n m edges) word m 0 ≡ rows_even n (matrix_of m n edges) word m 0
  tests_agree = tests_agree_from m 0 (omega arith)
