-- ===== src/Parity/Equations.antt =====
-- The sums that the encoders form bit by bit, as the parity of a total.
use gunnchos_gpu_nr_baseband.Base.{
  ℕ, suc, ◌+◌, ◌%◌, ◌<◌, inl, inr, ◌≡◌, refl, ap, arith, bit_xor, ◌||◌, ◌==◌, List, [], ◌∷◌, length,
  get_or, All, Bool-cases, Same-cases,
}
use gunnchos_gpu_nr_baseband.Base.Bits.{bit_xor-parity}
use gunnchos_gpu_nr_baseband.Parity.{row_sum, row_parity}
use gunnchos_gpu_nr_baseband.Parity.Sums.{total, total_ext, weigh}
use gunnchos_gpu_nr_baseband.Parity.Rows.{IsBit, bit_xor-IsBit}

-- The terms of the equation that starts at `start` in the matrix.
abbrev pub terms : List ℕ → ℕ → List ℕ → ℕ → ℕ → ℕ
terms h start bits k j = weigh (get_or h (start + (k + j)) 0) (get_or bits j 0)

terms-suc :
    (h : List ℕ) (start b k : ℕ) (bits : List ℕ)
    → total (length bits) (terms h start bits (suc k))
      ≡ total (length bits) (λ j. terms h start (b ∷ bits) k (suc j))
terms-suc h start b k bits = total_ext (length bits) _ _ (λ j p.
    let place : start + (suc k + j) ≡ start + (k + suc j) = omega arith in
    ap (λ (t : ℕ). weigh (get_or h t 0) (get_or bits j 0)) place)

terms-front :
    (h : List ℕ) (start b k : ℕ) (bits : List ℕ)
    → terms h start (b ∷ bits) k 0 ≡ weigh (get_or h (start + k) 0) b
terms-front h start b k bits =
    let place : start + (k + 0) ≡ start + k = omega arith in
    ap (λ (t : ℕ). weigh (get_or h t 0) b) place

pub row_sum-parity :
    (h : List ℕ) (start : ℕ) (bits : List ℕ) (k s : ℕ)
    → row_sum h start bits k s % 2 ≡ (s + total (length bits) (terms h start bits k)) % 2
row_sum-parity h start [] k s = omega arith
row_sum-parity h start (b ∷ bits) k s =
    let front = terms-front h start b k bits in
    let later = terms-suc h start b k bits in
    elim (Same-cases (get_or h (start + k) 0) 0) [
      | inl (t, e) ↦
          let rest = row_sum-parity h start bits (suc k) s in
          let nothing : weigh (get_or h (start + k) 0) b ≡ 0 = rw t refl in rw t (omega arith)
      | inr (t, e) ↦
          let rest = row_sum-parity h start bits (suc k) (bit_xor s b) in
          let whole : weigh (get_or h (start + k) 0) b ≡ b = rw t refl in
          let step = bit_xor-parity s b in rw t (omega arith)
    ]

pub row_parity-parity :
    (h : List ℕ) (start : ℕ) (bits : List ℕ) (k s : ℕ)
    → All IsBit bits
    → row_parity h start bits k s % 2 ≡ (s + total (length bits) (terms h start bits k)) % 2
row_parity-parity h start [] k s fine = omega arith
row_parity-parity h start (b ∷ bits) k s fine =
    let front = terms-front h start b k bits in
    let later = terms-suc h start b k bits in
    elim (Same-cases (get_or h (start + k) 0) 0) [
      | inl (t, e) ↦
          let rest = row_parity-parity h start bits (suc k) s fine.1 in
          let nothing : weigh (get_or h (start + k) 0) b ≡ 0 = rw t refl in rw t (omega arith)
      | inr (t, e) ↦
          let whole : weigh (get_or h (start + k) 0) b ≡ b = rw t refl in
          elim (Same-cases b 0) [
            | inl (t2, e2) ↦
                let rest = row_parity-parity h start bits (suc k) s fine.1 in
                rw (t, t2) (omega arith)
            | inr (t2, e2) ↦
                let rest = row_parity-parity h start bits (suc k) (bit_xor s 1) fine.1 in
                let step = bit_xor-parity s 1 in
                let bit : b < 2 = fine.0 in
                let one : b ≡ 1 = omega arith in rw (t, t2) (omega arith)
          ]
    ]

pub row_sum-IsBit :
    (h : List ℕ) (start : ℕ) (bits : List ℕ) (k s : ℕ)
    → All IsBit bits
    → s < 2
    → row_sum h start bits k s < 2
row_sum-IsBit h start [] k s fine p = p
row_sum-IsBit h start (b ∷ bits) k s fine p = elim (Same-cases (get_or h (start + k) 0) 0) [
  | inl (t, e) ↦ rw t (row_sum-IsBit h start bits (suc k) s fine.1 p)
  | inr (t, e) ↦
      rw t (row_sum-IsBit h start bits (suc k) (bit_xor s b) fine.1 (bit_xor-IsBit s b p fine.0))
]

pub row_parity-IsBit :
    (h : List ℕ) (start : ℕ) (bits : List ℕ) (k s : ℕ) → s < 2 → row_parity h start bits k s < 2
row_parity-IsBit h start [] k s p = p
row_parity-IsBit h start (b ∷ bits) k s p =
    elim (Bool-cases (get_or h (start + k) 0 == 0 || b == 0)) [
      | inl t ↦ rw t (row_parity-IsBit h start bits (suc k) s p)
      | inr t ↦
          rw t (
            row_parity-IsBit h start bits (suc k) (bit_xor s 1) (bit_xor-IsBit s 1 p (omega arith)))
    ]
