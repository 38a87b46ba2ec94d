-- ===== src/Parity/Clear.antt =====
-- The rows that the pivot row is added to.
use gunnchos_gpu_nr_baseband.Base.{
  ℕ, zero, suc, ◌+◌, ◌-◌, ◌*◌, ◌%◌, ◌<◌, ◌≢◌, inl, inr, ◌≡◌, refl, sym, ap, ap₂, ◌∙◌, arith,
  bit_xor, get_or, length-set, get_or-set_self, get_or-set_ne, Same-cases, Less-cases,
}
use gunnchos_gpu_nr_baseband.Base.Bits.{bit_xor-parity}
use gunnchos_gpu_nr_baseband.Parity.{xor_at, add_row, System}
use gunnchos_gpu_nr_baseband.Parity.Sums.{total-parity, weigh, weigh-xor}
use gunnchos_gpu_nr_baseband.Parity.Rows.{
  cell, get_or-IsBit, bit_xor-IsBit, All-set, rows-Apart, row-lt_all, add_row-frame, add_row-effect,
  add_row-length, add_row-IsBit,
}
use gunnchos_gpu_nr_baseband.Parity.States.{
  IsSystem, entry_ne, row_total, row_total_ext, KeepsSolutions, bit_one,
}
use gunnchos_gpu_nr_baseband.Parity.Pivot.{IsPivoted}

bit_xor-zero : (b : ℕ) → b < 2 → bit_xor b 0 ≡ b
bit_xor-zero zero p = refl
bit_xor-zero (suc zero) p = refl
bit_xor-zero (suc (suc b)) p = absurd (omega arith)

abbrev pub added : ℕ → ℕ → ℕ → System → System
added m col r s = record {
  a = add_row m col r (m - col) col s.a;
  rhs = xor_at s.rhs r (get_or s.rhs col 0);
}

module _ (m col r : ℕ) (s : System) (v : IsPivoted m col s) (inside : col < m) (p : r < m)
    (d : r ≢ col) where
  pub added-IsSystem : IsSystem m (added m col r s)
  added-IsSystem = record {
    size = add_row-length m col r (m - col) col s.a ∙ v.system.size;
    rows = length-set s.rhs r _ ∙ v.system.rows;
    bits = add_row-IsBit m col r (m - col) col s.a v.system.bits;
    rhs_bits = All-set s.rhs r _ v.system.rhs_bits (
        bit_xor-IsBit _ _ (get_or-IsBit s.rhs r v.system.rhs_bits)
          (get_or-IsBit s.rhs col v.system.rhs_bits));
  }

  -- The pivot row is added to row `r`, in every column: it is 0 before the diagonal.
  pub added-cell :
      (c : ℕ) → c < m → cell m (added m col r s).a r c ≡ bit_xor (cell m s.a r c) (cell m s.a col c)
  added-cell c q = elim (Less-cases c col) [
    | inl (e, before) ↦
        let clear : cell m s.a col c ≡ 0 =
          v.cleared col c inside before ∙ entry_ne col c (λ h. omega arith) in
        add_row-frame m col r (m - col) col s.a (r * m + c) (inl (omega arith))
        ∙ sym (
            ap (λ (t : ℕ). bit_xor (cell m s.a r c) t) clear
            ∙ bit_xor-zero _ (get_or-IsBit s.a (r * m + c) v.system.bits))
    | inr (e, behind) ↦
        let place : col + (c - col) ≡ c = omega arith in
        let effect =
          add_row-effect m col r (m - col) col s.a (c - col) (omega arith) (omega arith)
            (omega (arith, v.system.size, row-lt_all m r p))
            (rows-Apart m col r (λ h. d (sym h))) in
        rw place at effect
  ]

  pub added-other : (o c : ℕ) → o ≢ r → c < m → cell m (added m col r s).a o c ≡ cell m s.a o c
  added-other o c e q =
      add_row-frame m col r (m - col) col s.a (o * m + c)
        (elim (rows-Apart m r o (λ h. e (sym h))) [
          | inl h ↦ inr (omega arith)
          | inr h ↦ inl (omega arith)
        ])

  pub added-IsPivoted : IsPivoted m col (added m col r s)
  added-IsPivoted = record {
    system = added-IsSystem;
    cleared = λ o c q before. elim (Same-cases o r) [
      | inl (t, h) ↦
          let none_there : cell m s.a col c ≡ 0 =
            v.cleared col c inside before ∙ entry_ne col c (λ e. omega arith) in
          rw h (
            added-cell c (omega arith)
            ∙ ap (λ (t : ℕ). bit_xor (cell m s.a r c) t) none_there
            ∙ bit_xor-zero _ (get_or-IsBit s.a (r * m + c) v.system.bits)
            ∙ v.cleared r c p before)
      | inr (t, h) ↦ added-other o c h (omega arith) ∙ v.cleared o c q before
    ];
    diagonal = added-other col col (λ h. d (sym h)) inside ∙ v.diagonal;
  }

  pub added-zero : cell m s.a r col ≢ 0 → cell m (added m col r s).a r col ≡ 0
  added-zero found =
      added-cell col inside
      ∙ ap₂ bit_xor (bit_one _ (get_or-IsBit s.a (r * m + col) v.system.bits) found) v.diagonal

  pub added-KeepsSolutions : KeepsSolutions m s (added m col r s)
  added-KeepsSolutions x solved o q = elim (Same-cases o r) [
    | inl (t, h) ↦
        let sums : row_total m (added m col r s).a x r % 2
            ≡ (row_total m s.a x r + row_total m s.a x col) % 2 =
          total-parity m _ (λ c. weigh (cell m s.a r c) (get_or x c 0))
            (λ c. weigh (cell m s.a col c) (get_or x c 0))
            (λ c q2.
              ap (λ (t : ℕ). weigh t (get_or x c 0) % 2) (added-cell c q2)
              ∙ weigh-xor (cell m s.a r c) (cell m s.a col c) (get_or x c 0)
                  (get_or-IsBit s.a (r * m + c) v.system.bits)
                  (get_or-IsBit s.a (col * m + c) v.system.bits)) in
        let side : get_or (added m col r s).rhs r 0
            ≡ bit_xor (get_or s.rhs r 0) (get_or s.rhs col 0) =
          get_or-set_self s.rhs r _ 0 (omega (arith, v.system.rows)) in
        let unchanged : get_or (added m col r s).rhs col 0 ≡ get_or s.rhs col 0 =
          get_or-set_ne s.rhs r col _ 0 d in
        let pivot_row : row_total m (added m col r s).a x col ≡ row_total m s.a x col =
          row_total_ext m _ s.a x col col (λ c q2. added-other col c (λ h2. d (sym h2)) q2) in
        let here = solved r p in
        let there = solved col inside in
        let parity = bit_xor-parity (get_or s.rhs r 0) (get_or s.rhs col 0) in rw h (omega arith)
    | inr (t, h) ↦
        let unchanged : get_or (added m col r s).rhs o 0 ≡ get_or s.rhs o 0 =
          get_or-set_ne s.rhs r o _ 0 (λ e. h (sym e)) in
        let row : row_total m (added m col r s).a x o ≡ row_total m s.a x o =
          row_total_ext m _ s.a x o o (λ c q2. added-other o c h q2) in
        omega (arith, solved o q)
  ]
