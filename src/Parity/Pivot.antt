-- ===== src/Parity/Pivot.antt =====
-- The search of a pivot, and the exchange of rows that brings it to the diagonal.
use gunnchos_gpu_nr_baseband.Base.{
  ℕ, zero, suc, ◌+◌, ◌*◌, ◌≤◌, ◌<◌, ◌≢◌, ◌⊎◌, inl, inr, ◌≡◌, refl, sym, ap, ◌∙◌, arith,
  if◌then◌else◌, ◌==◌, List, length, get_or, Same-cases, Less-cases,
}
use gunnchos_gpu_nr_baseband.Parity.{swap_at, swap_rows, find_pivot, place_pivot, System}
use gunnchos_gpu_nr_baseband.Parity.Rows.{cell, get_or-IsBit, Apart, rows-Apart, row-lt_all}
use gunnchos_gpu_nr_baseband.Parity.Exchange.{
  swap_at-first, swap_at-second, swap_at-other, swap_at-length, swap_at-IsBit, swap_rows-frame,
  swap_rows-length, swap_rows-IsBit, swap_rows-effect,
}
use gunnchos_gpu_nr_baseband.Parity.States.{
  IsSystem, entry_ne, Cleared, row_total, row_total_ext, KeepsSolutions, bit_one,
}

pub find_pivot_lem :
    (a : List ℕ) (m col left piv p : ℕ)
    → find_pivot a m col left piv ≡ p
    → piv + left ≡ m
    → p < m
    → (piv ≤ p) × (cell m a p col ≢ 0)
find_pivot_lem a m col zero piv p e size below = absurd (omega arith)
find_pivot_lem a m col (suc left) piv p e size below =
    elim (Same-cases (get_or a (piv * m + col) 0) 0) [
      | inl (t, h) ↦
          let later : find_pivot a m col left (suc piv) ≡ p = rw t at e in
          let (low, found) = find_pivot_lem a m col left (suc piv) p later (omega arith) below in
          (omega arith, found)
      | inr (t, h) ↦ let here : piv ≡ p = rw t at e in (omega arith, rw (← here) h)
    ]

-- The row that takes the place of row `r`.
abbrev partner : ℕ → ℕ → ℕ → ℕ
partner col piv r = if r == col then piv else if r == piv then col else r

-- The three rows that a partner can be.
partner-cases :
    (col piv r : ℕ)
    → ((r ≡ col) × (partner col piv r ≡ piv))
      ⊎ (((r ≡ piv) × (partner col piv r ≡ col))
          ⊎ ((r ≢ col) × (r ≢ piv) × (partner col piv r ≡ r)))
partner-cases col piv r = elim (Same-cases r col) [
  | inl (t, h) ↦ inl (h, rw t refl)
  | inr (t, h) ↦ elim (Same-cases r piv) [
    | inl (t2, h2) ↦ inr (inl (h2, rw (t, t2) refl))
    | inr (t2, h2) ↦ inr (inr (h, h2, rw (t, t2) refl))
  ]
]

abbrev exchanged : ℕ → ℕ → ℕ → System → System
exchanged m col piv s = record { a = swap_rows m col piv m 0 s.a; rhs = swap_at s.rhs col piv }

module _ (m col piv : ℕ) (s : System) (fine : IsSystem m s) (low : col < piv) (high : piv < m) where
  exchanged-IsSystem : IsSystem m (exchanged m col piv s)
  exchanged-IsSystem = record {
    size = swap_rows-length m col piv m 0 s.a ∙ fine.size;
    rows = swap_at-length s.rhs col piv ∙ fine.rows;
    bits = swap_rows-IsBit m col piv m 0 s.a fine.bits;
    rhs_bits = swap_at-IsBit s.rhs col piv fine.rhs_bits;
  }

  -- Every row comes from its partner, and so does its right-hand side.
  exchanged-cell :
      (r c : ℕ)
      → r < m
      → c < m
      → cell m (exchanged m col piv s).a r c ≡ cell m s.a (partner col piv r) c
  exchanged-cell r c p q =
      let apart : Apart m col piv = rows-Apart m col piv (λ e. omega arith) in
      let s1 : col * m + m ≤ length s.a =
        omega (arith, fine.size, row-lt_all m col (omega arith)) in
      let s2 : piv * m + m ≤ length s.a = omega (arith, fine.size, row-lt_all m piv high) in
      let (e1, e2) = swap_rows-effect m col piv m 0 s.a c q (omega arith) s1 s2 apart in
      let same : 0 + c ≡ c = omega arith in
      elim (partner-cases col piv r) [
        | inl (h, t) ↦ rw (t, h) (rw same at e1)
        | inr (inl (h, t)) ↦ rw (t, h) (rw same at e2)
        | inr (inr (d1, d2, t)) ↦ rw t (
            swap_rows-frame m col piv m 0 s.a (r * m + c)
              (elim (rows-Apart m r col d1) [
                | inl h ↦ inl (omega arith)
                | inr h ↦ inr (omega arith)
              ])
              (elim (rows-Apart m r piv d2) [
                | inl h ↦ inl (omega arith)
                | inr h ↦ inr (omega arith)
              ]))
      ]

  exchanged-rhs :
      (r : ℕ) → get_or (exchanged m col piv s).rhs r 0 ≡ get_or s.rhs (partner col piv r) 0
  exchanged-rhs r = elim (partner-cases col piv r) [
    | inl (h, t) ↦
        rw (t, h) (swap_at-first s.rhs col piv (λ e. omega arith) (omega (arith, fine.rows)))
    | inr (inl (h, t)) ↦ rw (t, h) (swap_at-second s.rhs col piv (omega (arith, fine.rows)))
    | inr (inr (d1, d2, t)) ↦
        rw t (swap_at-other s.rhs col piv r (λ e. d1 (sym e)) (λ e. d2 (sym e)))
  ]

  exchanged-Cleared : Cleared m col s → Cleared m col (exchanged m col piv s)
  exchanged-Cleared clear r c p q =
      exchanged-cell r c p (omega arith) ∙ elim (partner-cases col piv r) [
        | inl (h, t) ↦ rw t (
            clear piv c high q
            ∙ entry_ne piv c (λ e. omega arith)
            ∙ sym (entry_ne r c (λ e. omega arith)))
        | inr (inl (h, t)) ↦ rw t (
            clear col c (omega arith) q
            ∙ entry_ne col c (λ e. omega arith)
            ∙ sym (entry_ne r c (λ e. omega arith)))
        | inr (inr (d1, d2, t)) ↦ rw t (clear r c p q)
      ]

  partner-lt : (r : ℕ) → r < m → partner col piv r < m
  partner-lt r p = elim (partner-cases col piv r) [
    | inl (h, t) ↦ omega arith
    | inr (inl (h, t)) ↦ omega arith
    | inr (inr (d1, d2, t)) ↦ omega arith
  ]

  partner_twice : (r : ℕ) → partner col piv (partner col piv r) ≡ r
  partner_twice r = elim (partner-cases col piv r) [
    | inl (h, t) ↦
        rw (t, h)
          (elim (partner-cases col piv piv) [
            | inl (h2, t2) ↦ absurd (omega arith)
            | inr (inl (h2, t2)) ↦ t2
            | inr (inr (d1, d2, t2)) ↦ absurd (d2 refl)
          ])
    | inr (inl (h, t)) ↦
        rw (t, h)
          (elim (partner-cases col piv col) [
            | inl (h2, t2) ↦ t2
            | inr (inl (h2, t2)) ↦ absurd (omega arith)
            | inr (inr (d1, d2, t2)) ↦ absurd (d1 refl)
          ])
    | inr (inr (d1, d2, t)) ↦ rw t t
  ]

  exchanged-KeepsSolutions : KeepsSolutions m s (exchanged m col piv s)
  exchanged-KeepsSolutions x solved r p =
      let o : ℕ = partner col piv r in
      let back : partner col piv o ≡ r = partner_twice r in
      let row : row_total m (exchanged m col piv s).a x o ≡ row_total m s.a x r =
        row_total_ext m _ s.a x o r
          (λ c q. exchanged-cell o c (partner-lt r p) q ∙ ap (λ (t : ℕ). cell m s.a t c) back) in
      let side : get_or (exchanged m col piv s).rhs o 0 ≡ get_or s.rhs r 0 =
        exchanged-rhs o ∙ ap (λ (t : ℕ). get_or s.rhs t 0) back in
      omega (arith, solved o (partner-lt r p), row, side)

-- A pivot stands on the diagonal, and the columns before it are those of the identity.
pub record IsPivoted (m col : ℕ) (s : System) : Type 0 where
  pub system : IsSystem m s
  pub cleared : Cleared m col s
  pub diagonal : cell m s.a col col ≡ 1

pub place_pivot-IsPivoted :
    (m col piv : ℕ) (s : System)
    → IsSystem m s
    → Cleared m col s
    → col ≤ piv
    → piv < m
    → cell m s.a piv col ≢ 0
    → IsPivoted m col (place_pivot m col piv s) × KeepsSolutions m s (place_pivot m col piv s)
place_pivot-IsPivoted m col piv s fine clear low high found =
    let one : cell m s.a piv col ≡ 1 =
      bit_one _ (get_or-IsBit s.a (piv * m + col) fine.bits) found in
    elim (Same-cases piv col) [
      | inl (t, h) ↦
          let diagonal : cell m s.a col col ≡ 1 = ap (λ (r : ℕ). cell m s.a r col) (sym h) ∙ one in
          rw t (record { system = fine; cleared = clear; diagonal = diagonal }, λ x solved. solved)
      | inr (t, h) ↦
          let less : col < piv = elim (Less-cases col piv) [
            | inl (e, p) ↦ p
            | inr (e, p) ↦ absurd (h (omega arith))
          ] in
          let from_piv : partner col piv col ≡ piv = elim (partner-cases col piv col) [
            | inl (h2, t2) ↦ t2
            | inr (inl (h2, t2)) ↦ absurd (omega arith)
            | inr (inr (d1, d2, t2)) ↦ absurd (d1 refl)
          ] in
          rw t (
            record {
              system = exchanged-IsSystem m col piv s fine less high;
              cleared = exchanged-Cleared m col piv s fine less high clear;
              diagonal =
                  exchanged-cell m col piv s fine less high col col (omega arith) (omega arith)
                  ∙ ap (λ (r : ℕ). cell m s.a r col) from_piv
                  ∙ one;
            },
            exchanged-KeepsSolutions m col piv s fine less high,
          )
    ]
