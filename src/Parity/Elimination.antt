-- ===== src/Parity/Elimination.antt =====
-- The elimination keeps the solutions, and ends in the identity matrix.
use gunnchos_gpu_nr_baseband.Base.{
  ℕ, zero, suc, ◌+◌, ◌-◌, ◌<◌, ◌≢◌, ◌⊎◌, inl, inr, ◌≡◌, refl, sym, ap, ◌∙◌, arith, ◌||◌,
  if◌then◌else◌, ◌==◌, ltb, ltb→lt, String, ok, require-eq-ok, Same-cases,
}
use mathlib.Core.Path.{subst}
use gunnchos_gpu_nr_baseband.Parity.{System, find_pivot, place_pivot, clear_column, eliminate}
use gunnchos_gpu_nr_baseband.Parity.Rows.{cell}
use gunnchos_gpu_nr_baseband.Parity.States.{IsSystem, entry_ne, entry_self, Cleared, KeepsSolutions}
use gunnchos_gpu_nr_baseband.Parity.Pivot.{find_pivot_lem, IsPivoted, place_pivot-IsPivoted}
use gunnchos_gpu_nr_baseband.Parity.Clear.{
  added, added-IsPivoted, added-other, added-zero, added-KeepsSolutions,
}

-- The rows before `r` have 0 in the column, the pivot row left out.
abbrev Zeros : ℕ → ℕ → ℕ → System → Type 0
Zeros m col r s = (o : ℕ) → o < r → o < m → o ≢ col → cell m s.a o col ≡ 0

abbrev Outcome : ℕ → ℕ → System → System → Type 0
Outcome m col s t = IsPivoted m col t × Zeros m col m t × KeepsSolutions m s t

-- A row that is passed over, because it is the pivot row or has 0 there.
Zeros-suc :
    (m col r : ℕ) (s : System)
    → Zeros m col r s
    → (r ≡ col) ⊎ (cell m s.a r col ≡ 0)
    → Zeros m col (suc r) s
Zeros-suc m col r s done skip o p q d = elim (Same-cases o r) [
  | inr (t, h) ↦ done o (omega arith) q d
  | inl (t, h) ↦ elim skip [
    | inl e ↦ absurd (d (h ∙ e))
    | inr e ↦ ap (λ (i : ℕ). cell m s.a i col) h ∙ e
  ]
]

-- The state after row `r`.
abbrev after_row : ℕ → ℕ → ℕ → System → System
after_row m col r s = if r == col || cell m s.a r col == 0 then s else added m col r s

clear_column-after_row :
    (m col left r : ℕ) (s n : System)
    → after_row m col r s ≡ n
    → Outcome m col s (clear_column m col left (suc r) n)
    → Outcome m col s (clear_column m col (suc left) r s)
clear_column-after_row m col left r s n e out =
    subst (λ (t : System). Outcome m col s (clear_column m col left (suc r) t)) (sym e) out

clear_column_lem :
    (m col left r : ℕ) (s : System)
    → IsPivoted m col s
    → col < m
    → r + left ≡ m
    → Zeros m col r s
    → Outcome m col s (clear_column m col left r s)
clear_column_lem m col zero r s v inside size done =
    (v, λ o p q d. done o (omega arith) q d, λ x solved. solved)
clear_column_lem m col (suc left) r s v inside size done = elim (Same-cases r col) [
  | inl (t, h) ↦ clear_column-after_row m col left r s s (rw t refl) (
      clear_column_lem m col left (suc r) s v inside (omega arith)
        (Zeros-suc m col r s done (inl h)))
  | inr (t, h) ↦ elim (Same-cases (cell m s.a r col) 0) [
    | inl (t2, h2) ↦ clear_column-after_row m col left r s s (rw (t, t2) refl) (
        clear_column_lem m col left (suc r) s v inside (omega arith)
          (Zeros-suc m col r s done (inr h2)))
    | inr (t2, h2) ↦
        let below : r < m = omega arith in
        let next : Zeros m col r (added m col r s) = λ o p q d.
          added-other m col r s v inside below h o col (λ e. omega arith) inside ∙ done o p q d in
        let (v2, done2, keeps) =
          clear_column_lem m col left (suc r) (added m col r s)
            (added-IsPivoted m col r s v inside below h) inside (omega arith)
            (Zeros-suc m col r (added m col r s) next
              (inr (added-zero m col r s v inside below h h2))) in
        clear_column-after_row m col left r s (added m col r s) (rw (t, t2) refl) (
          v2,
          done2,
          λ x solved. added-KeepsSolutions m col r s v inside below h x (keeps x solved),
        )
  ]
]

-- One column more is that of the identity.
Outcome-Cleared : (m col : ℕ) (s t : System) → Outcome m col s t → col < m → Cleared m (suc col) t
Outcome-Cleared m col s t (v, zeros, keeps) inside r c p q = elim (Same-cases c col) [
  | inr (e, h) ↦ v.cleared r c p (omega arith)
  | inl (e, h) ↦ elim (Same-cases r col) [
    | inl (e2, h2) ↦ rw (h, h2) (v.diagonal ∙ sym (entry_self col))
    | inr (e2, h2) ↦ rw h (zeros r p p h2 ∙ sym (entry_ne r col h2))
  ]
]

-- The elimination of the columns from `col` on.
pub eliminate_lem :
    (text : String) (m left col : ℕ) (s t : System)
    → eliminate text m left col s ≡ ok t
    → col + left ≡ m
    → IsSystem m s
    → Cleared m col s
    → IsSystem m t × Cleared m m t × KeepsSolutions m s t
eliminate_lem text m zero col s t e size fine clear =
    let same : s ≡ t = cc in
    rw (← same) (fine, λ r c p q. clear r c p (omega arith), λ x solved. solved)
eliminate_lem text m (suc left) col s t e size fine clear =
    let piv : ℕ = find_pivot s.a m col (m - col) col in
    let (test, rest) = require-eq-ok (ltb piv m) text _ e in
    let below : piv < m = ltb→lt piv m test in
    let (low, found) = find_pivot_lem s.a m col (m - col) col piv refl (omega arith) below in
    let (v, keeps1) = place_pivot-IsPivoted m col piv s fine clear low below found in
    let placed : System = place_pivot m col piv s in
    let out : Outcome m col placed (clear_column m col m 0 placed) =
      clear_column_lem m col m 0 placed v (omega arith) (omega arith)
        (λ o p q d. absurd (omega arith)) in
    let (fine2, clear2, keeps3) =
      eliminate_lem text m left (suc col) (clear_column m col m 0 placed) t rest (omega arith)
        (out.0).system (Outcome-Cleared m col placed _ out (omega arith)) in
    (fine2, clear2, λ x solved. keeps1 x (out.2 x (keeps3 x solved)))
