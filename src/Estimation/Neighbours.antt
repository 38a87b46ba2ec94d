-- ===== src/Estimation/Neighbours.antt =====
-- The search ends between two neighbouring pilots, and the value is blended from these.
use mathlib.Core.Path.{subst}
use gunnchos_gpu_nr_baseband.Base.{
  ℕ, zero, suc, ◌+◌, ◌-◌, ◌/◌, ◌≤◌, ◌<◌, inl, inr, ◌≡◌, refl, sym, ap, ◌∙◌, arith, false, List,
  ◌==◌, ltb, leb, leb→le, length, get_or, tabulate, ok, require-eq-ok, ltb→lt, Bool-cases,
  Less-cases, get_or-tabulate, length-tabulate_from,
}
use gunnchos_gpu_nr_baseband.Base.Double.{Double}
use gunnchos_gpu_nr_baseband.Base.Signed.{Signed}
use gunnchos_gpu_nr_baseband.Modulation.{Complex}
use gunnchos_gpu_nr_baseband.Estimation.{
  search, origin, blend, at_subcarrier, interpolate_frequency,
}

-- Pilots `lo` and `lo + 1` enclose the subcarrier.
abbrev pub Encloses : List ℕ → ℕ → ℕ → Type 0
Encloses pilot_idx sc lo = (get_or pilot_idx lo 0 ≤ sc) × (sc < get_or pilot_idx (suc lo) 0)

search_lem :
    (idx : List ℕ) (sc left lo hi : ℕ)
    → lo < hi
    → hi ≤ lo + left
    → get_or idx lo 0 ≤ sc
    → sc < get_or idx hi 0
    → (i : ℕ) × (search idx sc left lo hi ≡ (i, suc i)) × (lo ≤ i) × (i < hi) × Encloses idx sc i
search_lem idx sc zero lo hi p fuel low high = absurd (omega arith)
search_lem idx sc (suc left) lo hi p fuel low high = elim (Less-cases 1 (hi - lo)) [
  | inl (t, wide) ↦
      let mid : ℕ = (lo + hi) / 2 in
      elim (Bool-cases (leb (get_or idx mid 0) sc)) [
        | inl c ↦
            let (i, found, above, below, both) =
              search_lem idx sc left mid hi (omega arith) (omega arith) (leb→le _ _ c) high in
            (i, rw (t, c) found, omega arith, below, both)
        | inr c ↦
            let beyond : sc < get_or idx mid 0 = beyond_of (get_or idx mid 0) sc c in
            let (i, found, above, below, both) =
              search_lem idx sc left lo mid (omega arith) (omega arith) low beyond in
            (i, rw (t, c) found, above, omega arith, both)
      ]
  | inr (t, narrow) ↦
      let next : hi ≡ suc lo = omega arith in
      (lo, rw t (ap (λ (h : ℕ). (lo, h)) next), omega arith, omega arith, (low, rw (← next) high))
]
  where
    beyond_of : (a b : ℕ) → leb a b ≡ false → b < a
    beyond_of a b e = ground arith

module _ {ℓ} {W : Type ℓ} ⦃d : Double W⦄ ⦃sg : Signed W⦄ where
  -- What a subcarrier gets: the first or the last pilot outside of the pilots, and between two
  -- neighbouring ones their blend.
  pub data IsValueAt (h_pilots : List (Complex W)) (pilot_idx : List ℕ) (sc : ℕ) (v : Complex W)
      : Type ℓ where
    before_first :
        sc ≤ get_or pilot_idx 0 0 → v ≡ get_or h_pilots 0 origin → IsValueAt h_pilots pilot_idx sc v
    behind_last :
        get_or pilot_idx (length pilot_idx - 1) 0 ≤ sc
        → v ≡ get_or h_pilots (length h_pilots - 1) origin
        → IsValueAt h_pilots pilot_idx sc v
    between :
        (i : ℕ)
        → suc i < length pilot_idx
        → Encloses pilot_idx sc i
        → v ≡ blend h_pilots pilot_idx sc i (suc i)
        → IsValueAt h_pilots pilot_idx sc v

  at_subcarrier-IsValueAt :
      (h_pilots : List (Complex W)) (idx : List ℕ) (sc : ℕ)
      → 0 < length idx
      → IsValueAt h_pilots idx sc (at_subcarrier h_pilots idx sc)
  at_subcarrier-IsValueAt h_pilots idx sc some_pilot =
      let last : ℕ = length idx - 1 in
      elim (Bool-cases (leb sc (get_or idx 0 0))) [
        | inl t ↦ before_first (leb→le _ _ t) (rw t refl)
        | inr t ↦ elim (Bool-cases (leb (get_or idx last 0) sc)) [
          | inl t2 ↦ behind_last (leb→le _ _ t2) (rw (t, t2) refl)
          | inr t2 ↦
              let low : get_or idx 0 0 < sc = beyond_of sc (get_or idx 0 0) t in
              let high : sc < get_or idx last 0 = beyond_of (get_or idx last 0) sc t2 in
              let apart : 0 < last = apart_of last low high in
              let (i, found, _, below, both) =
                search_lem idx sc last 0 last apart (omega arith) (omega arith) high in
              between i (omega arith) both
                (rw (t, t2) (ap (λ (e : ℕ × ℕ). blend h_pilots idx sc e.0 e.1) found))
        ]
      ]
    where
      beyond_of : (a b : ℕ) → leb a b ≡ false → b < a
      beyond_of a b e = ground arith

      apart_of : (n : ℕ) → get_or idx 0 0 < sc → sc < get_or idx n 0 → 0 < n
      apart_of zero low high = absurd (omega arith)
      apart_of (suc n) low high = omega arith

  -- The interpolation has a value for every subcarrier, and each is what its place among the pilots asks
  -- for: the value of the first pilot up to it, that of the last from there on, and elsewhere the blend of
  -- two pilots i and i + 1 that enclose the subcarrier; the search for them ends and finds them, also where
  -- the indices are not sorted.
  pub interpolate_frequency-IsValueAt :
      (h_pilots out : List (Complex W)) (pilot_idx : List ℕ) (n_sc : ℕ)
      → interpolate_frequency h_pilots pilot_idx n_sc ≡ ok out
      → (length out ≡ n_sc)
        × ((sc : ℕ) → sc < n_sc → IsValueAt h_pilots pilot_idx sc (get_or out sc origin))
  unfolding interpolate_frequency
  interpolate_frequency-IsValueAt h_pilots out pilot_idx n_sc e =
      let (_, e1) = require-eq-ok (length h_pilots == length pilot_idx) "pilot size mismatch" _ e in
      let (pilots, e2) = require-eq-ok (ltb 0 (length pilot_idx)) "no pilots" _ e1 in
      let (_, e3) = require-eq-ok (ltb 0 n_sc) "n_sc" _ e2 in
      let same : tabulate n_sc (λ sc. at_subcarrier h_pilots pilot_idx sc) ≡ out = cc in
      (
        ap length (sym same) ∙ length-tabulate_from 0 n_sc _,
        λ sc p.
            let value : at_subcarrier h_pilots pilot_idx sc ≡ get_or out sc origin =
              sym (get_or-tabulate n_sc _ sc origin p)
              ∙ ap (λ (o : List (Complex W)). get_or o sc origin) same in
            subst (IsValueAt h_pilots pilot_idx sc) value
              (at_subcarrier-IsValueAt h_pilots pilot_idx sc (ltb→lt _ _ pilots)),
      )
