-- ===== src/Base/Wrap.antt =====
-- Places in a round of `n`, and their distances from a start.
use native.Mathlib.Nat.{
  mod-lt, mod-eq_of_lt, mod-add-mod, add-mod-mod, add-mod_right, mod-eq-sub-mod,
}
use gunnchos_gpu_nr_baseband.Base.{
  ℕ, ◌+◌, ◌-◌, ◌%◌, ◌≤◌, ◌<◌, ◌≡◌, sym, ap, ◌∙◌, arith, ltb, ltb→lt, Bool-cases, inl, inr,
}

-- How far place `j` is from the start `k` in a buffer of `n`.
abbrev pub distance : ℕ → ℕ → ℕ → ℕ
distance k n j = (j + n - k % n) % n

pub distance-lt : (k n j : ℕ) → 0 < n → distance k n j < n
distance-lt k n j h = mod-lt (j + n - k % n) h

pub mod-distance : (k n j : ℕ) → j < n → (k + distance k n j) % n ≡ j
mod-distance k n j h =
    let below : k % n < n = mod-lt k (omega arith) in
    let back : k % n + (j + n - k % n) ≡ j + n = omega arith in
    sym (mod-add-mod k n (distance k n j))
    ∙ add-mod-mod (k % n) (j + n - k % n) n
    ∙ ap (λ (t : ℕ). t % n) back
    ∙ add-mod_right j n
    ∙ mod-eq_of_lt h

-- Within a round the distance is the number of steps.
pub distance-mod : (k n i : ℕ) → i < n → distance k n ((k + i) % n) ≡ i
distance-mod k n i h =
    let below : k % n < n = mod-lt k (omega arith) in
    let same : (k + i) % n ≡ (k % n + i) % n = sym (mod-add-mod k n i) in
    elim (Bool-cases (ltb (k % n + i) n)) [
      | inl near ↦
          let place : (k + i) % n ≡ k % n + i = same ∙ mod-eq_of_lt (ltb→lt _ n near) in
          let round : (k + i) % n + n - k % n ≡ i + n = omega arith in
          ap (λ (t : ℕ). t % n) round ∙ add-mod_right i n ∙ mod-eq_of_lt h
      | inr far ↦
          let over : n ≤ k % n + i = ground arith in
          let place : (k + i) % n ≡ k % n + i - n =
            same ∙ mod-eq-sub-mod over ∙ mod-eq_of_lt (omega arith) in
          let round : (k + i) % n + n - k % n ≡ i = omega arith in
          ap (λ (t : ℕ). t % n) round ∙ mod-eq_of_lt h
    ]
