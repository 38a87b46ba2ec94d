-- ===== src/RateMatching/Recover.antt =====
-- `rate_dematch` after `rate_match`.
use mathlib.Core.Bool.{true≢false}
use native.Mathlib.Nat.{mod-eq_of_lt}
use gunnchos_gpu_nr_baseband.Base.{
  ℕ, zero, suc, ◌+◌, ◌-◌, ◌%◌, ◌≤◌, ◌<◌, ◌≡◌, refl, sym, ap, ◌∙◌, arith, false, List, [], ◌∷◌, ◌++◌,
  map, ◌==◌, ==_iff, ltb, ltb→lt, length, get_or, drop, replicate, tabulate, length-append,
  length-replicate, length-map, length-drop, length-tabulate_from, get_or-append_left,
  get_or-append_right, get_or-replicate, get_or-drop, get_or-tabulate, get_or_ext, ok, Bool-cases,
  inl, inr,
}
use gunnchos_gpu_nr_baseband.Base.Double.{Double}
use gunnchos_gpu_nr_baseband.RateMatching.{
  RateMatchConfig, punch, buffer_size, nought, rate_match, rate_dematch,
}
use gunnchos_gpu_nr_baseband.Base.Wrap.{distance, distance-lt, mod-distance, distance-mod}
use gunnchos_gpu_nr_baseband.RateMatching.Select.{offset, selected, rate_match_lem}
use gunnchos_gpu_nr_baseband.RateMatching.Combine.{combined, rate_dematch_lem}

get_or-map {ℓ κ} :
    {A : Type ℓ} {B : Type κ} (f : A → B) (xs : List A) (i : ℕ) (a : A) (b : B)
    → i < length xs
    → get_or (map f xs) i b ≡ f (get_or xs i a)
get_or-map f [] i a b h = absurd (omega arith)
get_or-map f (x ∷ xs) zero a b h = refl
get_or-map f (x ∷ xs) (suc i) a b h = get_or-map f xs i a b (omega arith)

module _ (k0 n j : ℕ) (inside : j < n) where
  hit : (i : ℕ) → i < n → ((k0 + i) % n == j) ≡ (i == distance k0 n j)
  hit i h = elim (Bool-cases (i == distance k0 n j)) [
    | inl here ↦
        let same : i ≡ distance k0 n j = (==_iff i _).0 here in
        (==_iff _ j).1 (ap (λ (t : ℕ). (k0 + t) % n) same ∙ mod-distance k0 n j inside) ∙ sym here
    | inr there ↦ elim (Bool-cases ((k0 + i) % n == j)) [
      | inl back ↦
          let same : i ≡ distance k0 n j =
            sym (distance-mod k0 n i h) ∙ ap (λ (t : ℕ). distance k0 n t) ((==_iff _ j).0 back) in
          absurd (true≢false (sym ((==_iff i _).1 same) ∙ there))
      | inr apart ↦ apart ∙ sym there
    ]
  ]

module _ {ℓ} {W : Type ℓ} ⦃d : Double W⦄ (k0 n j : ℕ) (inside : j < n) where
  combined_past :
      (i : ℕ) (acc : W) (xs : List W)
      → distance k0 n j < i
      → i + length xs ≤ n
      → combined k0 n j i acc xs ≡ acc
  combined_past i acc [] past round = refl
  combined_past i acc (x ∷ xs) past round =
      let other : (i == distance k0 n j) ≡ false = ground arith in
      rw (hit k0 n j inside i (omega arith), other)
        (combined_past (suc i) acc xs (omega arith) (omega arith))

  combined_once :
      (i : ℕ) (acc : W) (xs : List W)
      → i ≤ distance k0 n j
      → distance k0 n j < i + length xs
      → i + length xs ≤ n
      → combined k0 n j i acc xs ≡ d.add acc (get_or xs (distance k0 n j - i) nought)
  combined_once i acc [] low high round = absurd (omega arith)
  combined_once i acc (x ∷ xs) low high round = elim (Bool-cases (i == distance k0 n j)) [
    | inl here ↦
        let start : distance k0 n j - i ≡ 0 = ground arith in
        rw (hit k0 n j inside i (omega arith), here, start)
          (combined_past (suc i) (d.add acc x) xs (ground arith) (omega arith))
    | inr there ↦
        let next : distance k0 n j - i ≡ suc (distance k0 n j - suc i) = ground arith in
        rw (hit k0 n j inside i (omega arith), there, next)
          (combined_once (suc i) acc xs (ground arith) (omega arith) (omega arith))
  ]

module _ {ℓ} {W : Type ℓ} ⦃d : Double W⦄ where
  zeros_then :
      (p : ℕ) (soft rest : List W)
      → length soft ≡ p + length rest
      → ((m : ℕ) → m < p → get_or soft m nought ≡ nought)
      → ((j : ℕ) → j < length rest → get_or soft (p + j) nought ≡ get_or rest j nought)
      → soft ≡ replicate p nought ++ rest
  zeros_then p soft rest size front back =
      let zeros : List W = replicate p nought in
      let zeros_size : length zeros ≡ p = length-replicate p nought in
      get_or_ext soft (zeros ++ rest) nought (omega (arith, length-append zeros rest)) (λ m h.
        elim (Bool-cases (ltb m p)) [
          | inl before ↦
              front m (ltb→lt m p before)
              ∙ sym (
                  get_or-append_left zeros rest m nought (ground arith)
                  ∙ get_or-replicate p nought m)
          | inr behind ↦
              let place : m ≡ p + (m - p) = ground arith in
              ap (λ (t : ℕ). get_or soft t nought) place
              ∙ back (m - p) (omega arith)
              ∙ sym (get_or-append_right zeros rest (m - p) m nought (omega arith))
        ])

  -- Where the output is as long as the derived buffer and adding to zero changes nothing, the soft bits
  -- that stand for the output give each sent bit its own soft bit back, and none to the punctured ones.
  pub rate_dematch-rate_match :
      ((x : W) → d.add nought x ≡ x)
      → (f : ℕ → W) (coded : List ℕ) (cfg : RateMatchConfig) → cfg.n_cb ≡ 0
      → punch cfg < length coded
      → cfg.e_bits ≡ length coded - punch cfg
      → (out : List ℕ) × (rate_match coded cfg ≡ ok out)
        × (rate_dematch (map f out) cfg (length coded)
            ≡ ok (replicate (punch cfg) nought ++ map f (drop (punch cfg) coded)))
  rate_dematch-rate_match law f coded cfg derived long round =
      let p : ℕ = punch cfg in
      let n : ℕ = length coded - p in
      let k0 : ℕ = offset cfg n in
      let out : List ℕ = tabulate cfg.e_bits (selected coded cfg) in
      let out_size : length out ≡ n =
        length-tabulate_from 0 cfg.e_bits (selected coded cfg) ∙ round in
      let soft_size : length (map f out) ≡ n = length-map f out ∙ out_size in
      let (soft, made, size, unsent, sent) =
        rate_dematch_lem (map f out) cfg (length coded) derived long in
      let rest : List W = map f (drop p coded) in
      let rest_size : length rest ≡ n = length-map f (drop p coded) ∙ length-drop p coded in
      let sizes : buffer_size cfg n ≡ n = rw derived refl in
      let own : (j : ℕ) → j < n → get_or soft (p + j) nought ≡ f (get_or coded (p + j) 0) = λ j h.
        let i : ℕ = distance k0 n j in
        let i_below : i < n = distance-lt k0 n j (omega arith) in
        let zero_back : i - 0 ≡ i = omega arith in
        sent j (omega arith)
        ∙ combined_once k0 n j h 0 nought (map f out) (omega arith) (omega arith) (omega arith)
        ∙ law _
        ∙ ap (λ (t : ℕ). get_or (map f out) t nought) zero_back
        ∙ get_or-map f out i 0 nought (omega arith)
        ∙ ap f (
            get_or-tabulate cfg.e_bits (selected coded cfg) i 0 (omega arith)
            ∙ ap (λ (t : ℕ). get_or coded (p + (offset cfg t + i) % t % n) 0) sizes
            ∙ ap (λ (t : ℕ). get_or coded (p + t % n) 0) (mod-distance k0 n j h)
            ∙ ap (λ (t : ℕ). get_or coded (p + t) 0) (mod-eq_of_lt h)) in
      let all : soft ≡ replicate p nought ++ rest =
        zeros_then p soft rest (omega arith) unsent (λ j h.
          let inside : j < length (drop p coded) = omega (arith, length-map f (drop p coded)) in
          own j (omega arith)
          ∙ ap f (sym (get_or-drop p coded j 0))
          ∙ sym (get_or-map f (drop p coded) j 0 nought inside)) in
      (out, rate_match_lem coded cfg long (omega arith), made ∙ ap ok all)
