-- ===== src/RateMatching/Combine.antt =====
-- What `rate_dematch` makes of the soft bits.
use native.Mathlib.Nat.{mod-lt, mod-eq_of_lt}
use mathlib.Core.Bool.{true≢false}
use gunnchos_gpu_nr_baseband.Base.{
  ℕ, zero, suc, ◌+◌, ◌-◌, ◌%◌, ◌≤◌, ◌<◌, ◌≡◌, ◌≢◌, refl, sym, ap, ◌∙◌, arith, List, [], ◌∷◌, ◌++◌,
  append-nil, append_assoc, if◌then◌else◌, ◌==◌, ==_iff, lt→ltb, length, get_or, set, take,
  replicate, length-set, length-append, length-replicate, get_or-set_self, get_or-set_ne,
  get_or-append_left, get_or-append_right, get_or-replicate, String, Result, ok, ◌>>=◌, Bool-cases,
  inl, inr,
}
use gunnchos_gpu_nr_baseband.Base.Double.{Double}
use gunnchos_gpu_nr_baseband.RateMatching.{
  RateMatchConfig, start_offset, punch, buffer_size, nought, accumulate, spread, rate_dematch,
}
use gunnchos_gpu_nr_baseband.RateMatching.Select.{offset, start_offset-offset, check_punch-passes}

take-set {ℓ} :
    {A : Type ℓ} (xs : List A) (k : ℕ) (v : A)
    → k < length xs
    → take (suc k) (set xs k v) ≡ take k xs ++ (v ∷ [])
take-set [] k v h = absurd (omega arith)
take-set (x ∷ xs) zero v h = refl
take-set (x ∷ xs) (suc k) v h = ap (◌∷◌ x) (take-set xs k v (omega arith))

take-replicate {ℓ} : {A : Type ℓ} (k n : ℕ) (a : A) → k ≤ n → take k (replicate n a) ≡ replicate k a
take-replicate zero n a h = refl
take-replicate (suc k) zero a h = absurd (omega arith)
take-replicate (suc k) (suc n) a h = ap (◌∷◌ a) (take-replicate k n a (omega arith))

take_whole {ℓ} : {A : Type ℓ} (k : ℕ) (xs : List A) → k ≡ length xs → take k xs ≡ xs
take_whole zero [] e = refl
take_whole zero (x ∷ xs) e = absurd (omega arith)
take_whole (suc k) [] e = absurd (omega arith)
take_whole (suc k) (x ∷ xs) e = ap (◌∷◌ x) (take_whole k xs (omega arith))

module _ {ℓ} {W : Type ℓ} ⦃d : Double W⦄ where
  -- The soft bits for place `j` of the buffer, added in their order.
  abbrev pub combined : (k0 n j i : ℕ) → W → List W → W
  combined k0 n j i acc [] = acc
  combined k0 n j i acc (x ∷ xs) =
      combined k0 n j (suc i) (if (k0 + i) % n == j then d.add acc x else acc) xs

  length-accumulate :
      (k0 n i : ℕ) (xs buf : List W) → length (accumulate k0 n i xs buf) ≡ length buf
  length-accumulate k0 n i [] buf = refl
  length-accumulate k0 n i (x ∷ xs) buf =
      length-accumulate k0 n (suc i) xs _ ∙ length-set buf ((k0 + i) % n) _

  accumulate-combined :
      (k0 n i : ℕ) (xs buf : List W) (j : ℕ)
      → length buf ≡ n
      → j < n
      → get_or (accumulate k0 n i xs buf) j nought ≡ combined k0 n j i (get_or buf j nought) xs
  accumulate-combined k0 n i [] buf j size h = refl
  accumulate-combined k0 n i (x ∷ xs) buf j size h =
      let place : ℕ = (k0 + i) % n in
      let below : place < n = mod-lt (k0 + i) (omega arith) in
      let inside : place < length buf = omega arith in
      let sum : W = d.add (get_or buf place nought) x in
      let rest =
        accumulate-combined k0 n (suc i) xs (set buf place sum) j (length-set buf place sum ∙ size)
          h in
      elim (Bool-cases (place == j)) [
        | inl here ↦
            let same : place ≡ j = (==_iff place j).0 here in
            let first : get_or (set buf place sum) j nought ≡ d.add (get_or buf j nought) x =
              ap (λ (t : ℕ). get_or (set buf place sum) t nought) (sym same)
              ∙ get_or-set_self buf place sum nought inside
              ∙ ap (λ (t : ℕ). d.add (get_or buf t nought) x) same in
            rw here (rest ∙ ap (λ w. combined k0 n j (suc i) w xs) first)
        | inr there ↦
            let apart : place ≢ j = λ e. true≢false (sym ((==_iff place j).1 e) ∙ there) in
            rw there (
              rest
              ∙ ap (λ w. combined k0 n j (suc i) w xs) (get_or-set_ne buf place j sum nought apart))
      ]

  spread-append :
      (p span i : ℕ) (buf full : List W)
      → i + length buf ≤ span
      → length full ≡ p + i + length buf
      → spread p span i buf full ≡ take (p + i) full ++ buf
  spread-append p span i [] full short size =
      sym (append-nil (take (p + i) full) ∙ take_whole (p + i) full (omega arith))
  spread-append p span i (x ∷ buf) full short size =
      let place : p + i % span ≡ p + i =
        ap (λ (t : ℕ). p + t) (mod-eq_of_lt {n = i} {m = span} (omega arith)) in
      let next : p + suc i ≡ suc (p + i) = omega arith in
      ap (λ (t : ℕ). spread p span (suc i) buf (set full t x)) place
      ∙ spread-append p span (suc i) buf (set full (p + i) x) (omega arith)
          (omega (arith, length-set full (p + i) x))
      ∙ ap (λ (t : ℕ). take t (set full (p + i) x) ++ buf) next
      ∙ ap (λ t. t ++ buf) (take-set full (p + i) x (omega arith))
      ∙ append_assoc (take (p + i) full) (x ∷ []) buf

  -- `rate_dematch` with a derived buffer size fails for no block that is longer than what is punctured.
  -- It gives the punctured bits no information, and bit j behind them the sum, in their order, of the
  -- soft bits whose place (offset + i) mod n_cb is j.
  pub rate_dematch_lem :
      (llr_e : List W) (cfg : RateMatchConfig) (n : ℕ)
      → cfg.n_cb ≡ 0
      → punch cfg < n
      → (out : List W) × (rate_dematch llr_e cfg n ≡ ok out)
        × (length out ≡ n)
        × ((m : ℕ) → m < punch cfg → get_or out m nought ≡ nought)
        × ((j : ℕ)
            → punch cfg + j < n
            → get_or out (punch cfg + j) nought
              ≡ combined (offset cfg (n - punch cfg)) (n - punch cfg) j 0 nought llr_e)
  unfolding rate_dematch
  rate_dematch_lem llr_e cfg n derived long =
      let p : ℕ = punch cfg in
      let span : ℕ = n - p in
      let k0 : ℕ = offset cfg span in
      let sizes : buffer_size cfg span ≡ span = rw derived refl in
      let start : start_offset cfg span ≡ ok k0 = start_offset-offset cfg span (omega arith) in
      let some_bits : 0 < n = omega arith in
      let text : String = "n_coded too short for 2Z puncture" in
      let behind : ℕ → Result (List W) = λ (n_cb : ℕ). start_offset cfg n_cb >>= λ k.
      ok (
        spread p span 0 (accumulate k n_cb 0 llr_e (replicate n_cb nought)) (replicate n nought)) in
      let empty : List W = replicate span nought in
      let empty_size : length empty ≡ span = length-replicate span nought in
      let buf : List W = accumulate k0 span 0 llr_e empty in
      let buf_size : length buf ≡ span = length-accumulate k0 span 0 llr_e empty ∙ empty_size in
      let full : List W = replicate n nought in
      let full_size : length full ≡ n = length-replicate n nought in
      let zeros : List W = replicate p nought in
      let zeros_size : length zeros ≡ p = length-replicate p nought in
      let starts : behind span ≡ ok (spread p span 0 buf full) = rw start refl in
      let plus : p + 0 ≡ p = omega arith in
      let spreads : spread p span 0 buf full ≡ zeros ++ buf =
        spread-append p span 0 buf full (omega arith) (omega arith)
        ∙ ap (λ (t : ℕ). take t full ++ buf) plus
        ∙ ap (λ t. t ++ buf) (take-replicate p n nought (omega arith)) in
      (
        zeros ++ buf,
        rw (lt→ltb 0 n some_bits, check_punch-passes cfg n text long)
            (ap behind sizes ∙ starts ∙ ap ok spreads),
        omega (arith, length-append zeros buf),
        λ m h. get_or-append_left zeros buf m nought (omega arith) ∙ get_or-replicate p nought m,
        λ j h.
            get_or-append_right zeros buf j (p + j) nought (omega arith)
            ∙ accumulate-combined k0 span 0 llr_e empty j empty_size (omega arith)
            ∙ ap (λ w. combined k0 span j 0 w llr_e) (get_or-replicate span nought j),
      )
