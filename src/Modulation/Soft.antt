-- ===== src/Modulation/Soft.antt =====
-- The signs of the soft bits of a point of the constellation.
use gunnchos_gpu_nr_baseband.Base.{
  ℕ, zero, suc, ◌+◌, ◌-◌, ◌/◌, ◌%◌, ◌^◌, ◌≤◌, ◌<◌, ◌≢◌, inl, inr, ◌≡◌, refl, sym, ap, ap₂, ◌∙◌,
  arith, Bool, true, false, ◌∷◌, if◌then◌else◌, ◌==◌, tabulate_from, Bool-cases, Same-cases,
}
use gunnchos_gpu_nr_baseband.Base.Double.{Double}
use gunnchos_gpu_nr_baseband.Base.Signed.{Signed}
use gunnchos_gpu_nr_baseband.Llr.{llr_to_bits}
use gunnchos_gpu_nr_baseband.Modulation.{Complex, norm, minus, minima, symbol_llr, write_msb}

abbrev own {ℓ} : {W : Type ℓ} → Bool → W → W → W
own true min0 min1 = min0
own false min0 min1 = min1

abbrev other {ℓ} : {W : Type ℓ} → Bool → W → W → W
other true min0 min1 = min1
other false min0 min1 = min0

module _ {ℓ} {W : Type ℓ} ⦃d : Double W⦄ ⦃sg : Signed W⦄ (inv2s : W) (pts : ℕ → Complex W) where
  -- The squared distance of two points.
  abbrev pub square_of : ℕ → ℕ → W
  square_of q p = norm (minus (pts q) (pts p))

  -- A soft bit is positive where the first of two values is the least for 1.
  abbrev pub sign_of : W → W → Bool
  sign_of v w = d.le (d.lit 0 1) (d.mul inv2s (sg.sub v w))

  -- A value that is above the squared distance of point `q` from itself.
  abbrev pub IsAbove : ℕ → W → Type 0
  IsAbove q v =
      (d.lt (square_of q q) v ≡ true)
      × (d.lt v (square_of q q) ≡ false)
      × (sign_of v (square_of q q) ≡ true)
      × (sign_of (square_of q q) v ≡ false)

  -- The first `n` points are apart: infinity, and the squared distances from a point to the others, are
  -- above the squared distance of the point from itself.
  pub record AreApart (n : ℕ) : Type ℓ where
    pub finite : (q : ℕ) → q < n → IsAbove q sg.infinity
    pub others : (q p : ℕ) → q < n → p < n → q ≢ p → IsAbove q (square_of q p)

  -- `min0` and `min1` after a point at the squared distance `d2`.
  abbrev next0 : Bool → W → W → W
  next0 b d2 min0 = if b then if d.lt d2 min0 then d2 else min0 else min0

  abbrev next1 : Bool → W → W → W
  next1 b d2 min1 = if b then min1 else if d.lt d2 min1 then d2 else min1

  least-IsAbove :
      (q : ℕ) (d2 v : W) → IsAbove q d2 → IsAbove q v → IsAbove q (if d.lt d2 v then d2 else v)
  least-IsAbove q d2 v h1 h2 = elim (Bool-cases (d.lt d2 v)) [ inl t ↦ rw t h1 | inr t ↦ rw t h2 ]

  -- A point that is not `q` leaves the minima above the distance of `q` from itself.
  others_stay :
      (q : ℕ) (b c : Bool) (d2 min0 min1 : W)
      → IsAbove q d2
      → IsAbove q (own b min0 min1)
      → IsAbove q (other b min0 min1)
      → IsAbove q (own b (next0 c d2 min0) (next1 c d2 min1))
        × IsAbove q (other b (next0 c d2 min0) (next1 c d2 min1))
  others_stay q true true d2 min0 min1 h h0 h1 = (least-IsAbove q d2 min0 h h0, h1)
  others_stay q true false d2 min0 min1 h h0 h1 = (h0, least-IsAbove q d2 min1 h h1)
  others_stay q false true d2 min0 min1 h h0 h1 = (h0, least-IsAbove q d2 min0 h h1)
  others_stay q false false d2 min0 min1 h h0 h1 = (least-IsAbove q d2 min1 h h0, h1)

  -- Behind `q` the minimum of its side is its distance from itself.
  abbrev Reached : ℕ → Bool → W → W → Type ℓ
  Reached q b min0 min1 = (own b min0 min1 ≡ square_of q q) × IsAbove q (other b min0 min1)

  Reached-at :
      (q : ℕ) (b : Bool) (min0 min1 : W)
      → IsAbove q (own b min0 min1)
      → IsAbove q (other b min0 min1)
      → Reached q b (next0 b (square_of q q) min0) (next1 b (square_of q q) min1)
  Reached-at q true min0 min1 h0 h1 = let closer = h0.0 in (rw closer refl, h1)
  Reached-at q false min0 min1 h0 h1 = let closer = h0.0 in (rw closer refl, h1)

  Reached-stays :
      (q : ℕ) (b c : Bool) (d2 min0 min1 : W)
      → IsAbove q d2
      → Reached q b min0 min1
      → Reached q b (next0 c d2 min0) (next1 c d2 min1)
  Reached-stays q true true d2 min0 min1 h (e, h1) =
      let further : d.lt d2 min0 ≡ false = rw e h.1 in (rw further e, h1)
  Reached-stays q true false d2 min0 min1 h (e, h1) = (e, least-IsAbove q d2 min1 h h1)
  Reached-stays q false true d2 min0 min1 h (e, h1) = (e, least-IsAbove q d2 min0 h h1)
  Reached-stays q false false d2 min0 min1 h (e, h1) =
      let further : d.lt d2 min1 ≡ false = rw e h.1 in (rw further e, h1)

module _ {ℓ} {W : Type ℓ} ⦃d : Double W⦄ ⦃sg : Signed W⦄ (inv2s : W) (pts : ℕ → Complex W) (n : ℕ)
    (apart : AreApart inv2s pts n) (q : ℕ) (below : q < n) (m k : ℕ) where
  -- The side of a point: whether its bit `k` is 0.
  abbrev side : ℕ → Bool
  side p = p / 2 ^ (m - 1 - k) % 2 == 0

  minima_behind :
      (left p : ℕ) (min0 min1 : W)
      → q < p
      → p + left ≤ n
      → Reached inv2s pts q (side q) min0 min1
      → Reached inv2s pts q
          (side q)
          (minima (pts q) m k p (tabulate_from p left pts) min0 min1).0
          (minima (pts q) m k p (tabulate_from p left pts) min0 min1).1
  minima_behind zero p min0 min1 h count reached = reached
  minima_behind (suc left) p min0 min1 h count reached =
      minima_behind left (suc p) _ _ (omega arith) (omega arith) (
        Reached-stays inv2s pts q (side q) (side p) (square_of inv2s pts q p) min0 min1
          (apart.others q p below (omega arith) (λ e. omega arith)) reached)

  minima_before :
      (left p : ℕ) (min0 min1 : W)
      → p ≤ q
      → p + left ≡ n
      → IsAbove inv2s pts q (own (side q) min0 min1)
      → IsAbove inv2s pts q (other (side q) min0 min1)
      → Reached inv2s pts q
          (side q)
          (minima (pts q) m k p (tabulate_from p left pts) min0 min1).0
          (minima (pts q) m k p (tabulate_from p left pts) min0 min1).1
  minima_before zero p min0 min1 h count a0 a1 = absurd (omega arith)
  minima_before (suc left) p min0 min1 h count a0 a1 = elim (Same-cases p q) [
    | inl (t, e) ↦ rw e (
        minima_behind left (suc q) _ _ (omega arith) (omega arith)
          (Reached-at inv2s pts q (side q) min0 min1 a0 a1))
    | inr (t, e) ↦
        let (b0, b1) =
          others_stay inv2s pts q (side q) (side p) (square_of inv2s pts q p) min0 min1
            (apart.others q p below (omega arith) (λ h2. e (sym h2))) a0 a1 in
        minima_before left (suc p) _ _ (omega (arith, e)) (omega arith) b0 b1
  ]

-- The soft bit of a point decides as the bit does.
abbrev decided : Bool → ℕ
decided b = if b then 0 else 1

bit_decided : (b : ℕ) → b < 2 → decided (b == 0) ≡ b
bit_decided zero p = refl
bit_decided (suc zero) p = refl
bit_decided (suc (suc b)) p = absurd (omega arith)

module _ {ℓ} {W : Type ℓ} ⦃d : Double W⦄ ⦃sg : Signed W⦄ (inv2s : W) (pts : ℕ → Complex W) (n : ℕ)
    (apart : AreApart inv2s pts n) (q : ℕ) (below : q < n) where
  Reached-sign :
      (b : Bool) (min0 min1 : W)
      → Reached inv2s pts q b min0 min1
      → d.le (d.lit 0 1) (d.mul inv2s (sg.sub min1 min0)) ≡ b
  Reached-sign true min0 min1 (e, (_, _, up, down)) =
      ap (λ v. d.le (d.lit 0 1) (d.mul inv2s (sg.sub min1 v))) e ∙ up
  Reached-sign false min0 min1 (e, (_, _, up, down)) =
      ap (λ v. d.le (d.lit 0 1) (d.mul inv2s (sg.sub v min0))) e ∙ down

  -- The decisions on the soft bits of a point are the bits of its number.
  pub symbol_llr_bits :
      (m left k : ℕ)
      → k + left ≡ m
      → llr_to_bits (symbol_llr inv2s (tabulate_from 0 n pts) m (pts q) left k) ≡ write_msb left q
  unfolding llr_to_bits
  symbol_llr_bits m zero k count = refl
  symbol_llr_bits m (suc left) k count =
      let side_of : Bool = q / 2 ^ (m - 1 - k) % 2 == 0 in
      let infinite = apart.finite q below in
      let start : IsAbove inv2s pts q (own side_of sg.infinity sg.infinity) =
        own_same side_of infinite in
      let start2 : IsAbove inv2s pts q (other side_of sg.infinity sg.infinity) =
        other_same side_of infinite in
      let reached =
        minima_before inv2s pts n apart q below m k n 0 sg.infinity sg.infinity (omega arith)
          (omega arith) start start2 in
      let place : m - 1 - k ≡ left = omega arith in
      ap₂ ◌∷◌
        (ap decided (Reached-sign side_of _ _ reached)
          ∙ bit_decided (q / 2 ^ (m - 1 - k) % 2) (omega arith)
          ∙ ap (λ (t : ℕ). q / 2 ^ t % 2) place)
        (symbol_llr_bits m left (suc k) (omega arith))
    where
      own_same :
          (b : Bool)
          → IsAbove inv2s pts q sg.infinity
          → IsAbove inv2s pts q (own b sg.infinity sg.infinity)
      own_same true h = h
      own_same false h = h

      other_same :
          (b : Bool)
          → IsAbove inv2s pts q sg.infinity
          → IsAbove inv2s pts q (other b sg.infinity sg.infinity)
      other_same true h = h
      other_same false h = h
