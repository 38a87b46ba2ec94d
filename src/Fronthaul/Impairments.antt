-- ===== src/Fronthaul/Impairments.antt =====
-- What the impairments do to a sequence of packets.
use mathlib.Core.List.{Perm, Sublistᴰ}
use mathlib.Core.List.Perm
use mathlib.Core.Path.{subst}
use gunnchos_gpu_nr_baseband.Base.{
  append-nil, ℕ, zero, suc, ◌%◌, inl, inr, ◌≡◌, refl, sym, ap, Bool, true, false, ◌&&◌, List, [],
  ◌∷◌, ◌++◌, map, if◌then◌else◌, leb, length, take, drop, take-append-drop, Bool-cases,
}
use gunnchos_gpu_nr_baseband.Base.Int.{ℤ, pos, negsuc}
use gunnchos_gpu_nr_baseband.Base.Double.{Double}
use gunnchos_gpu_nr_baseband.Base.Signed.{Signed}
use gunnchos_gpu_nr_baseband.Fronthaul.{
  EcpriMeta, FhPacket, FhImpairments, is_empty, last_of, before_last, swap_ends, rotate_by,
  corrupted, pass_on, reorder, apply_impairments,
}

module _ {ℓ} {P : Type ℓ} where
  last-split : (x : P) (xs : List P) → before_last x xs ++ (last_of x xs ∷ []) ≡ x ∷ xs
  last-split x [] = refl
  last-split x (y ∷ ys) = ap (◌∷◌ x) (last-split y ys)

  move_front : (x : P) (xs : List P) → Perm (xs ++ (x ∷ [])) (x ∷ xs)
  move_front x [] = Perm.refl (x ∷ [])
  move_front x (y ∷ ys) = Perm.trans (Perm.cons y (move_front x ys)) (Perm.swap x y ys)

  swap_ends-Perm : (xs : List P) → Perm (swap_ends xs) xs
  swap_ends-Perm [] = Perm.refl []
  swap_ends-Perm (x ∷ []) = Perm.refl (x ∷ [])
  swap_ends-Perm (x ∷ y ∷ ys) =
      let l : P = last_of y ys in
      let front : List P = before_last y ys in
      let inner : Perm (l ∷ front) (y ∷ ys) =
        subst (λ (zs : List P). Perm (l ∷ front) zs) (last-split y ys)
          (Perm.symm (move_front l front)) in
      Perm.trans (Perm.cons l (move_front x front))
        (Perm.trans (Perm.swap x l front) (Perm.cons x inner))

  middle_Perm : (x : P) (ys xs : List P) → Perm (x ∷ (ys ++ xs)) (ys ++ (x ∷ xs))
  middle_Perm x [] xs = Perm.refl (x ∷ xs)
  middle_Perm x (y ∷ ys) xs =
      Perm.trans (Perm.swap y x (ys ++ xs)) (Perm.cons y (middle_Perm x ys xs))

  halves_Perm : (xs ys : List P) → Perm (xs ++ ys) (ys ++ xs)
  halves_Perm [] ys = subst (Perm ys) (sym (append-nil ys)) (Perm.refl ys)
  halves_Perm (x ∷ xs) ys = Perm.trans (Perm.cons x (halves_Perm xs ys)) (middle_Perm x ys xs)

  rotate_by-Perm : (delay : ℤ) (out : List P) → Perm (rotate_by delay out) out
  rotate_by-Perm (pos zero) out = Perm.refl out
  rotate_by-Perm (pos (suc n)) [] = Perm.refl []
  rotate_by-Perm (pos (suc n)) (x ∷ out) =
      let d : ℕ = suc n % length (x ∷ out) in
      subst (Perm (drop d (x ∷ out) ++ take d (x ∷ out))) (take-append-drop d (x ∷ out))
        (halves_Perm (drop d (x ∷ out)) (take d (x ∷ out)))
  rotate_by-Perm (negsuc n) out = Perm.refl out

module _ {ℓ} {W : Type ℓ} ⦃d : Double W⦄ ⦃sg : Signed W⦄ (imp : FhImpairments W) where
  reorder-Perm : (draw : W) (out : List (FhPacket W)) → Perm (reorder imp draw out) out
  reorder-Perm draw out =
      elim (Bool-cases
        (d.lt (d.lit 0 1) imp.reorder_prob && (leb 2 (length out) && d.lt draw imp.reorder_prob))) [
          | inl t ↦
              rw t
                (Perm.trans (rotate_by-Perm imp.delay_packets (swap_ends out)) (swap_ends-Perm out))
          | inr t ↦ rw t (rotate_by-Perm imp.delay_packets out)
        ]

  abbrev metas : List (FhPacket W) → List EcpriMeta
  metas pkts = map (λ (p : FhPacket W). p.meta) pkts

  kept_meta :
      (hit : Bool) (p : FhPacket W)
      → (if hit then if is_empty p.iq then p else corrupted p else p).meta ≡ p.meta
  kept_meta false p = refl
  kept_meta true p = elim (Bool-cases (is_empty p.iq)) [ inl t ↦ rw t refl | inr t ↦ rw t refl ]

  pass_on-Sublist :
      (draws : ℕ → W) (k : ℕ) (pkts : List (FhPacket W))
      → Sublistᴰ (metas (pass_on imp draws k pkts).0) (metas pkts)
  pass_on-Sublist draws k [] = Sublistᴰ.slnil
  pass_on-Sublist draws k (p ∷ pkts) = elim (Bool-cases (d.lt (draws k) imp.loss_prob)) [
    | inl t ↦ rw t (Sublistᴰ.cons (pass_on-Sublist draws (suc k) pkts))
    | inr t ↦ rw t (
        Sublistᴰ.cons-cons (kept_meta (d.lt (draws (suc k)) imp.corrupt_prob) p)
          (pass_on-Sublist draws (suc (suc k)) pkts))
  ]

  pass_on_all :
      (draws : ℕ → W) (k : ℕ) (pkts : List (FhPacket W))
      → ((i : ℕ) → d.lt (draws i) imp.loss_prob ≡ false)
      → ((i : ℕ) → d.lt (draws i) imp.corrupt_prob ≡ false)
      → (pass_on imp draws k pkts).0 ≡ pkts
  pass_on_all draws k [] none_lost none_hit = refl
  pass_on_all draws k (p ∷ pkts) none_lost none_hit =
      rw (none_lost k, none_hit (suc k))
        (ap (◌∷◌ p) (pass_on_all draws (suc (suc k)) pkts none_lost none_hit))

  -- Packets are only lost, changed in their payload, and reordered: whatever is drawn, the output is a
  -- permutation of packets whose metadata are a subsequence of those of the input.
  pub apply_impairments-Sublist :
      (random : ℕ → ℕ → W) (pkts : List (FhPacket W))
      → (passed : List (FhPacket W)) × Perm (apply_impairments imp random pkts) passed
        × Sublistᴰ (map (λ (p : FhPacket W). p.meta) passed) (map (λ (p : FhPacket W). p.meta) pkts)
  unfolding apply_impairments
  apply_impairments-Sublist random pkts =
      let passed = pass_on imp (random imp.seed) 0 pkts in
      (
        passed.0,
        reorder-Perm (random imp.seed passed.1) passed.0,
        pass_on-Sublist (random imp.seed) 0 pkts,
      )

  -- Where no draw is below the probabilities of a loss and of a corruption, the output is a permutation of
  -- the input, payloads included.
  apply_impairments-Perm :
      (random : ℕ → ℕ → W) (pkts : List (FhPacket W))
      → ((i : ℕ) → d.lt (random imp.seed i) imp.loss_prob ≡ false)
      → ((i : ℕ) → d.lt (random imp.seed i) imp.corrupt_prob ≡ false)
      → Perm (apply_impairments imp random pkts) pkts
  unfolding apply_impairments
  apply_impairments-Perm random pkts none_lost none_hit =
      let passed = pass_on imp (random imp.seed) 0 pkts in
      subst (Perm (apply_impairments imp random pkts))
        (pass_on_all (random imp.seed) 0 pkts none_lost none_hit)
        (reorder-Perm (random imp.seed passed.1) passed.0)
