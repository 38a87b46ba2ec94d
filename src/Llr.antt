-- ===== src/Llr.antt =====
-- src/llr.cpp: soft bits from bits, the hard decision, and the addition of soft bits.
use gunnchos_gpu_nr_baseband.Base.{
  ℕ, zero, suc, ◌<◌, ◌≡◌, refl, ap, ap₂, arith, true, false, ◌||◌, All, ◌>>=◌, List, [], ◌∷◌, map,
  if◌then◌else◌, ◌==◌, length, Result, ok, ◌>>◌, require,
}
use gunnchos_gpu_nr_baseband.Base.Double.{Double}
use gunnchos_gpu_nr_baseband.Base.Signed.{Signed}

module _ {ℓ} {W : Type ℓ} ⦃d : Double W⦄ where
  unfoldable pub llr_to_bits : List W → List ℕ
  llr_to_bits llr = map (λ x. if d.le (d.lit 0 1) x then 0 else 1) llr

  -- The sums at the places that both have.
  abbrev pub add_each : List W → List W → List W
  add_each [] bs = []
  add_each (a ∷ more) [] = []
  add_each (a ∷ more) (b ∷ bs) = d.add a b ∷ add_each more bs

  unfoldable pub llr_combine : List W → List W → Result (List W)
  llr_combine a b = do require (length a == length b) "llr_combine size mismatch"; ok (add_each a b)

  pub length-add_each : (a b : List W) → length a ≡ length b → length (add_each a b) ≡ length b
  length-add_each [] [] e = refl
  length-add_each [] (b ∷ bs) e = absurd (omega arith)
  length-add_each (a ∷ more) [] e = absurd (omega arith)
  length-add_each (a ∷ more) (b ∷ bs) e = ap suc (length-add_each more bs (omega arith))

module _ {ℓ} {W : Type ℓ} ⦃s : Signed W⦄ where
  unfoldable pub bits_to_llr : List ℕ → W → Result (List W)
  bits_to_llr [] magnitude = ok []
  bits_to_llr (b ∷ bits) magnitude =
      let rest = bits_to_llr bits magnitude in
      require (b == 0 || b == 1) "bits 0/1"
      >> (rest >>= λ llr. ok ((if b == 0 then magnitude else s.neg magnitude) ∷ llr))

module _ {ℓ} {W : Type ℓ} ⦃d : Double W⦄ ⦃s : Signed W⦄ (magnitude : W)
    (positive : d.le (d.lit 0 1) magnitude ≡ true)
    (negative : d.le (d.lit 0 1) (s.neg magnitude) ≡ false) where
  -- Bits that are made soft decide as they were.
  pub bits_to_llr_bits :
      (bits : List ℕ)
      → All (λ b. b < 2) bits
      → (llr : List W) × (bits_to_llr bits magnitude ≡ ok llr) × (llr_to_bits llr ≡ bits)
  unfolding bits_to_llr llr_to_bits
  bits_to_llr_bits [] fine = ([], refl, refl)
  bits_to_llr_bits (zero ∷ bits) fine =
      let (llr, made, same) = bits_to_llr_bits bits fine.1 in
      (magnitude ∷ llr, rw made refl, ap₂ ◌∷◌ (rw positive refl) same)
  bits_to_llr_bits (suc zero ∷ bits) fine =
      let (llr, made, same) = bits_to_llr_bits bits fine.1 in
      (s.neg magnitude ∷ llr, rw made refl, ap₂ ◌∷◌ (rw negative refl) same)
  bits_to_llr_bits (suc (suc b) ∷ bits) fine = absurd (omega (arith, fine.0))
