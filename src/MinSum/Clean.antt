-- ===== src/MinSum/Clean.antt =====
-- What the iterations do where the hard decisions of their input pass the test.
use gunnchos_gpu_nr_baseband.Base.{
  ℕ, zero, suc, ◌<◌, ◌≡◌, refl, sym, ap, ◌∙◌, arith, Bool, true, false, if◌then◌else◌, List, [],
  ◌∷◌, map, length, get_or, take, replicate, All, length-map, length-tabulate_from, get_or-tabulate,
  get_or-replicate, get_or_ext,
}
use gunnchos_gpu_nr_baseband.Base.Int.{ℤ}
use gunnchos_gpu_nr_baseband.Base.Double.{Double}
use gunnchos_gpu_nr_baseband.Base.Signed.{Signed}
use gunnchos_gpu_nr_baseband.Llr.{llr_to_bits}
use gunnchos_gpu_nr_baseband.Parity.Rows.{IsBit}
use gunnchos_gpu_nr_baseband.Ldpc.Graph.{SparseEdge}
use gunnchos_gpu_nr_baseband.MinSum.{
  Tables, tables_of, checks_even, add_messages, hard_of, app_of, iterate, rounds_of, minsum,
}

get_or-map {ℓ} :
    {A : Type ℓ} (f : A → ℕ) (xs : List A) (i : ℕ) (a : A) (b : ℕ)
    → i < length xs
    → get_or (map f xs) i b ≡ f (get_or xs i a)
get_or-map f [] i a b p = absurd (omega arith)
get_or-map f (x ∷ xs) zero a b p = refl
get_or-map f (x ∷ xs) (suc i) a b p = get_or-map f xs i a b (omega arith)

-- The bit of a sign.
abbrev choice : Bool → ℕ
choice b = if b then 0 else 1

module _ {ℓ} {W : Type ℓ} ⦃d : Double W⦄
    (adds_zero : (x : W) → d.le (d.lit 0 1) (d.add x (d.lit 0 1)) ≡ d.le (d.lit 0 1) x) where
  -- Messages that are 0 leave the decision of a bit.
  add_messages_zero :
      (size : ℕ) (els : List ℕ) (sum : W)
      → d.le (d.lit 0 1) (add_messages (replicate size (d.lit 0 1)) els sum) ≡ d.le (d.lit 0 1) sum
  add_messages_zero size [] sum = refl
  add_messages_zero size (ei ∷ els) sum =
      add_messages_zero size els _
      ∙ ap (λ x. d.le (d.lit 0 1) (d.add sum x)) (get_or-replicate size (d.lit 0 1) ei)
      ∙ adds_zero sum

  abbrev decision : W → ℕ
  decision x = if d.le (d.lit 0 1) x then 0 else 1

  silent_hard :
      (n size : ℕ) (t : Tables) (llr : List W)
      → length llr ≡ n
      → hard_of n (app_of n t llr (replicate size (d.lit 0 1))) ≡ llr_to_bits llr
  unfolding llr_to_bits
  silent_hard n size t llr long =
      let silent : List W = replicate size (d.lit 0 1) in
      get_or_ext _ _ 0 (length-tabulate_from 0 n _ ∙ sym (length-map _ llr ∙ long)) (λ j p.
        let below : j < n = omega (
          arith,
          length-tabulate_from 0 n (λ i. decision (get_or (app_of n t llr silent) i (d.lit 0 1))),
        ) in
        get_or-tabulate n _ j 0 below
        ∙ ap decision (get_or-tabulate n _ j (d.lit 0 1) below)
        ∙ ap (λ (b : Bool). choice b)
            (add_messages_zero size (get_or t.var_edges j []) (get_or llr j (d.lit 0 1)))
        ∙ sym (get_or-map decision llr j (d.lit 0 1) 0 (omega arith)))

module _ {ℓ} {W : Type ℓ} ⦃d : Double W⦄ ⦃s : Signed W⦄
    (adds_zero : (x : W) → d.le (d.lit 0 1) (d.add x (d.lit 0 1)) ≡ d.le (d.lit 0 1) x) where
  iterate_clean :
      (n m rounds size : ℕ) (t : Tables) (llr v2c : List W)
      → length llr ≡ n
      → checks_even t (llr_to_bits llr) m 0 ≡ true
      → iterate n m t llr rounds (replicate size (d.lit 0 1)) v2c ≡ llr_to_bits llr
  iterate_clean n m zero size t llr v2c long even = silent_hard adds_zero n size t llr long
  iterate_clean n m (suc left) size t llr v2c long even =
      rw (silent_hard adds_zero n size t llr long, even) refl

  -- Whatever the number of iterations, the decoder returns the first of the hard decisions.
  pub minsum_clean :
      (n k m : ℕ) (edges : List SparseEdge) (llr : List W) (max_iter : ℤ)
      → length llr ≡ n
      → checks_even (tables_of n m edges) (llr_to_bits llr) m 0 ≡ true
      → minsum n k m edges llr max_iter ≡ take k (llr_to_bits llr)
  minsum_clean n k m edges llr max_iter long even = ap (take k) (
      iterate_clean n m (rounds_of max_iter) (length edges) (tables_of n m edges) llr
        (replicate (length edges) (d.lit 0 1)) long even)

choice-IsBit : (b : Bool) → IsBit (choice b)
choice-IsBit true = omega arith
choice-IsBit false = omega arith

module _ {ℓ} {W : Type ℓ} ⦃d : Double W⦄ where
  pub llr_to_bits-IsBit : (llr : List W) → All IsBit (llr_to_bits llr)
  unfolding llr_to_bits
  llr_to_bits-IsBit [] = tt
  llr_to_bits-IsBit (x ∷ llr) = (choice-IsBit (d.le (d.lit 0 1) x), llr_to_bits-IsBit llr)
