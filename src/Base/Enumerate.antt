-- ===== src/Base/Enumerate.antt =====
-- Tests of all words of a number of bits, and what they say of each.
use Prim.Native.Nat.{ℕ, zero, suc, ◌<◌}
use mathlib.Core.Path.{◌≡◌, refl, ap₂}
use mathlib.Core.Logic.{inl, inr}
use mathlib.Core.Bool.{Bool, true, false, ◌&&◌}
use mathlib.Core.List.{List, [], ◌∷◌}
use native.Mathlib.Omega.{arith}
use gunnchos_gpu_nr_baseband.Base.Tests.{◌==◌, ==_iff, Same-cases}
use gunnchos_gpu_nr_baseband.Base.Lists.{length, All}

-- A test of all words of `n` bits.
abbrev pub every_word : ℕ → (List ℕ → Bool) → Bool
every_word zero f = f []
every_word (suc n) f = every_word n (λ w. f (0 ∷ w)) && every_word n (λ w. f (1 ∷ w))

abbrev pub same_bits : List ℕ → List ℕ → Bool
same_bits [] [] = true
same_bits [] (y ∷ ys) = false
same_bits (x ∷ xs) [] = false
same_bits (x ∷ xs) (y ∷ ys) = (x == y) && same_bits xs ys

abbrev pub each : ℕ → (ℕ → Bool) → Bool
each zero f = true
each (suc n) f = f n && each n f

pub both_true : (a b : Bool) → (a && b) ≡ true → (a ≡ true) × (b ≡ true)
both_true true b e = (refl, e)
both_true false b e = cc

pub every_word_lem :
    (n : ℕ) (f : List ℕ → Bool) (w : List ℕ)
    → every_word n f ≡ true
    → length w ≡ n
    → All (λ b. b < 2) w
    → f w ≡ true
every_word_lem zero f [] e size bits = e
every_word_lem zero f (b ∷ w) e size bits = absurd (omega arith)
every_word_lem (suc n) f [] e size bits = absurd (omega arith)
every_word_lem (suc n) f (zero ∷ w) e size bits =
    let (zeros, _) = both_true (every_word n (λ v. f (0 ∷ v))) (every_word n (λ v. f (1 ∷ v))) e in
    every_word_lem n (λ v. f (0 ∷ v)) w zeros (omega arith) bits.1
every_word_lem (suc n) f (suc zero ∷ w) e size bits =
    let (_, ones) = both_true (every_word n (λ v. f (0 ∷ v))) (every_word n (λ v. f (1 ∷ v))) e in
    every_word_lem n (λ v. f (1 ∷ v)) w ones (omega arith) bits.1
every_word_lem (suc n) f (suc (suc b) ∷ w) e size bits = absurd (omega (arith, bits.0))

pub each_lem : (n : ℕ) (f : ℕ → Bool) (i : ℕ) → each n f ≡ true → i < n → f i ≡ true
each_lem zero f i e p = absurd (omega arith)
each_lem (suc n) f i e p =
    let (here, rest) = both_true (f n) (each n f) e in
    elim (Same-cases i n) [
      | inl (t, h) ↦ rw h here
      | inr (t, h) ↦ each_lem n f i rest (omega arith)
    ]

pub same_bits-eq : (xs ys : List ℕ) → same_bits xs ys ≡ true → xs ≡ ys
same_bits-eq [] [] e = refl
same_bits-eq [] (y ∷ ys) e = cc
same_bits-eq (x ∷ xs) [] e = cc
same_bits-eq (x ∷ xs) (y ∷ ys) e =
    let (here, rest) = both_true (x == y) (same_bits xs ys) e in
    ap₂ ◌∷◌ ((==_iff x y).0 here) (same_bits-eq xs ys rest)
