-- ===== src/Base/Sorting.antt =====
-- `std::sort` and `std::stable_sort` with a comparison: equal elements keep their order.
use mathlib.Core.List.{Perm, List, [], ◌∷◌, ◌++◌}
use mathlib.Core.List.Perm
use Prim.Native.Nat.{ℕ, zero, suc, ◌<◌}
use mathlib.Core.Path.{◌≡◌, refl}
use mathlib.Core.Logic.{inl, inr}
use mathlib.Core.Bool.{Bool, true, false}
use native.Mathlib.Omega.{arith}
use gunnchos_gpu_nr_baseband.Base.Tests.{if◌then◌else◌, Bool-cases}
use gunnchos_gpu_nr_baseband.Base.Lists.{length, get_or, take, drop, All, All-drop}

module _ {ℓ} {A : Type ℓ} (before : A → A → Bool) where
  abbrev pub insert_by : A → List A → List A
  insert_by x [] = x ∷ []
  insert_by x (y ∷ ys) = let later = insert_by x ys in if before y x then y ∷ later else x ∷ y ∷ ys

  abbrev pub sort_by : List A → List A
  sort_by [] = []
  sort_by (x ∷ xs) = insert_by x (sort_by xs)

  insert_by-Perm : (x : A) (xs : List A) → Perm (insert_by x xs) (x ∷ xs)
  insert_by-Perm x [] = Perm.refl (x ∷ [])
  insert_by-Perm x (y ∷ ys) = elim (Bool-cases (before y x)) [
    | inl first ↦ rw first (Perm.trans (Perm.cons y (insert_by-Perm x ys)) (Perm.swap x y ys))
    | inr behind ↦ rw behind (Perm.refl (x ∷ y ∷ ys))
  ]

  pub sort_by-Perm : (xs : List A) → Perm (sort_by xs) xs
  sort_by-Perm [] = Perm.refl []
  sort_by-Perm (x ∷ xs) = Perm.trans (insert_by-Perm x (sort_by xs)) (Perm.cons x (sort_by-Perm xs))

  length-insert_by : (x : A) (xs : List A) → length (insert_by x xs) ≡ suc (length xs)
  length-insert_by x [] = refl
  length-insert_by x (y ∷ ys) = elim (Bool-cases (before y x)) [
    | inl first ↦ let more = length-insert_by x ys in rw first (omega arith)
    | inr behind ↦ rw behind refl
  ]

  pub length-sort_by : (xs : List A) → length (sort_by xs) ≡ length xs
  length-sort_by [] = refl
  length-sort_by (x ∷ xs) = omega (arith, length-insert_by x (sort_by xs), length-sort_by xs)

  All-insert_by {κ} :
      (P : A → Type κ) (x : A) (xs : List A) → P x → All P xs → All P (insert_by x xs)
  All-insert_by P x [] e h = (e, tt)
  All-insert_by P x (y ∷ ys) e h = elim (Bool-cases (before y x)) [
    | inl first ↦ rw first (h.0, All-insert_by P x ys e h.1)
    | inr behind ↦ rw behind (e, h)
  ]

  pub All-sort_by {κ} : (P : A → Type κ) (xs : List A) → All P xs → All P (sort_by xs)
  All-sort_by P [] h = tt
  All-sort_by P (x ∷ xs) h = All-insert_by P x (sort_by xs) h.0 (All-sort_by P xs h.1)

  -- A comparison that a sort may be given.
  pub record IsWeakOrder : Type ℓ where
    pub asymmetric : (a b : A) → before a b ≡ true → before b a ≡ false
    pub negatively_transitive :
        (a b c : A) → before a b ≡ false → before b c ≡ false → before a c ≡ false

  -- None of the others comes before `x`.
  abbrev pub IsFirst : A → List A → Type 0
  IsFirst x others = All (λ y. before y x ≡ false) others

  abbrev pub IsSorted : List A → Type 0
  IsSorted [] = Unit
  IsSorted (x ∷ xs) = IsFirst x xs × IsSorted xs

  -- The front of a sorted list is first to its rest.
  pub take-IsFirst :
      (n : ℕ) (xs : List A) → IsSorted xs → All (λ s. IsFirst s (drop n xs)) (take n xs)
  take-IsFirst zero xs h = tt
  take-IsFirst (suc n) [] h = tt
  take-IsFirst (suc n) (x ∷ xs) h =
      (All-drop (λ y. before y x ≡ false) n xs h.0, take-IsFirst n xs h.1)

  module _ (order : IsWeakOrder) where
    behind-IsFirst : (x y : A) (zs : List A) → before y x ≡ false → IsFirst y zs → IsFirst x zs
    behind-IsFirst x y [] e h = tt
    behind-IsFirst x y (z ∷ zs) e h =
        (order.negatively_transitive z y x h.0 e, behind-IsFirst x y zs e h.1)

    insert_by-IsSorted : (x : A) (xs : List A) → IsSorted xs → IsSorted (insert_by x xs)
    insert_by-IsSorted x [] h = (tt, tt)
    insert_by-IsSorted x (y ∷ ys) h = elim (Bool-cases (before y x)) [
      | inl first ↦
          let behind : before x y ≡ false = order.asymmetric _ _ first in
          rw first
            (All-insert_by (λ z. before z y ≡ false) x ys behind h.0, insert_by-IsSorted x ys h.1)
      | inr behind ↦ rw behind ((behind, behind-IsFirst x y ys behind h.0), h)
    ]

    pub sort_by-IsSorted : (xs : List A) → IsSorted (sort_by xs)
    sort_by-IsSorted [] = tt
    sort_by-IsSorted (x ∷ xs) = insert_by-IsSorted x (sort_by xs) (sort_by-IsSorted xs)

  -- `v` has `k` of the elements on its one side, none of which it precedes, and the others, none of which
  -- precede it, on the other: it is the element number `k` in the order.
  pub data IsRanked (xs : List A) (k : ℕ) (v : A) : Type ℓ where
    ranked :
        (low high : List A)
        → Perm (low ++ v ∷ high) xs
        → length low ≡ k
        → All (λ y. before v y ≡ false) low
        → IsFirst v high
        → IsRanked xs k v

  sorted-IsRanked :
      (xs : List A) (k : ℕ) (o : A) → k < length xs → IsSorted xs → IsRanked xs k (get_or xs k o)
  sorted-IsRanked [] k o p h = absurd (omega arith)
  sorted-IsRanked (x ∷ xs) zero o p h = ranked [] xs (Perm.refl (x ∷ xs)) refl tt h.0
  sorted-IsRanked (x ∷ xs) (suc k) o p h = elim (sorted-IsRanked xs k o (omega arith) h.1) [
    | ranked low high same size under over ↦
        ranked (x ∷ low) high (Perm.cons x same) (omega arith)
          (at_place xs k (omega arith) h.0, under) over
  ]
    where
      at_place :
          (ys : List A) (j : ℕ)
          → j < length ys
          → All (λ y. before y x ≡ false) ys
          → before (get_or ys j o) x ≡ false
      at_place [] j q all = absurd (omega arith)
      at_place (y ∷ ys) zero q all = all.0
      at_place (y ∷ ys) (suc j) q all = at_place ys j (omega arith) all.1

  -- What a sort puts at place `k` is the element number `k`.
  pub sort_by-IsRanked :
      IsWeakOrder
      → (xs : List A) (k : ℕ) (o : A) → k < length xs
      → IsRanked xs k (get_or (sort_by xs) k o)
  sort_by-IsRanked order xs k o p =
      elim (sorted-IsRanked (sort_by xs) k o (omega (arith, length-sort_by xs))
        (sort_by-IsSorted order xs)) [
          | ranked low high same size under over ↦
              ranked low high (Perm.trans same (sort_by-Perm xs)) size under over
        ]
