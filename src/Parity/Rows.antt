-- ===== src/Parity/Rows.antt =====
-- The entries of a matrix, and what the loops over the columns do to each.
use native.Mathlib.Nat.{mul-le-mul_right}
use gunnchos_gpu_nr_baseband.Base.{
  ℕ, zero, suc, ◌+◌, ◌*◌, ◌≤◌, ◌<◌, ◌≢◌, ◌⊎◌, inl, inr, bit_xor, ◌≡◌, refl, ◌∙◌, arith, List, [],
  ◌∷◌, length, get_or, set, All, length-set, get_or-set_self, get_or-set_ne, Less-cases, ap₂,
}
use gunnchos_gpu_nr_baseband.Base.Bits.{bit_xor-lt}
use gunnchos_gpu_nr_baseband.Parity.{xor_at, add_row}

abbrev pub cell : ℕ → List ℕ → ℕ → ℕ → ℕ
cell m a r c = get_or a (r * m + c) 0

abbrev pub IsBit : ℕ → Type 0
IsBit b = b < 2

pub All-set : (xs : List ℕ) (i v : ℕ) → All IsBit xs → IsBit v → All IsBit (set xs i v)
All-set [] i v h p = tt
All-set (x ∷ xs) zero v h p = (p, h.1)
All-set (x ∷ xs) (suc i) v h p = (h.0, All-set xs i v h.1 p)

pub get_or-IsBit : (xs : List ℕ) (i : ℕ) → All IsBit xs → get_or xs i 0 < 2
get_or-IsBit [] i h = omega arith
get_or-IsBit (x ∷ xs) zero h = h.0
get_or-IsBit (x ∷ xs) (suc i) h = get_or-IsBit xs i h.1

pub bit_xor-IsBit : (a b : ℕ) → a < 2 → b < 2 → bit_xor a b < 2
bit_xor-IsBit a b p q = bit_xor-lt 1 a b p q

-- A row ends before the next begins.
pub row-lt : (m r s : ℕ) → r < s → r * m + m ≤ s * m
row-lt m r s h =
    let next : suc r ≤ s = omega arith in
    let step : suc r * m ≡ r * m + m = omega arith in omega (arith, mul-le-mul_right m next)

pub row-lt_all : (m r : ℕ) → r < m → r * m + m ≤ m * m
row-lt_all m r h = row-lt m r m h

abbrev pub Apart : ℕ → ℕ → ℕ → Type 0
Apart m r s = (r * m + m ≤ s * m) ⊎ (s * m + m ≤ r * m)

pub rows-Apart : (m r s : ℕ) → r ≢ s → Apart m r s
rows-Apart m r s d = elim (Less-cases r s) [
  | inl (e, h) ↦ inl (row-lt m r s h)
  | inr (e, h) ↦ elim (Less-cases s r) [
    | inl (e2, h2) ↦ inr (row-lt m s r h2)
    | inr (e2, h2) ↦ absurd (d (omega arith))
  ]
]

-- Where the loop over the columns of `add_row` does not write.
pub add_row-frame :
    (m col r left c : ℕ) (a : List ℕ) (j : ℕ)
    → (j < r * m + c) ⊎ (r * m + c + left ≤ j)
    → get_or (add_row m col r left c a) j 0 ≡ get_or a j 0
add_row-frame m col r zero c a j out = refl
add_row-frame m col r (suc left) c a j out =
    let v : ℕ = get_or a (col * m + c) 0 in
    let off : r * m + c ≢ j = λ e. elim out [ inl h ↦ omega arith | inr h ↦ omega arith ] in
    let next : (j < r * m + suc c) ⊎ (r * m + suc c + left ≤ j) = elim out [
      | inl h ↦ inl (omega arith)
      | inr h ↦ inr (omega arith)
    ] in
    add_row-frame m col r left (suc c) (xor_at a (r * m + c) v) j next
    ∙ get_or-set_ne a (r * m + c) j _ 0 off

-- What it writes: the sum of two rows that do not meet.
pub add_row-effect :
    (m col r left c : ℕ) (a : List ℕ) (k : ℕ)
    → k < left
    → c + left ≤ m
    → r * m + m ≤ length a
    → Apart m col r
    → get_or (add_row m col r left c a) (r * m + (c + k)) 0
      ≡ bit_xor (get_or a (r * m + (c + k)) 0) (get_or a (col * m + (c + k)) 0)
add_row-effect m col r zero c a k p q size apart = absurd (omega arith)
add_row-effect m col r (suc left) c a zero p q size apart =
    let v : ℕ = get_or a (col * m + c) 0 in
    let here : c + 0 ≡ c = omega arith in
    rw here (
      add_row-frame m col r left (suc c) (xor_at a (r * m + c) v) (r * m + c) (inl (omega arith))
      ∙ get_or-set_self a (r * m + c) _ 0 (omega arith))
add_row-effect m col r (suc left) c a (suc k) p q size apart =
    let b : List ℕ = xor_at a (r * m + c) (get_or a (col * m + c) 0) in
    let later : c + suc k ≡ suc c + k = omega arith in
    let long : r * m + m ≤ length b = omega (
      arith,
      length-set a (r * m + c) (bit_xor (get_or a (r * m + c) 0) (get_or a (col * m + c) 0)),
    ) in
    let mine : get_or b (r * m + (suc c + k)) 0 ≡ get_or a (r * m + (suc c + k)) 0 =
      get_or-set_ne a (r * m + c) (r * m + (suc c + k)) _ 0 (λ e. omega arith) in
    let other : get_or b (col * m + (suc c + k)) 0 ≡ get_or a (col * m + (suc c + k)) 0 =
      get_or-set_ne a (r * m + c) (col * m + (suc c + k)) _ 0
        (λ e. elim apart [ inl h ↦ omega arith | inr h ↦ omega arith ]) in
    rw later (
      add_row-effect m col r left (suc c) b k (omega arith) (omega arith) long apart
      ∙ ap₂ bit_xor mine other)

pub add_row-length :
    (m col r left c : ℕ) (a : List ℕ) → length (add_row m col r left c a) ≡ length a
add_row-length m col r zero c a = refl
add_row-length m col r (suc left) c a =
    add_row-length m col r left (suc c) _ ∙ length-set a (r * m + c) _

pub add_row-IsBit :
    (m col r left c : ℕ) (a : List ℕ) → All IsBit a → All IsBit (add_row m col r left c a)
add_row-IsBit m col r zero c a bits = bits
add_row-IsBit m col r (suc left) c a bits = add_row-IsBit m col r left (suc c) _ (
    All-set a (r * m + c) _ bits
      (bit_xor-IsBit _ _ (get_or-IsBit a (r * m + c) bits) (get_or-IsBit a (col * m + c) bits)))
