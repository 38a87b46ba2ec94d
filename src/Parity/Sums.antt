-- ===== src/Parity/Sums.antt =====
-- Finite sums of numbers, and their parity.
use gunnchos_gpu_nr_baseband.Base.{
  ℕ, zero, suc, ◌+◌, ◌%◌, ◌<◌, ◌≢◌, bit_xor, ◌≡◌, refl, ap, ap₂, arith, if◌then◌else◌, ◌==◌,
}

abbrev pub total : ℕ → (ℕ → ℕ) → ℕ
total zero f = 0
total (suc n) f = f 0 + total n (λ i. f (suc i))

pub total_ext : (n : ℕ) (f g : ℕ → ℕ) → ((i : ℕ) → i < n → f i ≡ g i) → total n f ≡ total n g
total_ext zero f g h = refl
total_ext (suc n) f g h =
    ap₂ ◌+◌ (h 0 (omega arith))
      (total_ext n (λ i. f (suc i)) (λ i. g (suc i)) (λ i p. h (suc i) (omega arith)))

pub total_zero : (n : ℕ) (f : ℕ → ℕ) → ((i : ℕ) → i < n → f i ≡ 0) → total n f ≡ 0
total_zero zero f h = refl
total_zero (suc n) f h =
    omega (arith, h 0 (omega arith), total_zero n (λ i. f (suc i)) (λ i p. h (suc i) (omega arith)))

-- Only one of the terms is not 0.
pub total_single :
    (n : ℕ) (f : ℕ → ℕ) (r : ℕ) → r < n → ((i : ℕ) → i < n → i ≢ r → f i ≡ 0) → total n f ≡ f r
total_single zero f r p h = absurd (omega arith)
total_single (suc n) f zero p h =
    let rest = total_zero n (λ i. f (suc i)) (λ i q. h (suc i) (omega arith) (λ e. omega arith)) in
    omega arith
total_single (suc n) f (suc r) p h =
    let front : f 0 ≡ 0 = h 0 (omega arith) (λ e. omega arith) in
    let rest =
      total_single n (λ i. f (suc i)) r (omega arith)
        (λ i q d. h (suc i) (omega arith) (λ e. d (omega arith))) in
    omega arith

-- Terms that add up modulo 2 have totals that do.
pub total-parity :
    (n : ℕ) (f g h : ℕ → ℕ)
    → ((i : ℕ) → i < n → f i % 2 ≡ (g i + h i) % 2)
    → total n f % 2 ≡ (total n g + total n h) % 2
total-parity zero f g h e = refl
total-parity (suc n) f g h e =
    let front = e 0 (omega arith) in
    let rest =
      total-parity n (λ i. f (suc i)) (λ i. g (suc i)) (λ i. h (suc i))
        (λ i p. e (suc i) (omega arith)) in
    omega arith

pub total-append : (k m : ℕ) (f : ℕ → ℕ) → total (k + m) f ≡ total k f + total m (λ i. f (k + i))
total-append zero m f =
    let none_left : 0 + m ≡ m = omega arith in
    let same : total m f ≡ total m (λ i. f (0 + i)) = total_ext m _ _ (λ i p. ap f (omega arith)) in
    rw none_left (omega arith)
total-append (suc k) m f =
    let shift : suc k + m ≡ suc (k + m) = omega arith in
    let rest = total-append k m (λ i. f (suc i)) in
    let same : total m (λ i. f (suc (k + i))) ≡ total m (λ i. f (suc k + i)) =
      total_ext m _ _ (λ i p. ap f (omega arith)) in
    rw shift (omega arith)

-- What an entry of the matrix lets through.
abbrev pub weigh : ℕ → ℕ → ℕ
weigh a x = if a == 0 then 0 else x

pub weigh-xor :
    (a b x : ℕ) → a < 2 → b < 2 → weigh (bit_xor a b) x % 2 ≡ (weigh a x + weigh b x) % 2
weigh-xor zero zero x p q = refl
weigh-xor zero (suc zero) x p q = omega arith
weigh-xor (suc zero) zero x p q = omega arith
weigh-xor (suc zero) (suc zero) x p q = omega arith
weigh-xor zero (suc (suc b)) x p q = absurd (omega arith)
weigh-xor (suc zero) (suc (suc b)) x p q = absurd (omega arith)
weigh-xor (suc (suc a)) b x p q = absurd (omega arith)
