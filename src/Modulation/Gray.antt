-- ===== src/Modulation/Gray.antt =====
-- The two directions of the Gray code undo each other.
use gunnchos_gpu_nr_baseband.Base.{
  ℕ, zero, suc, ◌+◌, ◌/◌, ◌≤◌, ◌<◌, ◌≡◌, refl, sym, ap, ap₂, ◌∙◌, arith, bit_xor, inl, inr,
  Same-cases,
}
use gunnchos_gpu_nr_baseband.Base.Bits.{bit_xor-half, bit_xor-parity, bit_xor_undo}
use gunnchos_gpu_nr_baseband.Modulation.{bin_to_gray, gray_loop, gray_to_bin}

bit_xor_assoc_below :
    (n a b c : ℕ) → a < n → b < n → c < n → bit_xor (bit_xor a b) c ≡ bit_xor a (bit_xor b c)
bit_xor_assoc_below zero a b c p q r = absurd (omega arith)
bit_xor_assoc_below (suc zero) a b c p q r =
    let a0 : a ≡ 0 = omega arith in
    let b0 : b ≡ 0 = omega arith in let c0 : c ≡ 0 = omega arith in rw (a0, b0, c0) refl
bit_xor_assoc_below (suc (suc n)) a b c p q r =
    let halves =
      bit_xor_assoc_below (suc n) (a / 2) (b / 2) (c / 2) (omega arith) (omega arith)
        (omega arith) in
    let left : bit_xor (bit_xor a b) c / 2 ≡ bit_xor (bit_xor (a / 2) (b / 2)) (c / 2) =
      bit_xor-half (bit_xor a b) c ∙ ap (λ (t : ℕ). bit_xor t (c / 2)) (bit_xor-half a b) in
    let right : bit_xor a (bit_xor b c) / 2 ≡ bit_xor (a / 2) (bit_xor (b / 2) (c / 2)) =
      bit_xor-half a (bit_xor b c) ∙ ap (bit_xor (a / 2)) (bit_xor-half b c) in
    omega (
      arith,
      bit_xor-parity (bit_xor a b) c,
      bit_xor-parity a b,
      bit_xor-parity a (bit_xor b c),
      bit_xor-parity b c,
    )

pub bit_xor_assoc : (a b c : ℕ) → bit_xor (bit_xor a b) c ≡ bit_xor a (bit_xor b c)
bit_xor_assoc a b c =
    bit_xor_assoc_below (suc (a + b + c)) a b c (omega arith) (omega arith) (omega arith)

bit_xor-zero_below : (n b : ℕ) → b < n → bit_xor b 0 ≡ b
bit_xor-zero_below zero b p = absurd (omega arith)
bit_xor-zero_below (suc n) zero p = refl
bit_xor-zero_below (suc n) (suc b) p =
    let half = bit_xor-zero_below n (suc b / 2) (omega arith) in
    let whole : bit_xor (suc b) 0 / 2 ≡ suc b / 2 = bit_xor-half (suc b) 0 ∙ half in
    omega (arith, bit_xor-parity (suc b) 0)

bit_xor-zero : (b : ℕ) → bit_xor b 0 ≡ b
bit_xor-zero b = bit_xor-zero_below (suc b) b (omega arith)

-- All the halves of a number, added up without carry.
halves_sum : ℕ → ℕ → ℕ
halves_sum zero g = 0
halves_sum (suc left) g = bit_xor g (halves_sum left (g / 2))

halves_sum_zero : (left : ℕ) → halves_sum left 0 ≡ 0
unfolding halves_sum
halves_sum_zero zero = refl
halves_sum_zero (suc left) = ap (bit_xor 0) (halves_sum_zero left)

gray_loop_lem : (left g b : ℕ) → gray_loop left g b ≡ bit_xor b (halves_sum left (g / 2))
unfolding halves_sum
gray_loop_lem zero g b = sym (bit_xor-zero b)
gray_loop_lem (suc left) g b = elim (Same-cases (g / 2) 0) [
  | inl (t, e) ↦
      let nothing : halves_sum (suc left) (g / 2) ≡ 0 =
        ap (halves_sum (suc left)) e ∙ halves_sum_zero (suc left) in
      rw t (sym (ap (bit_xor b) nothing ∙ bit_xor-zero b))
  | inr (t, e) ↦ rw t (
      gray_loop_lem left (g / 2) (bit_xor b (g / 2))
      ∙ bit_xor_assoc b (g / 2) (halves_sum left (g / 2 / 2)))
]

-- Fuel beyond the number adds nothing.
halves_sum_fuel : (n m g : ℕ) → g ≤ n → g ≤ m → halves_sum n g ≡ halves_sum m g
unfolding halves_sum
halves_sum_fuel zero m g p q =
    let none_left : g ≡ 0 = omega arith in rw none_left (sym (halves_sum_zero m))
halves_sum_fuel (suc n) zero g p q =
    let none_left : g ≡ 0 = omega arith in rw none_left (halves_sum_zero (suc n))
halves_sum_fuel (suc n) (suc m) g p q = elim (Same-cases g 0) [
  | inl (t, e) ↦ rw e (halves_sum_zero (suc n) ∙ sym (halves_sum_zero (suc m)))
  | inr (t, e) ↦ ap (bit_xor g) (halves_sum_fuel n m (g / 2) (omega arith) (omega arith))
]

-- The loop adds up the halves of a number.
gray_to_bin_sum : (g n : ℕ) → g ≤ n → gray_to_bin g ≡ halves_sum (suc n) g
unfolding halves_sum
gray_to_bin_sum g n p =
    gray_loop_lem g g g ∙ ap (bit_xor g) (halves_sum_fuel g n (g / 2) (omega arith) (omega arith))

-- What the loop gives, from the number and what it gives for its half.
pub gray_to_bin_step : (g : ℕ) → gray_to_bin g ≡ bit_xor g (gray_to_bin (g / 2))
unfolding halves_sum
gray_to_bin_step g =
    gray_to_bin_sum g (suc g) (omega arith)
    ∙ ap (bit_xor g) (sym (gray_to_bin_sum (g / 2) g (omega arith)))

gray_to_bin-zero : gray_to_bin 0 ≡ 0
gray_to_bin-zero = refl

undo_below : (n v : ℕ) → v < n → gray_to_bin (bin_to_gray v) ≡ v
undo_below zero v p = absurd (omega arith)
undo_below (suc n) v p = elim (Same-cases v 0) [
  | inl (t, e) ↦ rw e refl
  | inr (t, e) ↦
      gray_to_bin_step (bin_to_gray v)
      ∙ ap (λ (t : ℕ). bit_xor (bin_to_gray v) (gray_to_bin t)) (bit_xor-half v (v / 2))
      ∙ ap (bit_xor (bin_to_gray v)) (undo_below n (v / 2) (omega arith))
      ∙ bit_xor_undo v (v / 2)
]

gray_half_below : (n g : ℕ) → g < n → gray_to_bin g / 2 ≡ gray_to_bin (g / 2)
gray_half_below zero g p = absurd (omega arith)
gray_half_below (suc n) g p = elim (Same-cases g 0) [
  | inl (t, e) ↦ rw e refl
  | inr (t, e) ↦
      ap (λ (t : ℕ). t / 2) (gray_to_bin_step g)
      ∙ bit_xor-half g (gray_to_bin (g / 2))
      ∙ ap (bit_xor (g / 2)) (gray_half_below n (g / 2) (omega arith))
      ∙ sym (gray_to_bin_step (g / 2))
]

-- The loop of gray_to_bin, which adds up the halves of a number without carry, is the inverse of
-- bin_to_gray on all numbers, in both directions.
gray_inverse : (v : ℕ) → (gray_to_bin (bin_to_gray v) ≡ v) × (bin_to_gray (gray_to_bin v) ≡ v)
gray_inverse v = (
  undo_below (suc v) v (omega arith),
  ap₂ bit_xor (gray_to_bin_step v) (gray_half_below (suc v) v (omega arith))
      ∙ bit_xor_undo v (gray_to_bin (v / 2)),
)
