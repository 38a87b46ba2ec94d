-- ===== src/Base/Bits.antt =====
-- `^` on machine words, from the binary digits that the native operation stands for.
use Prim.Native.Nat.{digits, bit_xor-bitwise, differ}
use mathlib.Core.WellFounded.{Acc, WellFounded}
use native.Mathlib.Nat.{pow-suc, mod-one}
use gunnchos_gpu_nr_baseband.Base.Powers.{pow-pos, mod_digit}
use Prim.Native.Nat.{ℕ, zero, suc, ◌+◌, ◌*◌, ◌/◌, ◌%◌, ◌^◌, ◌≤◌, ◌<◌, bit_xor}
use mathlib.Core.Path.{◌≡◌, refl, sym, ap, ◌∙◌}
use native.Mathlib.Omega.{arith}

Acc-below : (k n : ℕ) → n < k → Acc ◌<◌ n
Acc-below zero n h = elim h [ ]
Acc-below (suc k) n h = Acc.intro n (λ m hm. Acc-below k m (omega arith))

unfoldable pub lt_wf : WellFounded ◌<◌
unfolding Acc-below
lt_wf = record { apply = λ n. Acc-below (suc n) n (omega arith) }

abbrev xor_digits : ℕ → ℕ → ℕ → ℕ
xor_digits n a b = digits (λ b. b) differ n a b

xor_digits_fuel : (n m a b : ℕ) → a ≤ n → a ≤ m → xor_digits n a b ≡ xor_digits m a b
xor_digits_fuel zero zero a b p q = refl
xor_digits_fuel zero (suc m) zero b p q = refl
xor_digits_fuel zero (suc m) (suc a) b p q = absurd (omega arith)
xor_digits_fuel (suc n) zero zero b p q = refl
xor_digits_fuel (suc n) zero (suc a) b p q = absurd (omega arith)
xor_digits_fuel (suc n) (suc m) zero b p q = refl
xor_digits_fuel (suc n) (suc m) (suc a) b p q =
    omega (arith, xor_digits_fuel n m (suc a / 2) (b / 2) (omega arith) (omega arith))

pub zero-bit_xor : (b : ℕ) → bit_xor 0 b ≡ b
zero-bit_xor b = bit_xor-bitwise 0 b

differ_small : (x y : ℕ) → x < 2 → y < 2 → differ x y ≡ (x + y) % 2
differ_small zero y p q = omega arith
differ_small (suc zero) zero p q = refl
differ_small (suc zero) (suc zero) p q = refl
differ_small (suc zero) (suc (suc y)) p q = absurd (omega arith)
differ_small (suc (suc x)) y p q = absurd (omega arith)

differ_lem : (a b : ℕ) → differ (a % 2) (b % 2) ≡ (a + b) % 2
differ_lem a b = omega (arith, differ_small (a % 2) (b % 2) (omega arith) (omega arith))

-- The lowest digit, and the rest.
pub bit_xor_step : (a b : ℕ) → bit_xor a b ≡ bit_xor (a / 2) (b / 2) * 2 + (a + b) % 2
bit_xor_step zero b = omega (arith, zero-bit_xor b, zero-bit_xor (b / 2))
bit_xor_step (suc a) b = omega (
  arith,
  bit_xor-bitwise (suc a) b,
  bit_xor-bitwise (suc a / 2) (b / 2),
  xor_digits_fuel a (suc a / 2) (suc a / 2) (b / 2) (omega arith) (omega arith),
  differ_lem (suc a) b,
)

pub bit_xor-lt : (k a b : ℕ) → a < 2 ^ k → b < 2 ^ k → bit_xor a b < 2 ^ k
bit_xor-lt zero zero b p q = omega (arith, zero-bit_xor b)
bit_xor-lt zero (suc a) b p q = absurd (omega arith)
bit_xor-lt (suc k) a b p q = omega (
  arith,
  pow-suc 2 k,
  bit_xor_step a b,
  bit_xor-lt k (a / 2) (b / 2) (omega (arith, pow-suc 2 k)) (omega (arith, pow-suc 2 k)),
)

pub bit_xor-half : (a b : ℕ) → bit_xor a b / 2 ≡ bit_xor (a / 2) (b / 2)
bit_xor-half a b = omega (arith, bit_xor_step a b)

pub bit_xor-parity : (a b : ℕ) → bit_xor a b % 2 ≡ (a + b) % 2
bit_xor-parity a b = omega (arith, bit_xor_step a b)

bit_xor_undo_below : (n a b : ℕ) → a < n → b < n → bit_xor (bit_xor a b) b ≡ a
bit_xor_undo_below zero a b p q = absurd (omega arith)
bit_xor_undo_below (suc n) zero zero p q = refl
bit_xor_undo_below (suc n) a b p q =
    let smaller : bit_xor (bit_xor a b / 2) (b / 2) ≡ a / 2 =
      rw bit_xor-half (bit_xor_undo_below n (a / 2) (b / 2) (omega arith) (omega arith)) in
    omega (arith, bit_xor_step (bit_xor a b) b, bit_xor-parity a b, smaller)

-- The second of two equal masks undoes the first.
pub bit_xor_undo : (a b : ℕ) → bit_xor (bit_xor a b) b ≡ a
bit_xor_undo a b = bit_xor_undo_below (suc (a + b)) a b (omega arith) (omega arith)

pub bit_xor_cancel : {a b : ℕ} (c : ℕ) → bit_xor a c ≡ bit_xor b c → a ≡ b
bit_xor_cancel {a} {b} c e = sym (bit_xor_undo a c) ∙ ap (λ x. bit_xor x c) e ∙ bit_xor_undo b c

-- The low `k` digits of `a ^ c` fix those of `a`.
pub bit_xor_cancel_mod :
    (k a b c : ℕ) → bit_xor a c % 2 ^ k ≡ bit_xor b c % 2 ^ k → a % 2 ^ k ≡ b % 2 ^ k
bit_xor_cancel_mod zero a b c e = omega (arith, mod-one a, mod-one b)
bit_xor_cancel_mod (suc k) a b c e =
    let twice : 2 ^ suc k ≡ 2 * 2 ^ k = omega (arith, pow-suc 2 k) in
    let digits_eq : bit_xor a c % (2 * 2 ^ k) ≡ bit_xor b c % (2 * 2 ^ k) = rw twice at e in
    let da = mod_digit (2 ^ k) (pow-pos k) (bit_xor a c) in
    let db = mod_digit (2 ^ k) (pow-pos k) (bit_xor b c) in
    let halves : bit_xor (a / 2) (c / 2) % 2 ^ k ≡ bit_xor (b / 2) (c / 2) % 2 ^ k =
      rw (← bit_xor-half a c, ← bit_xor-half b c) (omega arith) in
    let rest = bit_xor_cancel_mod k (a / 2) (b / 2) (c / 2) halves in
    rw (twice, mod_digit (2 ^ k) (pow-pos k) a, mod_digit (2 ^ k) (pow-pos k) b)
      (omega (arith, bit_xor-parity a c, bit_xor-parity b c))
