-- ===== src/Base/Powers.antt =====
-- Powers of two as moduli.
use Prim.Native.Nat.{ℕ, zero, suc, ◌+◌, ◌-◌, ◌*◌, ◌/◌, ◌%◌, ◌^◌, ◌≤◌, ◌<◌}
use mathlib.Core.Path.{◌≡◌, sym, ap, ◌∙◌}
use native.Mathlib.Omega.{arith}
use native.Mathlib.Nat.{
  pow-suc, mod-mod_of_dvd, mod-lt, mod-eq_of_lt, div-add-mod, mul-add-mod_self_left,
}

pub pow-pos : (n : ℕ) → 0 < 2 ^ n
pow-pos zero = omega arith
pow-pos (suc n) = omega (arith, pow-suc 2 n, pow-pos n)

pub pow-add : (a b : ℕ) → 2 ^ (a + b) ≡ 2 ^ a * 2 ^ b
pow-add zero b = let same : 0 + b ≡ b = omega arith in rw same (omega arith)
pow-add (suc a) b =
    let shift : suc a + b ≡ suc (a + b) = omega arith in
    rw shift
      (omega (arith, pow-suc 2 (a + b), ap (λ (t : ℕ). t * 2 ^ b) (pow-suc 2 a), pow-add a b))

-- A remainder by a power, taken by a smaller power.
pub mod-mod_pow : (j n a : ℕ) → j ≤ n → a % 2 ^ n % 2 ^ j ≡ a % 2 ^ j
mod-mod_pow j n a h =
    let sum : j + (n - j) ≡ n = omega arith in
    let spread : 2 ^ n ≡ 2 ^ j * 2 ^ (n - j) =
      ap (λ (t : ℕ). 2 ^ t) (sym sum) ∙ pow-add j (n - j) in
    mod-mod_of_dvd (2 ^ j) a (∣◌∣₁ (2 ^ (n - j), spread))

pub double-mod : (m : ℕ) → 0 < m → (a : ℕ) → a * 2 % (2 * m) ≡ 2 * (a % m)
double-mod m pos a =
    let parts : a * 2 ≡ 2 * m * (a / m) + 2 * (a % m) = omega (arith, div-add-mod a m) in
    let small : 2 * (a % m) < 2 * m = omega (arith, mod-lt a pos) in
    rw parts (mul-add-mod_self_left (2 * m) (a / m) (2 * (a % m)) ∙ mod-eq_of_lt small)

-- The remainder by twice `m`, from the lowest digit and the rest.
pub mod_digit : (m : ℕ) → 0 < m → (a : ℕ) → a % (2 * m) ≡ 2 * (a / 2 % m) + a % 2
mod_digit m pos a =
    let low : ℕ = 2 * (a / 2 % m) + a % 2 in
    let parts : a ≡ 2 * m * (a / 2 / m) + low = omega (arith, div-add-mod (a / 2) m) in
    let small : low < 2 * m = omega (arith, mod-lt (a / 2) pos) in
    ap (λ (t : ℕ). t % (2 * m)) parts
    ∙ mul-add-mod_self_left (2 * m) (a / 2 / m) low
    ∙ mod-eq_of_lt small
