-- ===== src/Crc/Remainder.antt =====
-- A register of `compute_crc` that is fed its own bits, highest first, as `crc_attach` writes them.
use native.Mathlib.Nat.{
  pow-suc, mul-div-mul_right, mul-add-div, mul-add-mod_self_left, mod-lt, mod-eq_of_lt, div-add-mod,
  div-lt_iff_lt-mul, mod-one,
}
use gunnchos_gpu_nr_baseband.Base.{
  ℕ, zero, suc, ◌+◌, ◌-◌, ◌*◌, ◌/◌, ◌%◌, ◌^◌, ◌<◌, ◌≡◌, sym, ap, ap₂, ◌∙◌, arith, bit_xor,
}
use gunnchos_gpu_nr_baseband.Base.Powers.{pow-pos, double-mod}
use gunnchos_gpu_nr_baseband.Crc.{CrcSpec, poly, crc_step, bits_msb}
use gunnchos_gpu_nr_baseband.Crc.Register.{bit_xor-bits}
use gunnchos_gpu_nr_baseband.Crc.Codeword.{IsSpec, register}

module _ (m : ℕ) (pos : 0 < m) where
  -- The highest bit of a remainder by `2 * m`.
  mod-double-div : (a : ℕ) → a % (2 * m) / m ≡ a / m % 2
  mod-double-div a =
      let r : ℕ = a % (2 * m) in
      let q : ℕ = a / (2 * m) in
      let parts : a ≡ m * (2 * q) + r = omega (arith, div-add-mod a (2 * m)) in
      let small : r / m < 2 = (div-lt_iff_lt-mul pos).1 (mod-lt a (omega arith)) in
      let quotient : a / m ≡ 2 * q + r / m =
        ap (λ (t : ℕ). t / m) parts ∙ mul-add-div pos (2 * q) r in
      omega (arith, quotient, small)

  mod-double-mod : (a : ℕ) → a % (2 * m) % m ≡ a % m
  mod-double-mod a =
      let r : ℕ = a % (2 * m) in
      let q : ℕ = a / (2 * m) in
      let parts : a ≡ m * (2 * q) + r = omega (arith, div-add-mod a (2 * m)) in
      sym (ap (λ (t : ℕ). t % m) parts ∙ mul-add-mod_self_left m (2 * q) r)

  module _ (q : ℕ) (q_pos : 0 < q) where
    mul-mod_scaled : (r : ℕ) → r * q % (m * q) ≡ r % m * q
    mul-mod_scaled r =
        let parts : r * q ≡ m * q * (r / m) + r % m * q =
          omega (arith, ap (λ (t : ℕ). t * q) (div-add-mod r m)) in
        let small : r % m * q < m * q = grind (arith, mod-lt r pos) in
        ap (λ (t : ℕ). t % (m * q)) parts
        ∙ mul-add-mod_self_left (m * q) (r / m) (r % m * q)
        ∙ mod-eq_of_lt small

    same_bit : (b : ℕ) → b < 2 → bit_xor b b ≡ 0
    same_bit b h = omega (arith, bit_xor-bits b b h h)

    -- The round that takes the highest of the bits that are left.
    shift_out :
        (a p top : ℕ)
        → top ≡ m * q
        → crc_step (2 * top) top p (a % (2 * m) * q) (a / m % 2) ≡ a % m * (2 * q)
    unfolding crc_step
    shift_out a p top e =
        let r : ℕ = a % (2 * m) in
        let high : r * q / (m * q) % 2 ≡ a / m % 2 =
          omega (arith, mul-div-mul_right r m q_pos, mod-double-div a) in
        let rest : r * q * 2 % (2 * (m * q)) ≡ 2 * (a % m * q) = omega (
          arith,
          double-mod (m * q) (grind arith) (r * q),
          mul-mod_scaled r,
          ap (λ (t : ℕ). t * q) (mod-double-mod a),
        ) in
        rw (e, high, same_bit (a / m % 2) (omega arith)) (omega (arith, rest))

-- With `i` bits left, the register holds the low `i` bits of `rem` above `len - i` zeros.
register-bits_msb :
    {s : CrcSpec}
    → IsSpec s
    → (i q rem : ℕ) → 0 < q
    → 2 ^ s.len ≡ 2 ^ i * q
    → register s (rem % 2 ^ i * q) (bits_msb i rem) ≡ 0
register-bits_msb v zero q rem h e = rw (mod-one rem) (omega arith)
register-bits_msb {s} v (suc i) q rem h e =
    let top_eq : 2 ^ (s.len - 1) ≡ 2 ^ i * q =
      omega (arith, v.width, ap (λ (t : ℕ). t * q) (pow-suc 2 i)) in
    let twice : 2 ^ suc i ≡ 2 * 2 ^ i = omega (arith, pow-suc 2 i) in
    let next = shift_out (2 ^ i) (pow-pos i) q h rem (poly s) (2 ^ (s.len - 1)) top_eq in
    let start : rem % 2 ^ suc i * q ≡ rem % (2 * 2 ^ i) * q = rw twice in
    ap₂
      (λ (w c : ℕ).
        register s (crc_step w (2 ^ (s.len - 1)) (poly s) c (rem / 2 ^ i % 2)) (bits_msb i rem))
      v.width start
    ∙ ap (λ (c : ℕ). register s c (bits_msb i rem)) next
    ∙ register-bits_msb v i (2 * q) rem (omega arith)
        (omega (arith, ap (λ (t : ℕ). t * q) (pow-suc 2 i)))

-- Fed all its bits, a register ends at 0.
pub register-own_bits :
    {s : CrcSpec} → IsSpec s → (crc : ℕ) → crc < 2 ^ s.len → register s crc (bits_msb s.len crc) ≡ 0
register-own_bits {s} v crc h =
    let whole : crc % 2 ^ s.len * 1 ≡ crc = omega (arith, mod-eq_of_lt h) in
    ap (λ (t : ℕ). register s t (bits_msb s.len crc)) (sym whole)
    ∙ register-bits_msb v s.len 1 crc (omega arith) (omega arith)
