-- ===== src/Crc/Register.antt =====
-- The shift register of `compute_crc`: one step of it.
use native.Mathlib.Nat.{mod-lt, mod-eq_of_lt, div-lt_iff_lt-mul, div-add-mod, pow-suc}
use gunnchos_gpu_nr_baseband.Base.{
  ℕ, suc, ◌+◌, ◌-◌, ◌*◌, ◌/◌, ◌%◌, ◌^◌, ◌≤◌, ◌<◌, ◌≡◌, refl, sym, ap, ◌∙◌, arith, bit_xor,
  if◌then◌else◌, ◌==◌,
}
use gunnchos_gpu_nr_baseband.Base.Bits.{
  bit_xor_step, bit_xor-parity, bit_xor-lt, bit_xor_cancel, bit_xor_cancel_mod,
}
use gunnchos_gpu_nr_baseband.Base.Powers.{pow-pos, double-mod, mod-mod_pow}
use gunnchos_gpu_nr_baseband.Crc.{crc_step}

-- `^` of two bits.
pub bit_xor-bits : (x y : ℕ) → x < 2 → y < 2 → bit_xor x y ≡ (x + y) % 2
bit_xor-bits x y p q =
    let halves : bit_xor (x / 2) (y / 2) ≡ 0 =
      let no_x : x / 2 ≡ 0 = omega arith in
      let no_y : y / 2 ≡ 0 = omega arith in rw (no_x, no_y) refl in
    omega (arith, bit_xor_step x y, halves)

mixed_cancel :
    (k f g a b p : ℕ)
    → f ≡ g
    → (if f == 0 then a else bit_xor a p) % 2 ^ k ≡ (if g == 0 then b else bit_xor b p) % 2 ^ k
    → a % 2 ^ k ≡ b % 2 ^ k
mixed_cancel k f g a b p e h = ground (arith, bit_xor_cancel_mod k a b p)

-- The low bits of a shifted register are those of the register, shifted.
shift_low : (j n top a : ℕ) → top ≡ 2 ^ n → j ≤ n → a * 2 % (2 * top) % 2 ^ suc j ≡ 2 * (a % 2 ^ j)
shift_low j n top a e h =
    let width : 2 * top ≡ 2 ^ suc n = omega (arith, e, pow-suc 2 n) in
    let twice : 2 ^ suc j ≡ 2 * 2 ^ j = omega (arith, pow-suc 2 j) in
    ap (λ (t : ℕ). a * 2 % t % 2 ^ suc j) width
    ∙ mod-mod_pow (suc j) (suc n) (a * 2) (omega arith)
    ∙ ap (λ (t : ℕ). a * 2 % t) twice
    ∙ double-mod (2 ^ j) (pow-pos j) a

module _ (top : ℕ) (pos : 0 < top) where
  pub top_bit : (crc : ℕ) → crc < 2 * top → crc / top % 2 ≡ crc / top
  top_bit crc h = mod-eq_of_lt ((div-lt_iff_lt-mul pos).1 h)

  -- A register is its highest bit and the rest.
  pub same_parts :
      (a b : ℕ) → a < 2 * top → b < 2 * top → a / top % 2 ≡ b / top % 2 → a % top ≡ b % top → a ≡ b
  same_parts a b ha hb hi lo =
      sym (div-add-mod a top)
      ∙ ap (λ q. top * q + a % top) (sym (top_bit a ha) ∙ hi ∙ top_bit b hb)
      ∙ ap (λ r. top * (b / top) + r) lo
      ∙ div-add-mod b top

  module _ (poly : ℕ) (odd : poly % 2 ≡ 1) where
    abbrev step : ℕ → ℕ → ℕ
    step crc b = crc_step (2 * top) top poly crc b

    pub feedback : (crc b : ℕ) → b < 2 → bit_xor (crc / top % 2) b ≡ (crc / top % 2 + b) % 2
    feedback crc b h = bit_xor-bits (crc / top % 2) b (omega arith) h

    -- The lowest bit of the new register is the feedback.
    pub step-parity : (crc b : ℕ) → b < 2 → step crc b % 2 ≡ (crc / top % 2 + b) % 2
    unfolding crc_step
    step-parity crc b h =
        ground (
          arith,
          feedback crc b h,
          double-mod top pos crc,
          bit_xor-parity (crc * 2 % (2 * top)) poly,
        )

    step-rest :
        (a b x y : ℕ)
        → x < 2
        → y < 2
        → step a x ≡ step b y
        → (a / top % 2 + x) % 2 ≡ (b / top % 2 + y) % 2
        → a % top ≡ b % top
    unfolding crc_step
    step-rest a b x y hx hy e f = ground (
      arith,
      feedback a x hx,
      feedback b y hy,
      double-mod top pos a,
      double-mod top pos b,
      bit_xor_cancel {a = a * 2 % (2 * top)} {b = b * 2 % (2 * top)} poly,
    )

    -- On one bit, different registers go to different registers.
    pub step-injective :
        (a b x : ℕ) → a < 2 * top → b < 2 * top → x < 2 → step a x ≡ step b x → a ≡ b
    step-injective a b x ha hb hx e =
        let parity : (a / top % 2 + x) % 2 ≡ (b / top % 2 + x) % 2 =
          omega (arith, step-parity a x hx, step-parity b x hx, ap (λ (t : ℕ). t % 2) e) in
        same_parts a b ha hb (omega arith) (step-rest a b x x hx hx e parity)

    -- From one register, the two bits go to different registers.
    pub step_bits : (a x y : ℕ) → x < 2 → y < 2 → step a x ≡ step a y → x ≡ y
    step_bits a x y hx hy e =
        omega (arith, step-parity a x hx, step-parity a y hy, ap (λ (t : ℕ). t % 2) e)

    -- What agrees after a round, in its `j + 1` low bits, agreed before it in `j`.
    pub step-agree :
        (j n a b x y : ℕ)
        → top ≡ 2 ^ n
        → j ≤ n
        → x < 2
        → y < 2
        → step a x % 2 ^ suc j ≡ step b y % 2 ^ suc j
        → a % 2 ^ j ≡ b % 2 ^ j
    unfolding crc_step
    step-agree j n a b x y e h hx hy same =
        let even : step a x % 2 ≡ step b y % 2 = omega (
          arith,
          mod-mod_pow 1 (suc j) (step a x) (omega arith),
          mod-mod_pow 1 (suc j) (step b y) (omega arith),
        ) in
        let fb : bit_xor (a / top % 2) x ≡ bit_xor (b / top % 2) y =
          omega (arith, feedback a x hx, feedback b y hy, step-parity a x hx, step-parity b y hy) in
        let shifted =
          mixed_cancel (suc j) _ _ (a * 2 % (2 * top)) (b * 2 % (2 * top)) poly fb same in
        omega (arith, shifted, shift_low j n top a e h, shift_low j n top b e h)

-- A register of `n` bits stays one.
pub step-lt :
    (n poly crc b : ℕ)
    → 0 < 2 ^ n
    → poly < 2 ^ n
    → crc_step (2 ^ n) (2 ^ (n - 1)) poly crc b < 2 ^ n
unfolding crc_step
step-lt n poly crc b pos hp =
    ground (arith, mod-lt (crc * 2) pos, bit_xor-lt n (crc * 2 % 2 ^ n) poly)
