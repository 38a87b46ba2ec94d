-- ===== src/Crc/Distinct.antt =====
-- Words fed to the register: when two of them, or two registers, can lead to one register.
use gunnchos_gpu_nr_baseband.Base.{
  ℕ, suc, ◌+◌, ◌-◌, ◌%◌, ◌^◌, ◌≤◌, ◌<◌, ◌≡◌, refl, sym, ap, ap₂, ◌∙◌, arith, List, [], ◌∷◌, length,
  All,
}
use gunnchos_gpu_nr_baseband.Base.Powers.{pow-pos}
use gunnchos_gpu_nr_baseband.Crc.{CrcSpec, poly}
use gunnchos_gpu_nr_baseband.Crc.Register.{step-lt, step-injective, step-agree, step-parity}
use gunnchos_gpu_nr_baseband.Crc.Codeword.{IsBit, IsSpec, round, register}

module _ {s : CrcSpec} (v : IsSpec s) where
  abbrev top : ℕ
  top = 2 ^ (s.len - 1)

  -- Over the same bits different registers stay different.
  pub register-injective :
      (bits : List ℕ) (a b : ℕ)
      → All IsBit bits
      → a < 2 ^ s.len
      → b < 2 ^ s.len
      → register s a bits ≡ register s b bits
      → a ≡ b
  register-injective [] a b h ha hb e = e
  register-injective (x ∷ bits) a b h ha hb e =
      let below : (c : ℕ) → round s c x < 2 ^ s.len =
        λ c. step-lt s.len (poly s) c x (pow-pos s.len) v.poly_below in
      let same = register-injective bits (round s a x) (round s b x) h.1 (below a) (below b) e in
      step-injective top (pow-pos (s.len - 1)) (poly s) v.poly_odd a b x (omega (arith, v.width))
        (omega (arith, v.width)) h.0 (rw v.width at same)

  -- Registers that meet after `length xs` rounds agreed before in the low bits that no round shifted
  -- out.
  meet-agree :
      (j : ℕ) (xs ys : List ℕ) (a b : ℕ)
      → length xs ≡ length ys
      → length xs + j ≤ s.len
      → All IsBit xs
      → All IsBit ys
      → register s a xs ≡ register s b ys
      → a % 2 ^ j ≡ b % 2 ^ j
  meet-agree j [] [] a b l h hx hy e = ap (λ (t : ℕ). t % 2 ^ j) e
  meet-agree j [] (y ∷ ys) a b l h hx hy e = absurd (omega arith)
  meet-agree j (x ∷ xs) [] a b l h hx hy e = absurd (omega arith)
  meet-agree j (x ∷ xs) (y ∷ ys) a b l h hx hy e =
      let later =
        meet-agree (suc j) xs ys (round s a x) (round s b y) (omega arith) (omega arith) hx.1 hy.1
          e in
      step-agree top (pow-pos (s.len - 1)) (poly s) v.poly_odd j (s.len - 1) a b x y refl
        (omega arith) hx.0 hy.0 (rw v.width at later)

  -- From one register, different words of at most `len` bits lead to different registers.
  pub word-injective :
      (xs ys : List ℕ) (a : ℕ)
      → length xs ≡ length ys
      → length xs ≤ s.len
      → All IsBit xs
      → All IsBit ys
      → register s a xs ≡ register s a ys
      → xs ≡ ys
  word-injective [] [] a l h hx hy e = refl
  word-injective [] (y ∷ ys) a l h hx hy e = absurd (omega arith)
  word-injective (x ∷ xs) [] a l h hx hy e = absurd (omega arith)
  word-injective (x ∷ xs) (y ∷ ys) a l h hx hy e =
      let later =
        meet-agree 1 xs ys (round s a x) (round s a y) (omega arith) (omega arith) hx.1 hy.1 e in
      let odd = step-parity top (pow-pos (s.len - 1)) (poly s) v.poly_odd in
      let first : x ≡ y = omega (arith, rw v.width at later, odd a x hx.0, odd a y hy.0) in
      ap₂ ◌∷◌ first (
        word-injective xs ys (round s a x) (omega arith) (omega arith) hx.1 hy.1
          (e ∙ ap (λ t. register s (round s a t) ys) (sym first)))
