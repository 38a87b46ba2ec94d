-- ===== src/Crc/Codeword.antt =====
-- The loop over bits, and `crc_attach` followed by `crc_check`.
use gunnchos_gpu_nr_baseband.Base.{
  ℕ, zero, suc, ◌-◌, ◌*◌, ◌%◌, ◌^◌, ◌<◌, ◌≡◌, refl, ap, arith, List, [], ◌∷◌, ◌++◌, length, All, ok,
}
use gunnchos_gpu_nr_baseband.Base.Powers.{pow-pos}
use gunnchos_gpu_nr_baseband.Crc.{
  CrcType, CrcSpec, crc24a, spec, poly, crc_step, crc_loop, bits_msb,
}
use gunnchos_gpu_nr_baseband.Crc.Register.{step-lt}

abbrev pub IsBit : ℕ → Type 0
IsBit b = b < 2

-- What the proofs use of a polynomial.
pub record IsSpec (s : CrcSpec) : Type 0 where
  pub len_pos : 0 < s.len
  pub width : 2 ^ s.len ≡ 2 * 2 ^ (s.len - 1)
  pub poly_odd : poly s % 2 ≡ 1
  pub poly_below : poly s < 2 ^ s.len

pub spec-IsSpec : (t : CrcType) → IsSpec (spec t)
unfolding poly
spec-IsSpec crc24a = omega arith
spec-IsSpec _ = omega arith

abbrev pub round : CrcSpec → ℕ → ℕ → ℕ
round s crc b = crc_step (2 ^ s.len) (2 ^ (s.len - 1)) (poly s) crc b

-- The register after the bits, with no check of them.
abbrev pub register : CrcSpec → ℕ → List ℕ → ℕ
register s crc [] = crc
register s crc (b ∷ bits) = register s (round s crc b) bits

pub crc_loop-register :
    (s : CrcSpec) (crc : ℕ) (bits : List ℕ)
    → All IsBit bits
    → crc_loop s crc bits ≡ ok (register s crc bits)
unfolding crc_loop
crc_loop-register s crc [] h = refl
crc_loop-register s crc (b ∷ bits) h = ground (arith, crc_loop-register s (round s crc b) bits h.1)

pub register-append :
    (s : CrcSpec) (crc : ℕ) (xs ys : List ℕ)
    → register s crc (xs ++ ys) ≡ register s (register s crc xs) ys
register-append s crc [] ys = refl
register-append s crc (x ∷ xs) ys = register-append s (round s crc x) xs ys

pub register-lt :
    {s : CrcSpec}
    → IsSpec s
    → (crc : ℕ) (bits : List ℕ) → crc < 2 ^ s.len
    → register s crc bits < 2 ^ s.len
register-lt v crc [] h = h
register-lt {s} v crc (b ∷ bits) h =
    register-lt v (round s crc b) bits (step-lt s.len (poly s) crc b (pow-pos s.len) v.poly_below)

pub bits_msb-IsBit : (n r : ℕ) → All IsBit (bits_msb n r)
bits_msb-IsBit zero r = tt
bits_msb-IsBit (suc n) r = (omega arith, bits_msb-IsBit n r)

pub length-bits_msb : (n r : ℕ) → length (bits_msb n r) ≡ n
length-bits_msb zero r = refl
length-bits_msb (suc n) r = ap suc (length-bits_msb n r)
