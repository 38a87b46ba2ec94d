-- ===== src/Modulation/SoftRoundTrip.antt =====
-- Soft bits of the symbols of `modulate`: their signs are the bits.
use native.Mathlib.Nat.{div-add-mod}
use gunnchos_gpu_nr_baseband.Base.{
  ℕ, zero, suc, ◌+◌, ◌*◌, ◌/◌, ◌%◌, ◌^◌, ◌≤◌, ◌<◌, ◌≡◌, refl, sym, ap, ap₂, ◌∙◌, arith, Bool, true,
  ◌&&◌, List, [], ◌∷◌, ◌++◌, if◌then◌else◌, ◌==◌, ltb, ltb→lt, length, get_or, All, ok,
  require-eq-ok, ==_iff, length-tabulate_from, get_or-tabulate_from, get_or-tabulate, get_or_ext,
  tabulate_from-append, All-tabulate_from,
}
use gunnchos_gpu_nr_baseband.Base.Double.{Double}
use gunnchos_gpu_nr_baseband.Base.Enumerate.{
  every_word, every_word_lem, same_bits, same_bits-eq, both_true,
}
use gunnchos_gpu_nr_baseband.Base.Int.{ℤ}
use gunnchos_gpu_nr_baseband.Base.Signed.{Signed}
use gunnchos_gpu_nr_baseband.Llr.{llr_to_bits}
use gunnchos_gpu_nr_baseband.Parity.Rows.{IsBit, get_or-IsBit}
use gunnchos_gpu_nr_baseband.Modulation.{
  ModulationOrder, qpsk, qam16, qam64, qam256, bits_per_symbol, half_of, gather, gray_pam_amp,
  amplitude, gray_to_bin, write_msb, Complex, scale_for, scaled, symbol_from_index, constellation,
  modulate_from, modulate, symbol_llr, symbols_llr, demodulate_llr,
}
use gunnchos_gpu_nr_baseband.Modulation.Axis.{gather_window}
use gunnchos_gpu_nr_baseband.Modulation.RoundTrip.{window, half_twice}
use gunnchos_gpu_nr_baseband.Modulation.Soft.{AreApart, symbol_llr_bits}

-- The number of a word among the points of the constellation.
abbrev index_of : ℕ → List ℕ → ℕ
index_of m bits = gather bits 0 m 0

abbrev index_good : ℕ → List ℕ → Bool
index_good m bits = ltb (index_of m bits) (2 ^ m) && same_bits (write_msb m (index_of m bits)) bits

indices_good :
    (order : ModulationOrder)
    → every_word (bits_per_symbol order) (index_good (bits_per_symbol order)) ≡ true
indices_good qpsk = refl
indices_good qam16 = refl
indices_good qam64 = refl
indices_good qam256 = refl

index_lem :
    (order : ModulationOrder) (bits : List ℕ)
    → length bits ≡ bits_per_symbol order
    → All (λ b. b < 2) bits
    → (index_of (bits_per_symbol order) bits < 2 ^ bits_per_symbol order)
      × (write_msb (bits_per_symbol order) (index_of (bits_per_symbol order) bits) ≡ bits)
index_lem order bits size fine =
    let m : ℕ = bits_per_symbol order in
    let good = every_word_lem m (index_good m) bits (indices_good order) size fine in
    let (small, back) = both_true (ltb (index_of m bits) (2 ^ m)) _ good in
    (ltb→lt _ _ small, same_bits-eq _ _ back)

-- An amplitude inside a window is that of the bits of the window.
amp_inside :
    (bits : List ℕ) (i m a n : ℕ)
    → a + n ≤ m
    → gray_pam_amp bits (i + a) n ≡ gray_pam_amp (window bits i m) a n
amp_inside bits i m a n fits =
    ap (λ (g : ℕ). amplitude n (gray_to_bin g))
      (gather_window bits (window bits i m) (i + a) a n 0 (λ j p.
        let place : i + a + j ≡ i + (a + j) = omega arith in
        ap (λ (t : ℕ). get_or bits t 0) place
        ∙ sym (get_or-tabulate_from i m (λ k. get_or bits k 0) (a + j) 0 (omega arith))))

pub llr_to_bits-append {ℓ} :
    {W : Type ℓ} ⦃d : Double W⦄ (xs ys : List W)
    → llr_to_bits (xs ++ ys) ≡ llr_to_bits xs ++ llr_to_bits ys
unfolding llr_to_bits
llr_to_bits-append [] ys = refl
llr_to_bits-append ⦃d⦄ (x ∷ xs) ys =
    ap (◌∷◌ (if d.le (d.lit 0 1) x then 0 else 1)) (llr_to_bits-append xs ys)

module _ {ℓ} {W : Type ℓ} ⦃d : Double W⦄ ⦃sg : Signed W⦄ (order : ModulationOrder) (bits : List ℕ)
    (fine : All IsBit bits) where
  -- A symbol of `modulate` is the point of the constellation that has the number of its bits.
  symbol_is_point :
      (i : ℕ)
      → scaled {W = W}
          (scale_for order)
          (gray_pam_amp bits i (half_of order))
          (gray_pam_amp bits (i + half_of order) (half_of order))
        ≡ symbol_from_index
            (index_of (bits_per_symbol order) (window bits i (bits_per_symbol order)))
            order
  symbol_is_point i =
      let n : ℕ = half_of order in
      let m : ℕ = bits_per_symbol order in
      let twice = half_twice order in
      let w : List ℕ = window bits i m in
      let word : write_msb m (index_of m w) ≡ w =
        (index_lem order w (length-tabulate_from i m _)
          (All-tabulate_from IsBit i m _ (λ j. get_or-IsBit bits j fine))).1 in
      let here : i + 0 ≡ i = omega arith in
      let re : gray_pam_amp bits i n ≡ gray_pam_amp (write_msb m (index_of m w)) 0 n =
        ap (λ (t : ℕ). gray_pam_amp bits t n) (sym here)
        ∙ amp_inside bits i m 0 n (omega arith)
        ∙ ap (λ (v : List ℕ). gray_pam_amp v 0 n) (sym word) in
      let im : gray_pam_amp bits (i + n) n ≡ gray_pam_amp (write_msb m (index_of m w)) n n =
        amp_inside bits i m n n (omega arith)
        ∙ ap (λ (v : List ℕ). gray_pam_amp v n n) (sym word) in
      ap₂ (λ (a b : ℤ). scaled (scale_for order) a b) re im

  module _ (inv2s : W)
      (apart : AreApart inv2s (λ i. symbol_from_index i order) (2 ^ bits_per_symbol order)) where
    soft_from :
        (left i : ℕ)
        → llr_to_bits (
            symbols_llr inv2s
              (constellation order)
              (bits_per_symbol order)
              (modulate_from bits order i left))
          ≡ window bits i (left * bits_per_symbol order)
    unfolding llr_to_bits constellation
    soft_from zero i = let nothing : 0 * bits_per_symbol order ≡ 0 = omega arith in rw nothing refl
    soft_from (suc left) i =
        let m : ℕ = bits_per_symbol order in
        let w : List ℕ = window bits i m in
        let (small, word) =
          index_lem order w (length-tabulate_from i m _)
            (All-tabulate_from IsBit i m _ (λ j. get_or-IsBit bits j fine)) in
        let size : suc left * m ≡ m + left * m = omega arith in
        llr_to_bits-append
          (symbol_llr inv2s (constellation order) m
            (scaled (scale_for order) (gray_pam_amp bits i (half_of order))
              (gray_pam_amp bits (i + half_of order) (half_of order)))
            m 0)
          (symbols_llr inv2s (constellation order) m (modulate_from bits order (i + m) left))
        ∙ ap₂ ◌++◌
            (ap (λ (y : Complex W). llr_to_bits (symbol_llr inv2s (constellation order) m y m 0))
                (symbol_is_point i)
              ∙ symbol_llr_bits inv2s (λ p. symbol_from_index p order) (2 ^ m) apart (index_of m w)
                  small m m 0 (omega arith)
              ∙ word)
            (soft_from left (i + m))
        ∙ sym (tabulate_from-append i m (left * m) (λ j. get_or bits j 0))
        ∙ ap (window bits i) (sym size)

-- The max-log soft bits of modulated bits decide as the bits do, in each of the four constellations and
-- for every positive noise variance. It is asked of the soft values that the points of the constellation
-- are apart: infinity and the squared distance to another point count as above the squared distance of a
-- point from itself, also in the sign of a scaled difference.
pub demodulate_llr-modulate {ℓ} :
    {W : Type ℓ} ⦃d : Double W⦄ ⦃sg : Signed W⦄ (bits : List ℕ) (order : ModulationOrder)
    (noise_var : W) (syms : List (Complex W))
    → AreApart
        (d.div (d.lit 1 1) (d.mul (d.lit 2 1) noise_var))
        (λ i. symbol_from_index i order)
        (2 ^ bits_per_symbol order)
    → d.lt (d.lit 0 1) noise_var ≡ true
    → All IsBit bits
    → modulate bits order ≡ ok syms
    → (llr : List W) × (demodulate_llr syms order noise_var ≡ ok llr) × (llr_to_bits llr ≡ bits)
unfolding modulate demodulate_llr
demodulate_llr-modulate {W} ⦃d⦄ ⦃sg⦄ bits order noise_var syms apart positive fine e =
    let m : ℕ = bits_per_symbol order in
    let inv2s : W = d.div (d.lit 1 1) (d.mul (d.lit 2 1) noise_var) in
    let (test, made) = require-eq-ok (length bits % m == 0) "bit length not multiple of Qm" _ e in
    let whole : length bits % m ≡ 0 = (==_iff (length bits % m) 0).0 test in
    let same : modulate_from bits order 0 (length bits / m) ≡ syms = cc in
    let size : length bits / m * m ≡ length bits = omega (arith, div-add-mod (length bits) m) in
    (
      symbols_llr inv2s (constellation order) m syms,
      rw positive refl,
      ap (λ (z : List (Complex W)). llr_to_bits (symbols_llr inv2s (constellation order) m z))
            (sym same)
          ∙ soft_from order bits fine inv2s apart (length bits / m) 0
          ∙ ap (window bits 0) size
          ∙ get_or_ext _ _ 0 (length-tabulate_from 0 (length bits) _) (λ j p.
            get_or-tabulate (length bits) (λ k. get_or bits k 0) j 0
              (omega (arith, length-tabulate_from {A = ℕ} 0 (length bits) (λ k. get_or bits k 0)))),
    )
