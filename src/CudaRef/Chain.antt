-- ===== src/CudaRef/Chain.antt =====
-- The references in a row: bits to QPSK, its values to soft bits, and hard decisions on these.
use gunnchos_gpu_nr_baseband.Base.{
  ℕ, zero, suc, ◌+◌, ◌*◌, ◌/◌, ◌%◌, ◌<◌, ◌≡◌, refl, sym, ap, ap₂, ◌∙◌, arith, bit_or, Bool, true,
  false, List, ◌∷◌, map, if◌then◌else◌, length, get_or, ok, All,
}
use gunnchos_gpu_nr_baseband.Base.Int.{pos, negsuc}
use gunnchos_gpu_nr_baseband.Base.Double.{Double}
use gunnchos_gpu_nr_baseband.Base.Signed.{Signed}
use gunnchos_gpu_nr_baseband.Parity.Rows.{IsBit, get_or-IsBit}
use gunnchos_gpu_nr_baseband.Llr.{llr_to_bits}
use gunnchos_gpu_nr_baseband.Modulation.{
  qpsk, amplitude, gray_to_bin, gray_pam_amp, scale_for, modulate_from, modulate,
}
use gunnchos_gpu_nr_baseband.Modulation.RoundTrip.{window, window_all}
use gunnchos_gpu_nr_baseband.CudaRef.{interleaved, modulate_qpsk_f32, qpsk_llr_f32}

module _ {ℓ κ} {W : Type ℓ} {F : Type κ} ⦃d : Double W⦄ ⦃sg : Signed W⦄ ⦃f : Double F⦄
    ⦃fs : Signed F⦄ (narrow : W → F) (noise_var : F) where
  abbrev scale : F
  scale = f.div (f.lit 2 1) noise_var

  -- Whether an axis of a symbol is decided as a 0.
  abbrev pub decides_zero : W → Bool
  decides_zero amp = f.le (f.lit 0 1) (f.mul scale (narrow (d.mul (scale_for qpsk) amp)))

  module _ (plus : decides_zero (sg.of_int (pos 1)) ≡ true)
      (minus : decides_zero (sg.of_int (negsuc 0)) ≡ false) (bits : List ℕ)
      (fine : All IsBit bits) where
    axis_decides :
        (b : ℕ)
        → b < 2
        → (if decides_zero (sg.of_int (amplitude 1 (gray_to_bin (bit_or (0 * 2) b)))) then 0 else 1)
          ≡ b
    axis_decides zero p = rw plus refl
    axis_decides (suc zero) p = rw minus refl
    axis_decides (suc (suc b)) p = absurd (omega arith)

    at_axis :
        (i : ℕ)
        → (if decides_zero (sg.of_int (gray_pam_amp bits i 1)) then 0 else 1) ≡ get_or bits i 0
    at_axis i = axis_decides (get_or bits i 0) (get_or-IsBit bits i fine)

    decided :
        (left i : ℕ)
        → llr_to_bits
            (map (λ x. f.mul scale x) (interleaved narrow (modulate_from bits qpsk i left)))
          ≡ window bits i (left * 2)
    unfolding llr_to_bits
    decided zero i = refl
    decided (suc left) i =
        let size : suc left * 2 ≡ suc (suc (left * 2)) = omega arith in
        let place : i + 2 ≡ suc (suc i) = omega arith in
        let next : i + 1 ≡ suc i = omega arith in
        ap₂ ◌∷◌ (at_axis i) (
          ap₂ ◌∷◌ (at_axis (i + 1) ∙ ap (λ (t : ℕ). get_or bits t 0) next)
            (decided left (i + 2) ∙ ap (λ (t : ℕ). window bits t (left * 2)) place))
        ∙ ap (window bits i) (sym size)

    -- An even number of bits is modulated, the values are made soft, and hard decisions on them give the
    -- bits back, where the conversion to `float` and the scaling keep the signs of both amplitudes and the
    -- noise is positive.
    pub qpsk_llr_f32-modulate_qpsk_f32 :
        length bits % 2 ≡ 0
        → f.lt (f.lit 0 1) noise_var ≡ true
        → (iq : List F) × (llr : List F) × (modulate_qpsk_f32 narrow bits ≡ ok iq)
          × (qpsk_llr_f32 iq noise_var ≡ ok llr)
          × (llr_to_bits llr ≡ bits)
    unfolding modulate_qpsk_f32 modulate qpsk_llr_f32
    qpsk_llr_f32-modulate_qpsk_f32 even noise =
        let n : ℕ = length bits / 2 in
        let iq : List F = interleaved narrow (modulate_from bits qpsk 0 n) in
        let pairs = length-interleaved n 0 in
        let halves : length iq % 2 ≡ 0 = omega (arith, pairs) in
        let size : n * 2 ≡ length bits = omega arith in
        (
          iq,
          map (λ x. f.mul scale x) iq,
          rw even refl,
          rw (halves, noise) refl,
          decided n 0 ∙ ap (window bits 0) size ∙ window_all bits,
        )
      where
        length-interleaved :
            (left i : ℕ)
            → length (interleaved narrow (modulate_from {W = W} bits qpsk i left)) ≡ left * 2
        length-interleaved zero i = refl
        length-interleaved (suc left) i = omega (arith, length-interleaved left (i + 2))
