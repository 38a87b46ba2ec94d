-- ===== src/CudaRef/Examples.antt =====
-- Two runs of three values, and four bits in two symbols, with both kinds of numbers in thousandths.
use gunnchos_gpu_nr_baseband.Base.{ℕ, ◌≡◌, refl, arith, true, false, List, [], ◌∷◌, ok}
use gunnchos_gpu_nr_baseband.Base.Int.{ℤ, pos, negsuc}
use gunnchos_gpu_nr_baseband.Base.Signed.{milli_int, milli_signed}
use gunnchos_gpu_nr_baseband.Llr.{llr_to_bits}
use gunnchos_gpu_nr_baseband.CudaRef.{compare_f32, modulate_qpsk_f32, qpsk_llr_f32, mmse_tone_f32}
use gunnchos_gpu_nr_baseband.CudaRef.Chain.{qpsk_llr_f32-modulate_qpsk_f32}

abbrev same : ℤ → ℤ
same x = x

abbrev first : List ℤ
first = pos 1000 ∷ negsuc 499 ∷ pos 20 ∷ []

abbrev second : List ℤ
second = pos 1001 ∷ negsuc 498 ∷ pos 30 ∷ []

-- The last values are 10 apart.
compare_run :
    ((compare_f32 same first second "fir" (pos 10)).is_match ≡ true)
    × ((compare_f32 same first second "fir" (pos 9)).is_match ≡ false)
unfolding compare_f32
compare_run = (refl, refl)

-- A run with fewer channels than tones has a result, in which the last tone meets a channel of 0.
mmse_short_run :
    mmse_tone_f32
      (pos 1000 ∷ pos 1000 ∷ [])
      (pos 0 ∷ pos 0 ∷ [])
      (pos 1000 ∷ [])
      (pos 0 ∷ [])
      (pos 1000)
    ≡ ok (pos 500 ∷ pos 0 ∷ [], pos 0 ∷ pos 0 ∷ [])
unfolding mmse_tone_f32
mmse_short_run = refl

abbrev bits : List ℕ
bits = 0 ∷ 1 ∷ 1 ∷ 0 ∷ []

qpsk_llr_f32-modulate_qpsk_f32_example :
    (iq : List ℤ) × (llr : List ℤ) × (modulate_qpsk_f32 same bits ≡ ok iq)
    × (qpsk_llr_f32 iq (pos 500) ≡ ok llr)
    × (llr_to_bits llr ≡ bits)
qpsk_llr_f32-modulate_qpsk_f32_example =
    qpsk_llr_f32-modulate_qpsk_f32 same (pos 500) refl refl bits
      (omega arith, (omega arith, (omega arith, (omega arith, tt)))) refl refl
