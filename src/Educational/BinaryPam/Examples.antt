-- ===== src/Educational/BinaryPam/Examples.antt =====
-- Four bits in two symbols of QPSK, with soft values in thousandths.
use gunnchos_gpu_nr_baseband.Base.{ℕ, ◌≡◌, refl, arith, List, [], ◌∷◌, ok}
use gunnchos_gpu_nr_baseband.Base.Int.{ℤ, pos, negsuc}
use gunnchos_gpu_nr_baseband.Base.Signed.{milli_int, milli_signed}
use gunnchos_gpu_nr_baseband.Llr.{llr_to_bits}
use gunnchos_gpu_nr_baseband.Modulation.{qpsk, Complex}
use gunnchos_gpu_nr_baseband.Modulation.Examples.{spaced}
use gunnchos_gpu_nr_baseband.Educational.BinaryPam.{modulate_binary_pam, hard_constant_llr}
use gunnchos_gpu_nr_baseband.Educational.BinaryPam.RoundTrip.{hard_constant_llr-modulate_binary_pam}

abbrev bits : List ℕ
bits = 0 ∷ 1 ∷ 1 ∷ 0 ∷ []

abbrev symbols : List (Complex ℤ)
symbols = record { re = negsuc 706; im = pos 707 } ∷ record { re = pos 707; im = negsuc 706 } ∷ []

modulate_binary_pam_run : modulate_binary_pam bits qpsk ≡ ok symbols
unfolding modulate_binary_pam
modulate_binary_pam_run = refl

hard_constant_llr-modulate_binary_pam_example :
    llr_to_bits (hard_constant_llr symbols qpsk (pos 4000)) ≡ bits
hard_constant_llr-modulate_binary_pam_example =
    hard_constant_llr-modulate_binary_pam bits qpsk (pos 4000) symbols spaced refl refl
      (omega arith, (omega arith, (omega arith, (omega arith, tt)))) modulate_binary_pam_run
