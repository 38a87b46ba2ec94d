-- ===== src/Crc/Examples.antt =====
-- The CRC at concrete blocks: the vectors of tests/test_crc.cpp in kind, and each law at one input.
use gunnchos_gpu_nr_baseband.Base.{
  ℕ, ◌++◌, ◌≡◌, refl, ◌↔◌, arith, true, false, List, [], ◌∷◌, length, All, ok, throw,
}
use gunnchos_gpu_nr_baseband.Crc.{
  crc24a, crc6, poly, crc_step, crc_loop, compute_crc, crc_attach, crc_check, crc_length_bits,
}
use gunnchos_gpu_nr_baseband.Crc.Codeword.{IsBit}
use gunnchos_gpu_nr_baseband.Crc.Detect.{crc_attach-crc_check, crc_check_iff, crc_check_burst}

abbrev bits : List ℕ
bits = 1 ∷ 0 ∷ 1 ∷ 1 ∷ 0 ∷ 0 ∷ 1 ∷ []

abbrev tail : List ℕ
tail = 0 ∷ 0 ∷ 1 ∷ 1 ∷ 1 ∷ 1 ∷ []

-- The same bits with the middle three turned over.
abbrev hit : List ℕ
hit = 1 ∷ 0 ∷ 0 ∷ 0 ∷ 1 ∷ 0 ∷ 1 ∷ []

attached : crc_attach bits crc6 ≡ ok (bits ++ tail)
unfolding crc_attach compute_crc crc_loop crc_step poly
attached = refl

accepted : crc_check (bits ++ tail) crc6 ≡ ok true
unfolding crc_check compute_crc crc_loop crc_step poly
accepted = refl

too_short : crc_check bits crc24a ≡ throw "coded block shorter than CRC"
unfolding crc_check
too_short = refl

crc_attach-crc_check_example :
    (rest : List ℕ) × (crc_attach bits crc24a ≡ ok (bits ++ rest))
    × (length rest ≡ crc_length_bits crc24a)
    × All IsBit rest
    × (crc_check (bits ++ rest) crc24a ≡ ok true)
crc_attach-crc_check_example = crc_attach-crc_check crc24a bits (omega arith)

crc_check_iff_example :
    (crc_check (bits ++ tail) crc6 ≡ ok true) ↔ (crc_attach bits crc6 ≡ ok (bits ++ tail))
unfolding crc_length_bits
crc_check_iff_example = crc_check_iff crc6 bits tail (omega arith) (omega arith) refl

crc_check_burst_example : crc_check (hit ++ tail) crc6 ≡ ok false
unfolding crc_length_bits
crc_check_burst_example =
    crc_check_burst crc6 (1 ∷ 0 ∷ []) (1 ∷ 1 ∷ 0 ∷ []) (0 ∷ 0 ∷ 1 ∷ []) (0 ∷ 1 ∷ tail) (omega arith)
      (omega arith) (omega arith) (omega arith) refl (omega arith) (omega arith) accepted (λ e. cc)
