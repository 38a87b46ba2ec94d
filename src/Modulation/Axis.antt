-- ===== src/Modulation/Axis.antt =====
-- One axis: the bits of an amplitude, for each of the four sizes, by running through all words of bits.
use gunnchos_gpu_nr_baseband.Base.{
  ℕ, zero, suc, ◌+◌, ◌-◌, ◌*◌, ◌^◌, ◌<◌, ◌≡◌, refl, sym, ap, ◌∙◌, arith, bit_or, Bool, true, false,
  ◌&&◌, List, ◌==◌, length, get_or, All, ==_iff,
}
use gunnchos_gpu_nr_baseband.Base.Int.{ℤ, pos, negsuc}
use gunnchos_gpu_nr_baseband.Base.Enumerate.{
  every_word, every_word_lem, same_bits, same_bits-eq, both_true,
}
use gunnchos_gpu_nr_baseband.Modulation.{
  ModulationOrder, qpsk, qam16, qam64, qam256, half_of, gather, gray_to_bin, gray_pam_amp,
  gray_bits_from_amp, tried,
}

-- The number of the level among those that `nearest` tries.
abbrev pub level_index : ℕ → List ℕ → ℕ
level_index nbits bits = 2 ^ nbits - 1 - gray_to_bin (gather bits 0 nbits 0)

abbrev same_int : ℤ → ℤ → Bool
same_int (pos a) (pos b) = a == b
same_int (negsuc a) (negsuc b) = a == b
same_int (pos a) (negsuc b) = false
same_int (negsuc a) (pos b) = false

same_int-eq : (a b : ℤ) → same_int a b ≡ true → a ≡ b
same_int-eq (pos a) (pos b) e = ap pos ((==_iff a b).0 e)
same_int-eq (negsuc a) (negsuc b) e = ap negsuc ((==_iff a b).0 e)
same_int-eq (pos a) (negsuc b) e = cc
same_int-eq (negsuc a) (pos b) e = cc

-- The amplitude is one that `nearest` tries, and its bits are those that it came from.
abbrev axis_good : ℕ → List ℕ → Bool
axis_good nbits bits =
    same_bits (gray_bits_from_amp (gray_pam_amp bits 0 nbits) nbits) bits
    && same_int (gray_pam_amp bits 0 nbits) (tried nbits (level_index nbits bits))

axes_good :
    (order : ModulationOrder) → every_word (half_of order) (axis_good (half_of order)) ≡ true
axes_good qpsk = refl
axes_good qam16 = refl
axes_good qam64 = refl
axes_good qam256 = refl

pub axis_lem :
    (order : ModulationOrder) (bits : List ℕ)
    → length bits ≡ half_of order
    → All (λ b. b < 2) bits
    → (gray_bits_from_amp (gray_pam_amp bits 0 (half_of order)) (half_of order) ≡ bits)
      × (gray_pam_amp bits 0 (half_of order)
          ≡ tried (half_of order) (level_index (half_of order) bits))
axis_lem order bits size fine =
    let good =
      every_word_lem (half_of order) (axis_good (half_of order)) bits (axes_good order) size fine in
    let (back, level) = both_true _ _ good in (same_bits-eq _ _ back, same_int-eq _ _ level)

-- The bits of a window are gathered as those of a list of their own.
pub gather_window :
    (xs ys : List ℕ) (i k left g : ℕ)
    → ((j : ℕ) → j < left → get_or xs (i + j) 0 ≡ get_or ys (k + j) 0)
    → gather xs i left g ≡ gather ys k left g
gather_window xs ys i k zero g same = refl
gather_window xs ys i k (suc left) g same =
    let i0 : i + 0 ≡ i = omega arith in
    let k0 : k + 0 ≡ k = omega arith in
    let here : get_or xs i 0 ≡ get_or ys k 0 =
      ap (λ (t : ℕ). get_or xs t 0) (sym i0)
      ∙ same 0 (omega arith)
      ∙ ap (λ (t : ℕ). get_or ys t 0) k0 in
    ap (λ (b : ℕ). gather xs (suc i) left (bit_or (g * 2) b)) here
    ∙ gather_window xs ys (suc i) (suc k) left _ (λ j p.
      let i1 : suc i + j ≡ i + suc j = omega arith in
      let k1 : k + suc j ≡ suc k + j = omega arith in
      ap (λ (t : ℕ). get_or xs t 0) i1
      ∙ same (suc j) (omega arith)
      ∙ ap (λ (t : ℕ). get_or ys t 0) k1)
