-- ===== src/Modulation/Examples.antt =====
-- Four bits in two symbols of QPSK, with soft values in thousandths.
use gunnchos_gpu_nr_baseband.Base.{
  ℕ, zero, suc, ◌<◌, ◌≢◌, ◌≡◌, refl, arith, true, false, List, [], ◌∷◌, ok,
}
use gunnchos_gpu_nr_baseband.Base.Int.{ℤ, pos, negsuc}
use gunnchos_gpu_nr_baseband.Base.Signed.{milli_int, milli_signed}
use gunnchos_gpu_nr_baseband.Llr.{llr_to_bits}
use gunnchos_gpu_nr_baseband.Modulation.{
  qpsk, Complex, scale_for, modulate, demodulate_hard, demodulate_llr, symbol_from_index,
}
use gunnchos_gpu_nr_baseband.Modulation.RoundTrip.{spacing, IsSpaced, demodulate_hard-modulate}
use gunnchos_gpu_nr_baseband.Modulation.Soft.{square_of, AreApart, IsAbove}
use gunnchos_gpu_nr_baseband.Modulation.SoftRoundTrip.{demodulate_llr-modulate}

abbrev bits : List ℕ
bits = 0 ∷ 1 ∷ 1 ∷ 0 ∷ []

abbrev symbols : List (Complex ℤ)
symbols = record { re = pos 707; im = negsuc 706 } ∷ record { re = negsuc 706; im = pos 707 } ∷ []

modulate_run : modulate bits qpsk ≡ ok symbols
unfolding modulate
modulate_run = refl

abbrev pub s : ℤ
s = scale_for qpsk

finite : (i : ℕ) → i < 2 → milli_int.lt (spacing s 1 i i) milli_signed.infinity ≡ true
finite zero p = refl
finite (suc zero) p = refl
finite (suc (suc i)) p = absurd (omega arith)

near : (i j : ℕ) → i < 2 → j < 2 → i ≢ j → milli_int.lt (spacing s 1 i i) (spacing s 1 i j) ≡ true
near zero zero p q e = absurd (e refl)
near zero (suc zero) p q e = refl
near zero (suc (suc j)) p q e = absurd (omega arith)
near (suc zero) zero p q e = refl
near (suc zero) (suc zero) p q e = absurd (e refl)
near (suc zero) (suc (suc j)) p q e = absurd (omega arith)
near (suc (suc i)) j p q e = absurd (omega arith)

far : (i j : ℕ) → i < 2 → j < 2 → i ≢ j → milli_int.lt (spacing s 1 i j) (spacing s 1 i i) ≡ false
far zero zero p q e = absurd (e refl)
far zero (suc zero) p q e = refl
far zero (suc (suc j)) p q e = absurd (omega arith)
far (suc zero) zero p q e = refl
far (suc zero) (suc zero) p q e = absurd (e refl)
far (suc zero) (suc (suc j)) p q e = absurd (omega arith)
far (suc (suc i)) j p q e = absurd (omega arith)

pub spaced : IsSpaced s 1
spaced = record { finite = finite; near = near; far = far }

demodulate_hard-modulate_example : demodulate_hard symbols qpsk ≡ bits
demodulate_hard-modulate_example =
    demodulate_hard-modulate bits qpsk symbols spaced
      (omega arith, (omega arith, (omega arith, (omega arith, tt)))) modulate_run

-- `inv2s` for a noise variance of 1/2.
abbrev inv2s : ℤ
inv2s = pos 1000

abbrev pts : ℕ → Complex ℤ
pts i = symbol_from_index i qpsk

infinite : (q : ℕ) → q < 4 → IsAbove inv2s pts q milli_signed.infinity
infinite zero p = (refl, refl, refl, refl)
infinite (suc zero) p = (refl, refl, refl, refl)
infinite (suc (suc zero)) p = (refl, refl, refl, refl)
infinite (suc (suc (suc zero))) p = (refl, refl, refl, refl)
infinite (suc (suc (suc (suc i)))) p = absurd (omega arith)

others : (q p : ℕ) → q < 4 → p < 4 → q ≢ p → IsAbove inv2s pts q (square_of inv2s pts q p)
others zero zero p q e = absurd (e refl)
others zero (suc zero) p q e = (refl, refl, refl, refl)
others zero (suc (suc zero)) p q e = (refl, refl, refl, refl)
others zero (suc (suc (suc zero))) p q e = (refl, refl, refl, refl)
others zero (suc (suc (suc (suc j)))) p q e = absurd (omega arith)
others (suc zero) zero p q e = (refl, refl, refl, refl)
others (suc zero) (suc zero) p q e = absurd (e refl)
others (suc zero) (suc (suc zero)) p q e = (refl, refl, refl, refl)
others (suc zero) (suc (suc (suc zero))) p q e = (refl, refl, refl, refl)
others (suc zero) (suc (suc (suc (suc j)))) p q e = absurd (omega arith)
others (suc (suc zero)) zero p q e = (refl, refl, refl, refl)
others (suc (suc zero)) (suc zero) p q e = (refl, refl, refl, refl)
others (suc (suc zero)) (suc (suc zero)) p q e = absurd (e refl)
others (suc (suc zero)) (suc (suc (suc zero))) p q e = (refl, refl, refl, refl)
others (suc (suc zero)) (suc (suc (suc (suc j)))) p q e = absurd (omega arith)
others (suc (suc (suc zero))) zero p q e = (refl, refl, refl, refl)
others (suc (suc (suc zero))) (suc zero) p q e = (refl, refl, refl, refl)
others (suc (suc (suc zero))) (suc (suc zero)) p q e = (refl, refl, refl, refl)
others (suc (suc (suc zero))) (suc (suc (suc zero))) p q e = absurd (e refl)
others (suc (suc (suc zero))) (suc (suc (suc (suc j)))) p q e = absurd (omega arith)
others (suc (suc (suc (suc i)))) j p q e = absurd (omega arith)

points_apart : AreApart inv2s pts 4
points_apart = record { finite = infinite; others = others }

demodulate_llr-modulate_example :
    (llr : List ℤ) × (demodulate_llr symbols qpsk (pos 500) ≡ ok llr) × (llr_to_bits llr ≡ bits)
demodulate_llr-modulate_example =
    demodulate_llr-modulate bits qpsk (pos 500) symbols points_apart refl
      (omega arith, (omega arith, (omega arith, (omega arith, tt)))) modulate_run
