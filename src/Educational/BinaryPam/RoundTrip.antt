-- ===== src/Educational/BinaryPam/RoundTrip.antt =====
-- Hard decisions on the soft bits of symbols without the Gray code.
use native.Mathlib.Nat.{div-add-mod}
use gunnchos_gpu_nr_baseband.Base.{
  ℕ, zero, suc, ◌+◌, ◌*◌, ◌/◌, ◌%◌, ◌^◌, ◌≡◌, refl, sym, ap, ap₂, ◌∙◌, arith, true, false, Bool,
  ◌&&◌, List, [], ◌∷◌, ◌++◌, map, if◌then◌else◌, ◌==◌, ltb, ltb→lt, length, get_or, All, ok,
  require-eq-ok, ==_iff, length-tabulate_from, get_or-tabulate_from, All-tabulate_from,
}
use gunnchos_gpu_nr_baseband.Base.Enumerate.{
  every_word, every_word_lem, same_bits, same_bits-eq, both_true,
}
use gunnchos_gpu_nr_baseband.Base.Double.{Double}
use gunnchos_gpu_nr_baseband.Base.Signed.{Signed}
use gunnchos_gpu_nr_baseband.Parity.Rows.{IsBit, get_or-IsBit}
use gunnchos_gpu_nr_baseband.Llr.{llr_to_bits}
use gunnchos_gpu_nr_baseband.Modulation.{
  ModulationOrder, qpsk, qam16, qam64, qam256, bits_per_symbol, half_of, gather, tried, Complex,
  scale_for, nearest,
}
use gunnchos_gpu_nr_baseband.Modulation.Axis.{gather_window}
use gunnchos_gpu_nr_baseband.Modulation.RoundTrip.{
  IsSpaced, nearest-point, half_twice, window, window_join, window_all,
}
use gunnchos_gpu_nr_baseband.Educational.BinaryPam.{
  amp_from_bits, bits_from, pam_from, modulate_binary_pam, hard_of, hard_constant_llr,
}

-- The number of a word is one of the levels, and its amplitude has the word as its bits.
abbrev word_good : ℕ → List ℕ → Bool
word_good nbits bits =
    same_bits (bits_from (amp_from_bits bits 0 nbits) nbits) bits
    && ltb (gather bits 0 nbits 0) (2 ^ nbits)

words_good :
    (order : ModulationOrder) → every_word (half_of order) (word_good (half_of order)) ≡ true
words_good qpsk = refl
words_good qam16 = refl
words_good qam64 = refl
words_good qam256 = refl

module _ {ℓ} {W : Type ℓ} ⦃d : Double W⦄ ⦃sg : Signed W⦄ (order : ModulationOrder)
    (apart : IsSpaced {W = W} (scale_for order) (half_of order)) (bits : List ℕ)
    (fine : All IsBit bits) where
  axis_back :
      (word : List ℕ)
      → length word ≡ half_of order
      → All IsBit word
      → bits_from
          (nearest
            (scale_for order)
            (half_of order)
            (d.mul (scale_for order) (sg.of_int (amp_from_bits word 0 (half_of order)))))
          (half_of order)
        ≡ word
  axis_back word size h =
      let (back, below) = both_true _ _ (
        every_word_lem (half_of order) (word_good (half_of order)) word (words_good order) size
          h) in
      ap (λ a. bits_from a (half_of order))
        (nearest-point (scale_for order) (half_of order) apart (gather word 0 (half_of order) 0)
          (ltb→lt _ _ below))
      ∙ same_bits-eq _ _ back

  axis_window :
      (i : ℕ)
      → bits_from
          (nearest
            (scale_for order)
            (half_of order)
            (d.mul (scale_for order) (sg.of_int (amp_from_bits bits i (half_of order)))))
          (half_of order)
        ≡ window bits i (half_of order)
  axis_window i =
      let n : ℕ = half_of order in
      let same : gather bits i n 0 ≡ gather (window bits i n) 0 n 0 =
        gather_window bits (window bits i n) i 0 n 0 (λ j p.
          let place : 0 + j ≡ j = omega arith in
          sym (
            ap (λ (t : ℕ). get_or (window bits i n) t 0) place
            ∙ get_or-tabulate_from i n (λ k. get_or bits k 0) j 0 p)) in
      ap
        (λ (v : ℕ).
          bits_from (nearest (scale_for order) n (d.mul (scale_for order) (sg.of_int (tried n v))))
            n)
        same
      ∙ axis_back (window bits i n) (length-tabulate_from i n _)
          (All-tabulate_from IsBit i n _ (λ j. get_or-IsBit bits j fine))

  decided_from :
      (left i : ℕ)
      → hard_of {W = W} (pam_from bits order i left) order
        ≡ window bits i (left * bits_per_symbol order)
  decided_from zero i = let nothing : 0 * bits_per_symbol order ≡ 0 = omega arith in rw nothing refl
  decided_from (suc left) i =
      let n : ℕ = half_of order in
      let rest : ℕ = left * bits_per_symbol order in
      let twice = half_twice order in
      let place : i + bits_per_symbol order ≡ i + n + n = omega arith in
      let size : suc left * bits_per_symbol order ≡ n + (n + rest) = omega arith in
      ap₂ ◌++◌ (ap₂ ◌++◌ (axis_window i) (axis_window (i + n)))
        (decided_from left (i + bits_per_symbol order) ∙ ap (λ (t : ℕ). window bits t rest) place)
      ∙ window_join bits i n rest
      ∙ ap (window bits i) (sym size)

module _ {ℓ} {W : Type ℓ} ⦃d : Double W⦄ ⦃sg : Signed W⦄ where
  -- The signs of soft bits of one magnitude are the hard decisions.
  signs_back :
      (magnitude : W) (hard : List ℕ)
      → d.le (d.lit 0 1) magnitude ≡ true
      → d.le (d.lit 0 1) (sg.neg magnitude) ≡ false
      → All IsBit hard
      → llr_to_bits (map (λ b. if b == 0 then magnitude else sg.neg magnitude) hard) ≡ hard
  unfolding llr_to_bits
  signs_back magnitude [] plus minus h = refl
  signs_back magnitude (zero ∷ hard) plus minus h =
      ap₂ ◌∷◌ (rw plus refl) (signs_back magnitude hard plus minus h.1)
  signs_back magnitude (suc zero ∷ hard) plus minus h =
      ap₂ ◌∷◌ (rw minus refl) (signs_back magnitude hard plus minus h.1)
  signs_back magnitude (suc (suc b) ∷ hard) plus minus h = absurd (omega (arith, h.0))

-- Bits that are modulated without the Gray code come back from the signs of the soft bits, in each of the
-- four constellations. It is asked of the soft values that every amplitude, scaled, is at a finite distance
-- of itself and nearer to itself than to the others of its axis, and that the magnitude counts as positive
-- and its negative does not.
pub hard_constant_llr-modulate_binary_pam {ℓ} :
    {W : Type ℓ} ⦃d : Double W⦄ ⦃sg : Signed W⦄ (bits : List ℕ) (order : ModulationOrder)
    (magnitude : W) (syms : List (Complex W))
    → IsSpaced {W = W} (scale_for order) (half_of order)
    → d.le (d.lit 0 1) magnitude ≡ true
    → d.le (d.lit 0 1) (sg.neg magnitude) ≡ false
    → All IsBit bits
    → modulate_binary_pam bits order ≡ ok syms
    → llr_to_bits (hard_constant_llr syms order magnitude) ≡ bits
unfolding modulate_binary_pam hard_constant_llr
hard_constant_llr-modulate_binary_pam ⦃sg⦄ bits order magnitude syms apart plus minus fine e =
    let m : ℕ = bits_per_symbol order in
    let (test, made) = require-eq-ok (length bits % m == 0) "bit length not multiple of Qm" _ e in
    let whole : length bits % m ≡ 0 = (==_iff (length bits % m) 0).0 test in
    let same : pam_from bits order 0 (length bits / m) ≡ syms = cc in
    let size : length bits / m * m ≡ length bits = omega (arith, div-add-mod (length bits) m) in
    let hard : hard_of syms order ≡ bits =
      ap (λ (z : List (Complex _)). hard_of z order) (sym same)
      ∙ decided_from order apart bits fine (length bits / m) 0
      ∙ ap (window bits 0) size
      ∙ window_all bits in
    ap (λ (h : List ℕ). llr_to_bits (map (λ b. if b == 0 then magnitude else sg.neg magnitude) h))
      hard
    ∙ signs_back magnitude bits plus minus fine
