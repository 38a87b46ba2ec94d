-- ===== src/Dmrs/Symbols.antt =====
-- The reference symbols against the modulator, and the grid they are written to.
use mathlib.Core.Path.{subst}
use gunnchos_gpu_nr_baseband.Base.{
  ℕ, zero, suc, ◌+◌, ◌*◌, ◌/◌, ◌%◌, bit_or, ◌<◌, ◌≡◌, ◌≢◌, refl, sym, ap, ap₂, ◌∙◌, arith, ◌&&◌,
  List, [], length, get_or, ok, require-eq-ok, true, All, get_or_ext,
}
use gunnchos_gpu_nr_baseband.Base.Int.{ℤ, pos, negsuc}
use gunnchos_gpu_nr_baseband.Base.Double.{Double}
use gunnchos_gpu_nr_baseband.Base.Signed.{Signed, magnitude, leb_int, ltb_int}
use gunnchos_gpu_nr_baseband.Scrambling.{gold_sequence}
use gunnchos_gpu_nr_baseband.Scrambling.Laws.{IsBit, gold_sequence-IsBit, length-gold_sequence}
use gunnchos_gpu_nr_baseband.Parity.Rows.{get_or-IsBit}
use gunnchos_gpu_nr_baseband.Modulation.{
  qpsk, Complex, amplitude, gray_to_bin, gray_pam_amp, scale_for, modulate_from, modulate,
}
use gunnchos_gpu_nr_baseband.Estimation.{origin}
use gunnchos_gpu_nr_baseband.Dmrs.{
  DmrsConfig, DmrsGrid, sign_of, reference_symbol, place_symbols, generate_dmrs,
}
use gunnchos_gpu_nr_baseband.Dmrs.Grid.{
  entry, IsPlaced, place_symbols-IsPlaced, start, start-IsPlaced,
}

-- The sign of a bit is the amplitude of a symbol with one bit on each axis.
module _ {ℓ} {W : Type ℓ} ⦃d : Double W⦄ ⦃sg : Signed W⦄ (one : sg.of_int (pos 1) ≡ d.lit 1 1)
    (minus_one : sg.of_int (negsuc 0) ≡ sg.neg (d.lit 1 1)) where
  sign_of-amplitude :
      (b : ℕ) → b < 2 → sg.of_int (amplitude 1 (gray_to_bin (bit_or (0 * 2) b))) ≡ sign_of b
  sign_of-amplitude zero p = one
  sign_of-amplitude (suc zero) p = minus_one
  sign_of-amplitude (suc (suc b)) p = absurd (omega arith)

  axis_agrees :
      (bits : List ℕ) (i : ℕ)
      → All IsBit bits
      → sg.of_int (gray_pam_amp bits i 1) ≡ sign_of (get_or bits i 0)
  axis_agrees bits i h = sign_of-amplitude (get_or bits i 0) (get_or-IsBit bits i h)

  length-modulate_from :
      (bits : List ℕ) (i left : ℕ) → length (modulate_from {W = W} bits qpsk i left) ≡ left
  length-modulate_from bits i zero = refl
  length-modulate_from bits i (suc left) = ap suc (length-modulate_from bits (i + 2) left)

  modulate_from-reference :
      (bits : List ℕ) (k left j : ℕ)
      → All IsBit bits
      → j < left
      → get_or (modulate_from {W = W} bits qpsk (2 * k) left) j origin
        ≡ reference_symbol bits (k + j)
  modulate_from-reference bits k zero j h p = absurd (omega arith)
  modulate_from-reference bits k (suc left) zero h p =
      let place : k + 0 ≡ k = omega arith in
      let s : W = scale_for qpsk in
      ap₂ (λ (x y : W). record { re = d.mul s x; im = d.mul s y }) (axis_agrees bits (2 * k) h)
        (axis_agrees bits (2 * k + 1) h)
      ∙ ap (reference_symbol bits) (sym place)
  modulate_from-reference bits k (suc left) (suc j) h p =
      let next : 2 * k + 2 ≡ 2 * suc k = omega arith in
      let place : suc k + j ≡ k + suc j = omega arith in
      ap (λ (t : ℕ). get_or (modulate_from {W = W} bits qpsk t left) j origin) next
      ∙ modulate_from-reference bits (suc k) left j h (omega arith)
      ∙ ap (reference_symbol bits) place

  modulate-reference :
      (bits : List ℕ) (n : ℕ) (xs : List (Complex W))
      → length bits ≡ n * 2
      → All IsBit bits
      → length xs ≡ n
      → ((j : ℕ) → j < n → get_or xs j origin ≡ reference_symbol bits j)
      → modulate bits qpsk ≡ ok xs
  unfolding modulate
  modulate-reference bits n xs long h size same =
      let even : length bits % 2 ≡ 0 = omega arith in
      let half : length bits / 2 ≡ n = omega arith in
      rw (even, half)
        (ap ok (
          get_or_ext _ xs origin (length-modulate_from bits 0 n ∙ sym size) (λ j p.
            let below : j < n = omega (arith, p, length-modulate_from bits 0 n) in
            let place : 0 + j ≡ j = omega arith in
            modulate_from-reference bits 0 n j h below
            ∙ ap (reference_symbol bits) place
            ∙ sym (same j below))))

  -- The sequence of a slot is the Gold sequence, modulated by QPSK; the grid has the rows and columns asked
  -- for, holds the sequence in the row of the reference symbols, and 0 everywhere else.
  pub generate_dmrs_modulates :
      (cfg : DmrsConfig) (g : DmrsGrid W)
      → generate_dmrs cfg ≡ ok g
      → (modulate (gold_sequence (magnitude cfg.n_sc * 2) cfg.c_init) qpsk ≡ ok g.sequence)
        × (length g.grid ≡ magnitude cfg.n_symb)
        × ((i : ℕ) → i < magnitude cfg.n_symb → length (get_or g.grid i []) ≡ magnitude cfg.n_sc)
        × (get_or g.grid (magnitude cfg.dmrs_symb) [] ≡ g.sequence)
        × ((i j : ℕ) → i ≢ magnitude cfg.dmrs_symb → entry g i j ≡ origin)
  unfolding generate_dmrs
  generate_dmrs_modulates cfg g e =
      let n : ℕ = magnitude cfg.n_sc in
      let bits : List ℕ = gold_sequence (n * 2) cfg.c_init in
      let (_, e1) =
        require-eq-ok (ltb_int (pos 0) cfg.n_sc && ltb_int (pos 0) cfg.n_symb)
          "invalid DMRS dimensions" _ e in
      let (inside, e2) =
        require-eq-ok (leb_int (pos 0) cfg.dmrs_symb && ltb_int cfg.dmrs_symb cfg.n_symb)
          "dmrs_symb out of range" _ e1 in
      let low : magnitude cfg.dmrs_symb < magnitude cfg.n_symb =
        row_below cfg.dmrs_symb cfg.n_symb inside in
      let made : place_symbols bits (magnitude cfg.dmrs_symb) n 0 (start (magnitude cfg.n_symb) n)
          ≡ g =
        cc in
      let p = subst (IsPlaced bits (magnitude cfg.n_symb) n (magnitude cfg.dmrs_symb) n) made (
        place_symbols-IsPlaced bits (magnitude cfg.n_symb) n (magnitude cfg.dmrs_symb) n 0 _ low
          (omega arith) (start-IsPlaced bits (magnitude cfg.n_symb) n (magnitude cfg.dmrs_symb))) in
      let long : length bits ≡ n * 2 = length-gold_sequence (n * 2) cfg.c_init in
      (
        modulate-reference bits n g.sequence long (gold_sequence-IsBit (n * 2) cfg.c_init) p.size
            p.done,
        p.height,
        p.width,
        get_or_ext (get_or g.grid (magnitude cfg.dmrs_symb) []) g.sequence origin
            (p.width (magnitude cfg.dmrs_symb) low ∙ sym p.size)
            (λ j q.
              p.here j (omega (arith, q, p.width (magnitude cfg.dmrs_symb) low))
              ∙ sym (p.done j (omega (arith, q, p.width (magnitude cfg.dmrs_symb) low)))),
        p.others,
      )
    where
      row_below : (x y : ℤ) → (leb_int (pos 0) x && ltb_int x y) ≡ true → magnitude x < magnitude y
      row_below (pos a) (pos b) t = ground arith
      row_below (pos a) (negsuc b) t = absurd (ground arith)
      row_below (negsuc a) y t = cc
