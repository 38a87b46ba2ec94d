-- ===== src/Modulation/RoundTrip.antt =====
-- Hard decisions on the symbols of `modulate`.
use native.Mathlib.Nat.{div-add-mod}
use gunnchos_gpu_nr_baseband.Base.{
  ℕ, zero, suc, ◌+◌, ◌*◌, ◌/◌, ◌%◌, ◌^◌, ◌≤◌, ◌<◌, ◌≢◌, inl, inr, ◌≡◌, refl, sym, ap, ap₂, ◌∙◌,
  arith, true, false, List, ◌++◌, ◌==◌, length, get_or, tabulate_from, All, ok, require-eq-ok,
  ==_iff, Bool-cases, Same-cases, length-tabulate_from, get_or-tabulate_from, get_or-tabulate,
  get_or_ext, tabulate_from-append, All-tabulate_from, append_assoc,
}
use gunnchos_gpu_nr_baseband.Base.Int.{ℤ}
use gunnchos_gpu_nr_baseband.Base.Powers.{pow-pos}
use gunnchos_gpu_nr_baseband.Base.Double.{Double}
use gunnchos_gpu_nr_baseband.Base.Signed.{Signed}
use gunnchos_gpu_nr_baseband.Parity.Rows.{IsBit, get_or-IsBit}
use gunnchos_gpu_nr_baseband.Modulation.{
  ModulationOrder, qpsk, qam16, qam64, qam256, bits_per_symbol, half_of, gray_pam_amp,
  gray_bits_from_amp, amplitude, gray_to_bin, tried, Complex, scale_for, modulate_from, modulate,
  nearest_from, nearest, demodulate_hard,
}
use gunnchos_gpu_nr_baseband.Modulation.Axis.{level_index, axis_lem, gather_window}

module _ {ℓ} {W : Type ℓ} ⦃d : Double W⦄ ⦃sg : Signed W⦄ (s : W) (nbits : ℕ) where
  -- The scaled amplitude of a level, and the distance of two.
  abbrev pub point : ℕ → W
  point j = d.mul s (sg.of_int (tried nbits j))

  abbrev pub spacing : ℕ → ℕ → W
  spacing i j = sg.abs (sg.sub (point i) (point j))

  -- A level is at a finite distance of itself, and nearer to itself than to every other one.
  pub record IsSpaced : Type ℓ where
    pub finite : (i : ℕ) → i < 2 ^ nbits → d.lt (spacing i i) sg.infinity ≡ true
    pub near :
        (i j : ℕ) → i < 2 ^ nbits → j < 2 ^ nbits → i ≢ j → d.lt (spacing i i) (spacing i j) ≡ true
    pub far :
        (i j : ℕ) → i < 2 ^ nbits → j < 2 ^ nbits → i ≢ j → d.lt (spacing i j) (spacing i i) ≡ false

module _ {ℓ} {W : Type ℓ} ⦃d : Double W⦄ ⦃sg : Signed W⦄ (s : W) (nbits : ℕ)
    (apart : IsSpaced s nbits) (i : ℕ) (below : i < 2 ^ nbits) where
  nearest_behind :
      (left j : ℕ)
      → i < j
      → j + left ≡ 2 ^ nbits
      → nearest_from s nbits (point s nbits i) left j (tried nbits i) (spacing s nbits i i)
        ≡ tried nbits i
  nearest_behind zero j p count = refl
  nearest_behind (suc left) j p count =
      rw (apart.far i j below (omega arith) (λ e. omega arith))
        (nearest_behind left (suc j) (omega arith) (omega arith))

  nearest_before :
      (left j : ℕ) (best : ℤ) (best_d : W)
      → j ≤ i
      → j + left ≡ 2 ^ nbits
      → d.lt (spacing s nbits i i) best_d ≡ true
      → nearest_from s nbits (point s nbits i) left j best best_d ≡ tried nbits i
  nearest_before zero j best best_d p count far_off = absurd (omega arith)
  nearest_before (suc left) j best best_d p count far_off = elim (Same-cases j i) [
    | inl (t, e) ↦ rw (e, far_off) (nearest_behind left (suc i) (omega arith) (omega arith))
    | inr (t, e) ↦
        let next : j < i = omega (arith, e) in
        let other = apart.near i j below (omega arith) (λ h. e (sym h)) in
        elim (Bool-cases (d.lt (spacing s nbits i j) best_d)) [
          | inl c ↦ rw c (nearest_before left (suc j) (tried nbits j) _ next (omega arith) other)
          | inr c ↦ rw c (nearest_before left (suc j) best best_d next (omega arith) far_off)
        ]
  ]

  pub nearest-point : nearest s nbits (point s nbits i) ≡ tried nbits i
  nearest-point =
      nearest_before (2 ^ nbits) 0 (tried nbits 0) sg.infinity (omega arith) (omega arith)
        (apart.finite i below)

pub half_twice : (order : ModulationOrder) → bits_per_symbol order ≡ half_of order + half_of order
half_twice qpsk = refl
half_twice qam16 = refl
half_twice qam64 = refl
half_twice qam256 = refl

-- The bits of one axis, from the symbol that they were sent in.
axis_back {ℓ} :
    {W : Type ℓ} ⦃d : Double W⦄ ⦃sg : Signed W⦄ (s : W) (order : ModulationOrder) (bits : List ℕ)
    → IsSpaced s (half_of order)
    → length bits ≡ half_of order
    → All IsBit bits
    → gray_bits_from_amp
        (nearest s (half_of order) (d.mul s (sg.of_int (gray_pam_amp bits 0 (half_of order)))))
        (half_of order)
      ≡ bits
axis_back {W} ⦃d⦄ ⦃sg⦄ s order bits apart size fine =
    let n : ℕ = half_of order in
    let (back, level) = axis_lem order bits size fine in
    let found : nearest s n (point s n (level_index n bits)) ≡ tried n (level_index n bits) =
      nearest-point s n apart (level_index n bits) (omega (arith, pow-pos n)) in
    ap (λ (a : ℤ). gray_bits_from_amp (nearest s n (d.mul s (sg.of_int a))) n) level
    ∙ ap (λ (a : ℤ). gray_bits_from_amp a n) (found ∙ sym level)
    ∙ back

-- The bits at `n` places from `i` on.
abbrev pub window : List ℕ → ℕ → ℕ → List ℕ
window bits i n = tabulate_from i n (λ j. get_or bits j 0)

-- Two windows of one size and the rest are one window.
pub window_join :
    (bits : List ℕ) (i n rest : ℕ)
    → window bits i n ++ window bits (i + n) n ++ window bits (i + n + n) rest
      ≡ window bits i (n + (n + rest))
window_join bits i n rest =
    append_assoc (window bits i n) (window bits (i + n) n) (window bits (i + n + n) rest)
    ∙ ap (λ (w : List ℕ). window bits i n ++ w)
        (sym (tabulate_from-append (i + n) n rest (λ j. get_or bits j 0)))
    ∙ sym (tabulate_from-append i n (n + rest) (λ j. get_or bits j 0))

pub window_all : (bits : List ℕ) → window bits 0 (length bits) ≡ bits
window_all bits = get_or_ext _ bits 0 (length-tabulate_from 0 (length bits) _) (λ j p.
    get_or-tabulate (length bits) (λ k. get_or bits k 0) j 0
      (omega (arith, p, length-tabulate_from 0 (length bits) (λ k. get_or bits k 0))))

pub gray_pam_amp-window :
    (bits : List ℕ) (i n : ℕ) → gray_pam_amp bits i n ≡ gray_pam_amp (window bits i n) 0 n
gray_pam_amp-window bits i n =
    ap (λ (g : ℕ). amplitude n (gray_to_bin g))
      (gather_window bits (window bits i n) i 0 n 0 (λ j p.
        let place : 0 + j ≡ j = omega arith in
        sym (
          ap (λ (t : ℕ). get_or (window bits i n) t 0) place
          ∙ get_or-tabulate_from i n (λ k. get_or bits k 0) j 0 p)))

module _ {ℓ} {W : Type ℓ} ⦃d : Double W⦄ ⦃sg : Signed W⦄ (order : ModulationOrder)
    (apart : IsSpaced {W = W} (scale_for order) (half_of order)) (bits : List ℕ)
    (fine : All IsBit bits) where
  axis_window :
      (i : ℕ)
      → gray_bits_from_amp
          (nearest
            (scale_for order)
            (half_of order)
            (d.mul (scale_for order) (sg.of_int (gray_pam_amp bits i (half_of order)))))
          (half_of order)
        ≡ window bits i (half_of order)
  axis_window i =
      let n : ℕ = half_of order in
      ap
        (λ (a : ℤ).
          gray_bits_from_amp (nearest (scale_for order) n (d.mul (scale_for order) (sg.of_int a)))
            n)
        (gray_pam_amp-window bits i n)
      ∙ axis_back (scale_for order) order (window bits i n) apart (length-tabulate_from i n _)
          (All-tabulate_from IsBit i n _ (λ j. get_or-IsBit bits j fine))

  decided_from :
      (left i : ℕ)
      → demodulate_hard {W = W} (modulate_from bits order i left) order
        ≡ window bits i (left * bits_per_symbol order)
  unfolding demodulate_hard
  decided_from zero i = let nothing : 0 * bits_per_symbol order ≡ 0 = omega arith in rw nothing refl
  decided_from (suc left) i =
      let n : ℕ = half_of order in
      let rest : ℕ = left * bits_per_symbol order in
      let twice = half_twice order in
      let place : i + bits_per_symbol order ≡ i + n + n = omega arith in
      let size : suc left * bits_per_symbol order ≡ n + (n + rest) = omega arith in
      ap₂ ◌++◌ (ap₂ ◌++◌ (axis_window i) (axis_window (i + n)))
        (decided_from left (i + bits_per_symbol order) ∙ ap (λ (t : ℕ). window bits t rest) place)
      ∙ window_join bits i n rest
      ∙ ap (window bits i) (sym size)

-- Hard decisions give back the bits that were modulated, in each of the four constellations. It is asked
-- of the soft values that every amplitude, scaled, is at a finite distance of itself and nearer to itself
-- than to the other amplitudes of its axis.
pub demodulate_hard-modulate {ℓ} :
    {W : Type ℓ} ⦃d : Double W⦄ ⦃sg : Signed W⦄ (bits : List ℕ) (order : ModulationOrder)
    (syms : List (Complex W))
    → IsSpaced {W = W} (scale_for order) (half_of order)
    → All IsBit bits
    → modulate bits order ≡ ok syms
    → demodulate_hard syms order ≡ bits
unfolding modulate
demodulate_hard-modulate bits order syms apart fine e =
    let m : ℕ = bits_per_symbol order in
    let (test, made) = require-eq-ok (length bits % m == 0) "bit length not multiple of Qm" _ e in
    let whole : length bits % m ≡ 0 = (==_iff (length bits % m) 0).0 test in
    let same : modulate_from bits order 0 (length bits / m) ≡ syms = cc in
    let size : length bits / m * m ≡ length bits = omega (arith, div-add-mod (length bits) m) in
    ap (λ (z : List (Complex _)). demodulate_hard z order) (sym same)
    ∙ decided_from order apart bits fine (length bits / m) 0
    ∙ ap (window bits 0) size
    ∙ window_all bits
