-- ===== src/Educational/BinaryPam.antt =====
-- educational/src/binary_pam.cpp: symbols without the Gray code, and soft bits of one magnitude.
mod RoundTrip
mod Examples
use gunnchos_gpu_nr_baseband.Base.{
  ℕ, zero, suc, ◌+◌, ◌-◌, ◌/◌, ◌%◌, ◌^◌, List, [], ◌∷◌, ◌++◌, map, if◌then◌else◌, ◌==◌, length,
  Result, ok, ◌>>◌, require,
}
use gunnchos_gpu_nr_baseband.Base.Int.{ℤ, pos}
use gunnchos_gpu_nr_baseband.Base.Double.{Double}
use gunnchos_gpu_nr_baseband.Base.Signed.{Signed, ◌+ℤ◌}
use gunnchos_gpu_nr_baseband.Modulation.{
  ModulationOrder, bits_per_symbol, half_of, gather, level_of, write_msb, tried, Complex, scale_for,
  scaled, nearest,
}

-- `2 * v - (levels - 1)`, which is the number `v` of those that the receiver tries.
abbrev pub amp_from_bits : List ℕ → ℕ → ℕ → ℤ
amp_from_bits b start nbits = tried nbits (gather b start nbits 0)

abbrev pub bits_from : ℤ → ℕ → List ℕ
bits_from amp half = write_msb half (level_of half (amp +ℤ pos (2 ^ half - 1)))

module _ {ℓ} {W : Type ℓ} ⦃d : Double W⦄ ⦃sg : Signed W⦄ where
  -- The loop, with `left` symbols to go.
  abbrev pub pam_from : List ℕ → ModulationOrder → ℕ → ℕ → List (Complex W)
  pam_from bits order i zero = []
  pam_from bits order i (suc left) =
      scaled (scale_for order) (amp_from_bits bits i (half_of order))
        (amp_from_bits bits (i + half_of order) (half_of order))
      ∷ pam_from bits order (i + bits_per_symbol order) left

  unfoldable pub modulate_binary_pam : List ℕ → ModulationOrder → Result (List (Complex W))
  modulate_binary_pam bits order = do
    require (length bits % bits_per_symbol order == 0) "bit length not multiple of Qm"
    ok (pam_from bits order 0 (length bits / bits_per_symbol order))

  -- `hard`
  abbrev pub hard_of : List (Complex W) → ModulationOrder → List ℕ
  hard_of [] order = []
  hard_of (z ∷ syms) order =
      bits_from (nearest (scale_for order) (half_of order) z.re) (half_of order)
      ++ bits_from (nearest (scale_for order) (half_of order) z.im) (half_of order)
      ++ hard_of syms order

  unfoldable pub hard_constant_llr : List (Complex W) → ModulationOrder → W → List W
  hard_constant_llr syms order magnitude =
      map (λ b. if b == 0 then magnitude else sg.neg magnitude) (hard_of syms order)
