-- ===== src/Modulation.antt =====
-- src/modulation.cpp: bits to symbols of a square constellation with a Gray code on each axis, hard
-- decisions, and soft bits. An axis carries half of the bits of a symbol.
mod Gray
pub mod Axis
pub mod RoundTrip
mod Soft
mod SoftRoundTrip
pub mod Examples
use gunnchos_gpu_nr_baseband.Base.{
  ℕ, zero, suc, ◌+◌, ◌-◌, ◌*◌, ◌/◌, ◌%◌, ◌^◌, bit_or, bit_xor, Bool, true, false, List, [], ◌∷◌,
  ◌++◌, map, if◌then◌else◌, ◌==◌, ltb, length, get_or, tabulate, Result, ok, throw, ◌>>=◌, ◌>>◌,
  require,
}
use gunnchos_gpu_nr_baseband.Base.Int.{ℤ, pos, negsuc}
use gunnchos_gpu_nr_baseband.Base.Double.{Double}
use gunnchos_gpu_nr_baseband.Base.Signed.{Signed, difference, ◌+ℤ◌, negate}

pub data ModulationOrder : Type 0 where
  qpsk qam16 qam64 qam256 : ModulationOrder

abbrev pub bits_per_symbol : ModulationOrder → ℕ
bits_per_symbol qpsk = 2
bits_per_symbol qam16 = 4
bits_per_symbol qam64 = 6
bits_per_symbol qam256 = 8

-- `half`
abbrev pub half_of : ModulationOrder → ℕ
half_of order = bits_per_symbol order / 2

abbrev pub bin_to_gray : ℕ → ℕ
bin_to_gray v = bit_xor v (v / 2)

-- `while (g >>= 1) b ^= g`, with at most `left` rounds.
abbrev pub gray_loop : ℕ → ℕ → ℕ → ℕ
gray_loop zero g b = b
gray_loop (suc left) g b =
    let later = gray_loop left (g / 2) (bit_xor b (g / 2)) in if g / 2 == 0 then b else later

-- `g` rounds are enough: the number is halved in each.
abbrev pub gray_to_bin : ℕ → ℕ
gray_to_bin g = gray_loop g g g

-- `g = (g << 1) | bits[..]` for `left` bits from `i` on.
abbrev pub gather : List ℕ → ℕ → ℕ → ℕ → ℕ
gather bits i zero g = g
gather bits i (suc left) g = gather bits (suc i) left (bit_or (g * 2) (get_or bits i 0))

-- `(levels - 1) - 2 * v`
abbrev pub amplitude : ℕ → ℕ → ℤ
amplitude nbits v = difference (2 ^ nbits - 1) (2 * v)

abbrev pub gray_pam_amp : List ℕ → ℕ → ℕ → ℤ
gray_pam_amp bits start nbits = amplitude nbits (gray_to_bin (gather bits start nbits 0))

-- `v`, cut to the levels.
abbrev pub level_of : ℕ → ℤ → ℕ
level_of nbits (pos twice) = if ltb (2 ^ nbits - 1) (twice / 2) then 2 ^ nbits - 1 else twice / 2
level_of nbits (negsuc n) = 0

-- `(g >> i) & 1` for the bits below `i`, the highest first.
abbrev pub write_msb : ℕ → ℕ → List ℕ
write_msb zero g = []
write_msb (suc i) g = g / 2 ^ i % 2 ∷ write_msb i g

abbrev pub gray_bits_from_amp : ℤ → ℕ → List ℕ
gray_bits_from_amp amp nbits =
    write_msb nbits (bin_to_gray (level_of nbits (pos (2 ^ nbits - 1) +ℤ negate amp)))

-- `nearest` tries the amplitudes -(levels - 1), -(levels - 1) + 2, ...
abbrev pub tried : ℕ → ℕ → ℤ
tried nbits j = difference (2 * j) (2 ^ nbits - 1)

pub record Complex {ℓ} (W : Type ℓ) : Type ℓ where
  pub re : W
  pub im : W

module _ {ℓ} {W : Type ℓ} ⦃d : Double W⦄ ⦃sg : Signed W⦄ where
  abbrev pub scale_for : ModulationOrder → W
  scale_for qpsk = d.div (d.lit 1 1) (sg.sqrt (d.lit 2 1))
  scale_for qam16 = d.div (d.lit 1 1) (sg.sqrt (d.lit 10 1))
  scale_for qam64 = d.div (d.lit 1 1) (sg.sqrt (d.lit 42 1))
  scale_for qam256 = d.div (d.lit 1 1) (sg.sqrt (d.lit 170 1))

  -- `{s * re, s * im}`
  abbrev pub scaled : W → ℤ → ℤ → Complex W
  scaled s re im = record { re = d.mul s (sg.of_int re); im = d.mul s (sg.of_int im) }

  abbrev pub symbol_from_index : ℕ → ModulationOrder → Complex W
  symbol_from_index idx order =
      let bits = write_msb (bits_per_symbol order) idx in
      scaled (scale_for order) (gray_pam_amp bits 0 (half_of order))
        (gray_pam_amp bits (half_of order) (half_of order))

  unfoldable pub constellation : ModulationOrder → List (Complex W)
  constellation order = tabulate (2 ^ bits_per_symbol order) (λ i. symbol_from_index i order)

  -- `std::norm`
  abbrev pub norm : Complex W → W
  norm z = d.add (d.mul z.re z.re) (d.mul z.im z.im)

  abbrev pub sum_energy : List (Complex W) → W → W
  sum_energy [] e = e
  sum_energy (z ∷ points) e = sum_energy points (d.add e (norm z))

  unfoldable pub constellation_avg_energy : ModulationOrder → W
  unfolding constellation
  constellation_avg_energy order =
      d.div (sum_energy (constellation order) (d.lit 0 1)) (d.of_nat (length (constellation order)))

  -- The loop of `modulate`, with `left` symbols to go.
  abbrev pub modulate_from : List ℕ → ModulationOrder → ℕ → ℕ → List (Complex W)
  modulate_from bits order i zero = []
  modulate_from bits order i (suc left) =
      scaled (scale_for order) (gray_pam_amp bits i (half_of order))
        (gray_pam_amp bits (i + half_of order) (half_of order))
      ∷ modulate_from bits order (i + bits_per_symbol order) left

  unfoldable pub modulate : List ℕ → ModulationOrder → Result (List (Complex W))
  modulate bits order = do
    require (length bits % bits_per_symbol order == 0) "bit length not multiple of Qm"
    ok (modulate_from bits order 0 (length bits / bits_per_symbol order))

  -- The loop of `nearest` over the amplitudes from `j` on.
  abbrev pub nearest_from : W → ℕ → W → ℕ → ℕ → ℤ → W → ℤ
  nearest_from s nbits x zero j best best_d = best
  nearest_from s nbits x (suc left) j best best_d =
      let a = tried nbits j in
      let dist = sg.abs (sg.sub x (d.mul s (sg.of_int a))) in
      let closer = d.lt dist best_d in
      nearest_from s nbits x left (suc j) (if closer then a else best)
        (if closer then dist else best_d)

  abbrev pub nearest : W → ℕ → W → ℤ
  nearest s nbits x = nearest_from s nbits x (2 ^ nbits) 0 (tried nbits 0) sg.infinity

  unfoldable pub demodulate_hard : List (Complex W) → ModulationOrder → List ℕ
  demodulate_hard [] order = []
  demodulate_hard (z ∷ syms) order =
      gray_bits_from_amp (nearest (scale_for order) (half_of order) z.re) (half_of order)
      ++ gray_bits_from_amp (nearest (scale_for order) (half_of order) z.im) (half_of order)
      ++ demodulate_hard syms order

  -- `y - z`
  abbrev pub minus : Complex W → Complex W → Complex W
  minus y z = record { re = sg.sub y.re z.re; im = sg.sub y.im z.im }

  -- `min0` and `min1` for bit `k` of `m`, over the points from number `p` on.
  abbrev pub minima : Complex W → ℕ → ℕ → ℕ → List (Complex W) → W → W → W × W
  minima y m k p [] min0 min1 = (min0, min1)
  minima y m k p (z ∷ points) min0 min1 =
      let d2 = norm (minus y z) in
      let is_zero = p / 2 ^ (m - 1 - k) % 2 == 0 in
      minima y m k (suc p) points (if is_zero then if d.lt d2 min0 then d2 else min0 else min0)
        (if is_zero then min1 else if d.lt d2 min1 then d2 else min1)

  -- The soft bits of one symbol, from bit `k` on.
  abbrev pub symbol_llr : W → List (Complex W) → ℕ → Complex W → ℕ → ℕ → List W
  symbol_llr inv2s alphabet m y zero k = []
  symbol_llr inv2s alphabet m y (suc left) k =
      let least = minima y m k 0 alphabet sg.infinity sg.infinity in
      d.mul inv2s (sg.sub least.1 least.0) ∷ symbol_llr inv2s alphabet m y left (suc k)

  abbrev pub symbols_llr : W → List (Complex W) → ℕ → List (Complex W) → List W
  symbols_llr inv2s alphabet m [] = []
  symbols_llr inv2s alphabet m (y ∷ syms) =
      symbol_llr inv2s alphabet m y m 0 ++ symbols_llr inv2s alphabet m syms

  unfoldable pub demodulate_llr : List (Complex W) → ModulationOrder → W → Result (List W)
  demodulate_llr syms order noise_var = do
    require (d.lt (d.lit 0 1) noise_var) "noise_var must be > 0"
    let inv2s = d.div (d.lit 1 1) (d.mul (d.lit 2 1) noise_var)
    ok (symbols_llr inv2s (constellation order) (bits_per_symbol order) syms)
