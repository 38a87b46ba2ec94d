-- ===== src/Crc.antt =====
-- src/crc.cpp and include/nr_bb/crc.hpp: the bit-serial CRC of TS 38.212 and its two users. A mask of
-- ones is written as a remainder and a shift as a quotient; the bounds of
-- the register are in `Crc.Register`.
mod Register
pub mod Codeword
mod Remainder
mod Distinct
pub mod Detect
mod Refusals
mod Examples
use gunnchos_gpu_nr_baseband.Base.{
  ℕ, zero, suc, ◌+◌, ◌-◌, ◌*◌, ◌/◌, ◌%◌, ◌^◌, bit_xor, Bool, ◌||◌, List, [], ◌∷◌, ◌++◌, length,
  if◌then◌else◌, ◌==◌, leb, Result, ok, ◌>>=◌, ◌>>◌, require, ◌<<<◌, ◌>>>◌,
}

-- `enum class CrcType`
pub data CrcType : Type 0 where
  crc24a crc24b crc16 crc11 crc6 : CrcType

-- `poly_full` includes the leading 1.
pub record CrcSpec : Type 0 where
  pub poly_full : ℕ
  pub len : ℕ

abbrev pub spec : CrcType → CrcSpec
spec crc24a = record { poly_full = 0x1864CFB; len = 24 }
spec crc24b = record { poly_full = 0x1800063; len = 24 }
spec crc16 = record { poly_full = 0x11021; len = 16 }
spec crc11 = record { poly_full = 0xE21; len = 11 }
spec crc6 = record { poly_full = 0x61; len = 6 }

-- `poly_full & mask`
unfoldable pub poly : CrcSpec → ℕ
poly s = s.poly_full % 2 ^ s.len

-- One round of the loop: the feedback bit, the shift, and the polynomial if the bit is set.
-- `width` is `mask + 1` and `top` its half.
unfoldable pub crc_step : (width top poly crc b : ℕ) → ℕ
crc_step width top poly crc b =
    let fb = bit_xor (crc / top % 2) b in
    let shifted = crc * 2 % width in if fb == 0 then shifted else bit_xor shifted poly

abbrev pub is_bit : ℕ → Bool
is_bit b = b == 0 || b == 1

-- The loop of `compute_crc` from a register on.
unfoldable pub crc_loop : CrcSpec → ℕ → List ℕ → Result ℕ
crc_loop s crc [] = ok crc
crc_loop s crc (b ∷ bits) = do
  require (is_bit b) "CRC input must be 0/1 bits"
  crc_loop s (crc_step (2 ^ s.len) (2 ^ (s.len - 1)) (poly s) crc b) bits

unfoldable pub compute_crc : List ℕ → CrcType → Result ℕ
compute_crc bits type = crc_loop (spec type) 0 bits

unfoldable pub crc_polynomial : CrcType → ℕ
crc_polynomial type = (spec type).poly_full

unfoldable pub crc_length_bits : CrcType → ℕ
crc_length_bits type = (spec type).len

-- `(rem >> i) & 1` for `i` from `n - 1` down to 0.
abbrev pub bits_msb : ℕ → ℕ → List ℕ
bits_msb zero rem = []
bits_msb (suc i) rem = (rem >>> i) % 2 ∷ bits_msb i rem

unfoldable pub crc_attach : List ℕ → CrcType → Result (List ℕ)
crc_attach payload type = do
  rem ← compute_crc payload type
  ok (payload ++ bits_msb (spec type).len rem)

unfoldable pub crc_check : List ℕ → CrcType → Result Bool
crc_check coded type = do
  require (leb (spec type).len (length coded)) "coded block shorter than CRC"
  crc ← compute_crc coded type
  ok (crc == 0)
