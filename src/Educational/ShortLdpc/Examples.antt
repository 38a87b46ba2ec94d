-- ===== src/Educational/ShortLdpc/Examples.antt =====
-- The short code at one word, with a wrong information bit and with a wrong parity bit.
use gunnchos_gpu_nr_baseband.Base.{ℕ, ◌≡◌, refl, arith, inr, true, List, [], ◌∷◌, set, ok}
use gunnchos_gpu_nr_baseband.Base.Int.{ℤ, pos, negsuc}
use gunnchos_gpu_nr_baseband.Base.Signed.{milli_int}
use gunnchos_gpu_nr_baseband.Educational.ShortLdpc.{
  ShortLdpcParams, encode_impl, ldpc_encode, ldpc_decode, syndrome_ok,
}
use gunnchos_gpu_nr_baseband.Educational.ShortLdpc.Correction.{short_corrects}

abbrev params : ShortLdpcParams
params = record { n = pos 16; k = pos 8; max_iter = pos 20 }

abbrev info : List ℕ
info = 1 ∷ 0 ∷ 0 ∷ 0 ∷ 0 ∷ 0 ∷ 0 ∷ 0 ∷ []

abbrev word : List ℕ
word = 1 ∷ 0 ∷ 0 ∷ 0 ∷ 0 ∷ 0 ∷ 0 ∷ 0 ∷ 1 ∷ 0 ∷ 0 ∷ 0 ∷ 0 ∷ 0 ∷ 1 ∷ 1 ∷ []

word_run : ldpc_encode info params ≡ ok word
unfolding ldpc_encode encode_impl
word_run = refl

abbrev soft : List ℤ
soft =
    negsuc 999
    ∷ pos 1000
    ∷ pos 1000
    ∷ negsuc 999
    ∷ pos 1000
    ∷ pos 1000
    ∷ pos 1000
    ∷ pos 1000
    ∷ negsuc 999
    ∷ pos 1000
    ∷ pos 1000
    ∷ pos 1000
    ∷ pos 1000
    ∷ pos 1000
    ∷ negsuc 999
    ∷ negsuc 999
    ∷ []

short_corrects_example : (syndrome_ok word ≡ true) × (ldpc_decode soft params ≡ ok info)
short_corrects_example =
    short_corrects soft info word params 19 refl word_run
      (
        omega arith,
        (
          omega arith,
          (
            omega arith,
            (omega arith, (omega arith, (omega arith, (omega arith, (omega arith, tt))))),
          ),
        ),
      )
      refl (inr (3, omega arith, refl))

abbrev zeros : List ℤ
zeros =
    pos 1000
    ∷ pos 1000
    ∷ pos 1000
    ∷ pos 1000
    ∷ pos 1000
    ∷ pos 1000
    ∷ pos 1000
    ∷ pos 1000
    ∷ pos 1000
    ∷ pos 1000
    ∷ pos 1000
    ∷ pos 1000
    ∷ pos 1000
    ∷ pos 1000
    ∷ pos 1000
    ∷ pos 1000
    ∷ []

-- A wrong parity bit makes the decoder flip information bits that were right.
parity_bit_wrong :
    ldpc_decode (set zeros 9 (negsuc 999)) params ≡ ok (1 ∷ 1 ∷ 0 ∷ 0 ∷ 0 ∷ 0 ∷ 0 ∷ 0 ∷ [])
unfolding ldpc_decode
parity_bit_wrong = refl
