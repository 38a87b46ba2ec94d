-- ===== src/Scrambling.antt =====
-- src/scrambling.cpp: the Gold sequence of TS 38.211 in two arrays, and the scrambler.
mod Shift
pub mod Laws
mod Examples
use gunnchos_gpu_nr_baseband.Base.{
  ℕ, zero, suc, ◌+◌, ◌%◌, bit_xor, Bool, ◌||◌, List, [], ◌∷◌, length, get_or, set, replicate,
  tabulate, ◌==◌, Result, ok, ◌>>=◌, ◌>>◌, require, ◌>>>◌,
}

abbrev pub nc : ℕ
nc = 1600

-- `X1[n + 31]` and `X2[n + 31]`
abbrev pub next1 : List ℕ → ℕ → ℕ
next1 x n = bit_xor (get_or x (n + 3) 0) (get_or x n 0)

abbrev pub next2 : List ℕ → ℕ → ℕ
next2 x n =
    bit_xor (bit_xor (bit_xor (get_or x (n + 3) 0) (get_or x (n + 2) 0)) (get_or x (n + 1) 0))
      (get_or x n 0)

-- The loop over `n`, with `left` rounds to go, on both arrays.
unfoldable pub gold_loop : ℕ → ℕ → List ℕ → List ℕ → List ℕ × List ℕ
gold_loop zero n x1 x2 = (x1, x2)
gold_loop (suc left) n x1 x2 =
    gold_loop left (n + 1) (set x1 (n + 31) (next1 x1 n)) (set x2 (n + 31) (next2 x2 n))

-- `X2[i] = (c_init >> i) & 1` for `i` from `i` on.
unfoldable pub load_init : ℕ → ℕ → ℕ → List ℕ → List ℕ
load_init zero i c_init x2 = x2
load_init (suc left) i c_init x2 = load_init left (i + 1) c_init (set x2 i ((c_init >>> i) % 2))

unfoldable pub gold_sequence : ℕ → ℕ → List ℕ
gold_sequence len c_init =
    let total = nc + len in
    let start1 = set (replicate (total + 31) 0) 0 1 in
    let start2 = load_init 31 0 c_init (replicate (total + 31) 0) in
    let (x1, x2) = gold_loop total 0 start1 start2 in
    tabulate len (λ n. bit_xor (get_or x1 (n + nc) 0) (get_or x2 (n + nc) 0))

abbrev pub is_bit : ℕ → Bool
is_bit b = b == 0 || b == 1

-- The loop over `i`; `c[i]` is read from the sequence.
unfoldable pub scramble_from : ℕ → List ℕ → List ℕ → Result (List ℕ)
scramble_from i c [] = ok []
scramble_from i c (b ∷ bits) = do
  require (is_bit b) "scramble bits must be 0/1"
  rest ← scramble_from (i + 1) c bits
  ok (bit_xor b (get_or c i 0) ∷ rest)

unfoldable pub scramble : List ℕ → ℕ → Result (List ℕ)
scramble bits c_init = scramble_from 0 (gold_sequence (length bits) c_init) bits

unfoldable pub descramble : List ℕ → ℕ → Result (List ℕ)
unfolding scramble
descramble bits c_init = scramble bits c_init
