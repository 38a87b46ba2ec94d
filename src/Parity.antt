-- ===== src/Parity.antt =====
-- What the encoders of src/ldpc.cpp and of educational/nr_style_compact_ldpc/src/compact_qc_ldpc.cpp have in
-- common, line for line: the parity of the information bits, the elimination that solves for the parity
-- bits, and the test of a word against the matrix, for a matrix `h` of m rows and n columns, k of them for
-- information. A matrix is one list, row after row, as in the source. A read past the end of a list gives 0,
-- and a write there is dropped: the source does neither where the parity columns fill the code, n = k + m.
pub mod Sums
pub mod Rows
mod Exchange
mod States
mod Pivot
mod Clear
pub mod Equations
mod Elimination
pub mod Syndrome
use gunnchos_gpu_nr_baseband.Base.{
  ℕ, zero, suc, ◌+◌, ◌-◌, ◌*◌, ◌/◌, ◌%◌, bit_xor, Bool, true, false, ◌&&◌, ◌||◌, List, [], ◌∷◌,
  if◌then◌else◌, ◌==◌, ltb, get_or, set, tabulate, String, Result, ok, throw, ◌>>=◌, ◌>>◌, require,
}

-- `xs[i] ^= v`
abbrev pub xor_at : List ℕ → ℕ → ℕ → List ℕ
xor_at xs i v = set xs i (bit_xor (get_or xs i 0) v)

-- `s ^= bits[k]` for the places `k` where the row is set.
abbrev pub row_sum : List ℕ → ℕ → List ℕ → ℕ → ℕ → ℕ
row_sum h start [] k s = s
row_sum h start (b ∷ bits) k s =
    row_sum h start bits (suc k) (if get_or h (start + k) 0 == 0 then s else bit_xor s b)

-- `if (H[..] && info_full[k]) s ^= 1` for the places `k`.
abbrev pub row_parity : List ℕ → ℕ → List ℕ → ℕ → ℕ → ℕ
row_parity h start [] k s = s
row_parity h start (b ∷ bits) k s =
    row_parity h start bits (suc k)
      (if get_or h (start + k) 0 == 0 || b == 0 then s else bit_xor s 1)

-- What the elimination works on.
pub record System : Type 0 where
  pub a : List ℕ
  pub rhs : List ℕ

-- `while (piv < M && A[piv * M + col] == 0) ++piv`, with `left` rows to go.
abbrev pub find_pivot : List ℕ → ℕ → ℕ → ℕ → ℕ → ℕ
find_pivot a m col zero piv = piv
find_pivot a m col (suc left) piv =
    let later = find_pivot a m col left (suc piv) in
    if get_or a (piv * m + col) 0 == 0 then later else piv

-- `std::swap(xs[i], xs[j])`
abbrev pub swap_at : List ℕ → ℕ → ℕ → List ℕ
swap_at xs i j = set (set xs i (get_or xs j 0)) j (get_or xs i 0)

abbrev pub swap_rows : ℕ → ℕ → ℕ → ℕ → ℕ → List ℕ → List ℕ
swap_rows m col piv zero c a = a
swap_rows m col piv (suc left) c a =
    swap_rows m col piv left (suc c) (swap_at a (col * m + c) (piv * m + c))

abbrev pub place_pivot : ℕ → ℕ → ℕ → System → System
place_pivot m col piv s =
    let swapped : System = record {
      a = swap_rows m col piv m 0 s.a;
      rhs = swap_at s.rhs col piv;
    } in
    if piv == col then s else swapped

abbrev pub add_row : ℕ → ℕ → ℕ → ℕ → ℕ → List ℕ → List ℕ
add_row m col r zero c a = a
add_row m col r (suc left) c a =
    add_row m col r left (suc c) (xor_at a (r * m + c) (get_or a (col * m + c) 0))

-- The loop over `r`.
abbrev pub clear_column : ℕ → ℕ → ℕ → ℕ → System → System
clear_column m col zero r s = s
clear_column m col (suc left) r s =
    let added : System = record {
      a = add_row m col r (m - col) col s.a;
      rhs = xor_at s.rhs r (get_or s.rhs col 0);
    } in
    let skipped = r == col || get_or s.a (r * m + col) 0 == 0 in
    clear_column m col left (suc r) (if skipped then s else added)

-- The loop over `col`.
abbrev pub eliminate : String → ℕ → ℕ → ℕ → System → Result System
eliminate text m zero col s = ok s
eliminate text m (suc left) col s = do
  let piv = find_pivot s.a m col (m - col) col
  require (ltb piv m) text
  eliminate text m left (suc col) (clear_column m col m 0 (place_pivot m col piv s))

abbrev pub start_system : ℕ → ℕ → ℕ → List ℕ → List ℕ → System
start_system n k m h info = record {
  a = tabulate (m * m) (λ i. get_or h (i / m * n + (k + i % m)) 0);
  rhs = tabulate m (λ r. row_parity h (r * n) info 0 0);
}

-- `cw`
abbrev pub codeword : ℕ → ℕ → List ℕ → List ℕ → List ℕ
codeword n k info rhs = tabulate n (λ i. if ltb i k then get_or info i 0 else get_or rhs (i - k) 0)

-- `encode_ge` behind its test of the length; the text is the one of a matrix that is singular.
unfoldable pub parity_encode : String → ℕ → ℕ → ℕ → List ℕ → List ℕ → Result (List ℕ)
parity_encode text n k m h info = do
  s ← eliminate text m m 0 (start_system n k m h info)
  ok (codeword n k info s.rhs)

-- No row of `h` from `r` on has an odd sum.
abbrev pub rows_even : ℕ → List ℕ → List ℕ → ℕ → ℕ → Bool
rows_even n h word zero r = true
rows_even n h word (suc left) r =
    let rest = rows_even n h word left (suc r) in row_sum h (r * n) word 0 0 == 0 && rest
