-- ===== src/Educational/ShortLdpc.antt =====
-- educational/src/ldpc_short.cpp: the code of eight information bits and eight parity bits, with a
-- decoder that flips the bit with the most votes.
mod Correction
mod Examples
use gunnchos_gpu_nr_baseband.Base.{
  ℕ, zero, suc, ◌+◌, Bool, true, false, ◌&&◌, List, [], ◌∷◌, ◌++◌, if◌then◌else◌, ◌==◌, ltb, length,
  get_or, set, take, replicate, tabulate, bit_xor, String, Result, ok, throw, ◌>>=◌, ◌>>◌, require,
}
use gunnchos_gpu_nr_baseband.Base.Int.{ℤ, pos, negsuc}
use gunnchos_gpu_nr_baseband.Base.Double.{Double}
use gunnchos_gpu_nr_baseband.Ldpc.{eq_int}
use gunnchos_gpu_nr_baseband.MinSum.{rounds_of}

pub record ShortLdpcParams : Type 0 where
  pub n : ℤ
  pub k : ℤ
  pub max_iter : ℤ

pub record ShortLdpcReference : Type 0 where
  pub info : List ℕ
  pub codeword : List ℕ
  pub provenance : String

-- The information bits of each check.
abbrev pub p_col : List (List ℕ)
p_col =
    (0 ∷ 1 ∷ 2 ∷ [])
    ∷ (1 ∷ 2 ∷ 3 ∷ [])
    ∷ (2 ∷ 3 ∷ 4 ∷ [])
    ∷ (3 ∷ 4 ∷ 5 ∷ [])
    ∷ (4 ∷ 5 ∷ 6 ∷ [])
    ∷ (5 ∷ 6 ∷ 7 ∷ [])
    ∷ (6 ∷ 7 ∷ 0 ∷ [])
    ∷ (7 ∷ 0 ∷ 1 ∷ [])
    ∷ []

abbrev pub require_params : ShortLdpcParams → Result (Unit {0})
require_params p =
    require (eq_int p.n (pos 16) && eq_int p.k (pos 8)) "educational LDPC only supports (16,8)"

abbrev pub var_of : ℕ → ℕ → ℕ
var_of r e = if ltb e 3 then get_or (get_or p_col r []) e 0 else 8 + r

-- The sum of the first `left` ends of a check, from end `e` on.
abbrev pub check_sum : List ℕ → ℕ → ℕ → ℕ → ℕ → ℕ
check_sum bits r zero e s = s
check_sum bits r (suc left) e s =
    check_sum bits r left (suc e) (bit_xor s (get_or bits (var_of r e) 0))

-- The loop over the checks: the parity bit of each is written behind the information bits.
abbrev pub write_parity : ℕ → ℕ → List ℕ → List ℕ
write_parity zero r cw = cw
write_parity (suc left) r cw = write_parity left (suc r) (set cw (8 + r) (check_sum cw r 3 0 0))

unfoldable pub encode_impl : List ℕ → Result (List ℕ)
encode_impl info = do
  require (length info == 8) "info length must be k=8"
  ok (write_parity 8 0 (info ++ replicate 8 0))

abbrev pub checks_pass : List ℕ → ℕ → ℕ → Bool
checks_pass hard zero r = true
checks_pass hard (suc left) r =
    let rest = checks_pass hard left (suc r) in check_sum hard r 4 0 0 == 0 && rest

abbrev pub syndrome_ok : List ℕ → Bool
syndrome_ok hard = checks_pass hard 8 0

unfoldable pub ldpc_encode : List ℕ → ShortLdpcParams → Result (List ℕ)
ldpc_encode info p = do require_params p; encode_impl info

-- `votes[i] += 1`
abbrev pub vote : List ℕ → ℕ → List ℕ
vote votes i = set votes i (suc (get_or votes i 0))

-- A vote for each end of a check, from end `e` on.
abbrev pub vote_check : ℕ → ℕ → ℕ → List ℕ → List ℕ
vote_check r zero e votes = votes
vote_check r (suc left) e votes = vote_check r left (suc e) (vote votes (var_of r e))

abbrev pub count_votes : List ℕ → ℕ → ℕ → List ℕ → List ℕ
count_votes hard zero r votes = votes
count_votes hard (suc left) r votes =
    count_votes hard left (suc r)
      (if check_sum hard r 4 0 0 == 0 then votes else vote_check r 4 0 votes)

-- The first place with the most votes, among those before `i` and the `left` from there on.
abbrev pub find_best : List ℕ → ℕ → ℕ → ℕ → ℕ
find_best votes zero i best = best
find_best votes (suc left) i best =
    find_best votes left (suc i) (if ltb (get_or votes best 0) (get_or votes i 0) then i else best)

abbrev pub votes_of : List ℕ → List ℕ
votes_of hard = count_votes hard 8 0 (replicate 16 0)

-- `hard[i] ^= 1`
abbrev pub flip : List ℕ → ℕ → List ℕ
flip hard i = set hard i (bit_xor (get_or hard i 0) 1)

-- The loop, with `left` rounds to go.
abbrev pub flip_loop : ℕ → List ℕ → List ℕ
flip_loop zero hard = hard
flip_loop (suc left) hard =
    let votes = votes_of hard in
    let best = find_best votes 15 1 0 in
    let later = flip_loop left (flip hard best) in
    if syndrome_ok hard then hard else if get_or votes best 0 == 0 then hard else later

module _ {ℓ} {W : Type ℓ} ⦃d : Double W⦄ where
  abbrev pub hard_bits : List W → List ℕ
  hard_bits llr = tabulate 16 (λ i. if d.le (d.lit 0 1) (get_or llr i (d.lit 0 1)) then 0 else 1)

  unfoldable pub ldpc_decode : List W → ShortLdpcParams → Result (List ℕ)
  ldpc_decode llr p = do
    require_params p
    require (length llr == 16) "LLR length must be n=16"
    ok (take 8 (flip_loop (rounds_of p.max_iter) (hard_bits llr)))

unfoldable pub make_reference : List ℕ → ShortLdpcParams → Result ShortLdpcReference
make_reference info p = do
  codeword ← ldpc_encode info p
  ok (record {
    info = info;
    codeword = codeword;
    provenance = "self-generated EDUCATIONAL_ONLY (16,8)";
  })
