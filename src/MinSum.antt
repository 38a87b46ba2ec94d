-- ===== src/MinSum.antt =====
-- What the decoders of src/ldpc.cpp and of educational/nr_style_compact_ldpc/src/compact_qc_ldpc.cpp have in
-- common, line for line: `decode_minsum` for a list of edges, behind its test of the length. The soft values
-- are those of an interface for `double`.
pub mod Checks
pub mod Rows
pub mod Clean
use gunnchos_gpu_nr_baseband.Base.{
  ℕ, zero, suc, Bool, true, false, ◌&&◌, List, [], ◌∷◌, ◌++◌, if◌then◌else◌, ◌==◌, length, get_or,
  set, take, replicate, tabulate, bit_xor,
}
use gunnchos_gpu_nr_baseband.Base.Int.{ℤ, pos, negsuc}
use gunnchos_gpu_nr_baseband.Base.Double.{Double}
use gunnchos_gpu_nr_baseband.Base.Signed.{Signed, negate}
use gunnchos_gpu_nr_baseband.Ldpc.Graph.{SparseEdge}

-- `tbl[place].push_back(i)`
abbrev pub push_at : List (List ℕ) → ℕ → ℕ → List (List ℕ)
push_at tbl place i = set tbl place (get_or tbl place [] ++ (i ∷ []))

-- The loop over the edges: the numbers of the edges at each end.
abbrev pub collect : (SparseEdge → ℕ) → ℕ → List SparseEdge → List (List ℕ) → List (List ℕ)
collect end i [] tbl = tbl
collect end i (e ∷ edges) tbl = collect end (suc i) edges (push_at tbl (end e) i)

-- `edges`, `var_edges` and `chk_edges`.
pub record Tables : Type 0 where
  pub edges : List SparseEdge
  pub var_edges : List (List ℕ)
  pub chk_edges : List (List ℕ)

abbrev pub tables_of : ℕ → ℕ → List SparseEdge → Tables
tables_of n m edges = record {
  edges = edges;
  var_edges = collect (λ (e : SparseEdge). e.var) 0 edges (replicate n []);
  chk_edges = collect (λ (e : SparseEdge). e.check) 0 edges (replicate m []);
}

-- An edge that is read out of range, which the decoder does not do.
abbrev pub no_edge : SparseEdge
no_edge = record { check = 0; var = 0 }

-- `s ^= hard[edges[ei].var]` for the edges of a check.
abbrev pub edge_sum : List SparseEdge → List ℕ → List ℕ → ℕ → ℕ
edge_sum edges hard [] s = s
edge_sum edges hard (ei ∷ els) s =
    edge_sum edges hard els (bit_xor s (get_or hard (get_or edges ei no_edge).var 0))

-- `syndrome`, for the checks from `c` on.
abbrev pub checks_even : Tables → List ℕ → ℕ → ℕ → Bool
checks_even t hard zero c = true
checks_even t hard (suc left) c =
    let rest = checks_even t hard left (suc c) in
    edge_sum t.edges hard (get_or t.chk_edges c []) 0 == 0 && rest

-- `for (int it = 0; it < max_iter; ++it)`: a number below 0 asks for no round.
abbrev pub rounds_of : ℤ → ℕ
rounds_of (pos n) = n
rounds_of (negsuc n) = 0

module _ {ℓ} {W : Type ℓ} ⦃d : Double W⦄ where
  -- `sum` over the messages of a bit.
  abbrev pub add_messages : List W → List ℕ → W → W
  add_messages c2v [] sum = sum
  add_messages c2v (ei ∷ els) sum = add_messages c2v els (d.add sum (get_or c2v ei (d.lit 0 1)))

  -- `hard_of`
  abbrev pub hard_of : ℕ → List W → List ℕ
  hard_of n app = tabulate n (λ i. if d.le (d.lit 0 1) (get_or app i (d.lit 0 1)) then 0 else 1)

  -- `app`, as each of the two loops over the bits writes it.
  abbrev pub app_of : ℕ → Tables → List W → List W → List W
  app_of n t channel c2v =
      tabulate n (λ v. add_messages c2v (get_or t.var_edges v []) (get_or channel v (d.lit 0 1)))

module _ {ℓ} {W : Type ℓ} ⦃d : Double W⦄ ⦃s : Signed W⦄ where
  -- `msg_v2c[ei] = sum - msg_c2v[ei]` for the edges of a bit.
  abbrev pub send_bit : List W → W → List ℕ → List W → List W
  send_bit c2v sum [] v2c = v2c
  send_bit c2v sum (ei ∷ els) v2c =
      send_bit c2v sum els (set v2c ei (s.sub sum (get_or c2v ei (d.lit 0 1))))

  -- The loop over the bits from `v` on, which sends the messages of each.
  abbrev pub send_bits : Tables → List W → List W → ℕ → ℕ → List W → List W
  send_bits t app c2v zero v v2c = v2c
  send_bits t app c2v (suc left) v v2c =
      send_bits t app c2v left (suc v)
        (send_bit c2v (get_or app v (d.lit 0 1)) (get_or t.var_edges v []) v2c)

  -- `min1` and `sign` over the other edges of a check.
  abbrev pub scan_others : List W → ℕ → List ℕ → W → ℤ → W × ℤ
  scan_others v2c ei [] min1 sign = (min1, sign)
  scan_others v2c ei (ej ∷ els) min1 sign =
      let message = get_or v2c ej (d.lit 0 1) in
      let a = s.abs message in
      let smaller = if d.lt a min1 then a else min1 in
      let turned = if d.lt message (d.lit 0 1) then negate sign else sign in
      scan_others v2c ei els (if ej == ei then min1 else smaller)
        (if ej == ei then sign else turned)

  -- `sign * min1 * 0.75`
  abbrev pub check_message : List W → List ℕ → ℕ → W
  check_message v2c els ei =
      let found = scan_others v2c ei els s.infinity (pos 1) in
      d.mul (d.mul (s.of_int found.1) found.0) (d.lit 75 100)

  -- The loop over the edges `rest` of a check.
  abbrev pub send_check : List W → List ℕ → List ℕ → List W → List W
  send_check v2c els [] c2v = c2v
  send_check v2c els (ei ∷ rest) c2v =
      send_check v2c els rest (set c2v ei (check_message v2c els ei))

  abbrev pub send_checks : Tables → List W → ℕ → ℕ → List W → List W
  send_checks t v2c zero c c2v = c2v
  send_checks t v2c (suc left) c c2v =
      send_checks t v2c left (suc c)
        (send_check v2c (get_or t.chk_edges c []) (get_or t.chk_edges c []) c2v)

  -- The iterations, with `left` of them to go: the hard decisions that are returned.
  abbrev pub iterate : ℕ → ℕ → Tables → List W → ℕ → List W → List W → List ℕ
  iterate n m t channel zero c2v v2c = hard_of n (app_of n t channel c2v)
  iterate n m t channel (suc left) c2v v2c =
      let app = app_of n t channel c2v in
      let v2c_next = send_bits t app c2v n 0 v2c in
      let hard = hard_of n app in
      let later = iterate n m t channel left (send_checks t v2c_next m 0 c2v) v2c_next in
      if checks_even t hard m 0 then hard else later

  -- The whole loop from messages that are 0, and the cut to the first `k` bits.
  abbrev pub minsum : (n k m : ℕ) → List SparseEdge → List W → ℤ → List ℕ
  minsum n k m edges llr max_iter =
      let silent = replicate (length edges) (d.lit 0 1) in
      take k (iterate n m (tables_of n m edges) llr (rounds_of max_iter) silent silent)
