-- ===== src/Ldpc/Encode/Syndrome.antt =====
-- The words of `ldpc_encode` under the test `ldpc_syndrome_ok`.
use native.Mathlib.Nat.{add-mul}
use gunnchos_gpu_nr_baseband.Base.{
  ℕ, zero, suc, ◌+◌, ◌-◌, ◌*◌, ◌<◌, ◌⊎◌, inl, inr, ◌≡◌, refl, ap, ◌∙◌, arith, true, ◌&&◌, ◌||◌,
  ◌==◌, List, [], ◌∷◌, ◌++◌, length, get_or, replicate, All, ltb, leb, Option, none, some, ok,
  length-tabulate_from, All-append, All-replicate, require-eq-ok, >>-eq-ok, >>=-eq-ok, ==_iff,
}
use gunnchos_gpu_nr_baseband.Parity.{xor_at, rows_even}
use gunnchos_gpu_nr_baseband.Parity.Rows.{IsBit, All-set, get_or-IsBit, bit_xor-IsBit}
use gunnchos_gpu_nr_baseband.Parity.Syndrome.{parity_encode-eq-ok, parity_encode-rows_even}
use gunnchos_gpu_nr_baseband.Ldpc.{LdpcParams, BaseGraph, bg1, bg2}
use gunnchos_gpu_nr_baseband.Ldpc.Graph.{
  Graph, make_graph, finish_graph, truncated, filled, given, lift_of, base_graph, n_of, k_of, m_of,
  kept, mod_shift, lifted_var,
}
use gunnchos_gpu_nr_baseband.Ldpc.Tables.{BgEdge}
use gunnchos_gpu_nr_baseband.Ldpc.Encode.{
  toggle_edge, toggle_edges, build_h, encode_ge, check_bits, info_or_size, ldpc_encode,
  ldpc_syndrome_ok,
}

toggle_edge-IsBit :
    (g : Graph) (e : BgEdge) (left z : ℕ) (h : List ℕ)
    → All IsBit h
    → All IsBit (toggle_edge g e left z h)
toggle_edge-IsBit g e zero z h bits = bits
toggle_edge-IsBit g e (suc left) z h bits =
    let place : ℕ =
      (e.row * g.zc + z) * n_of g
      + lifted_var e.col (mod_shift (get_or e.shift g.i_ls 0) g.zc) z g.zc in
    toggle_edge-IsBit g e left (suc z) (xor_at h place 1)
      (All-set h place _ bits (bit_xor-IsBit _ 1 (get_or-IsBit h place bits) (omega arith)))

toggle_edges-IsBit :
    (g : Graph) (edges : List BgEdge) (h : List ℕ)
    → All IsBit h
    → All IsBit (toggle_edges g edges h)
toggle_edges-IsBit g [] h bits = bits
toggle_edges-IsBit g (e ∷ edges) h bits =
    toggle_edges-IsBit g edges _ (toggle_edge-IsBit g e g.zc 0 h bits)

build_h-IsBit : (g : Graph) → All IsBit (build_h g)
unfolding build_h
build_h-IsBit g =
    toggle_edges-IsBit g g.edges _ (All-replicate IsBit (m_of g * n_of g) 0 (omega arith))

bit_tested : (b : ℕ) → (b == 0 || b == 1) ≡ true → b < 2
bit_tested b e = ground arith

pub check_bits-IsBit : (bits : List ℕ) → check_bits bits ≡ ok tt → All IsBit bits
check_bits-IsBit [] e = tt
check_bits-IsBit (b ∷ bits) e =
    let (bit, rest) = require-eq-ok (b == 0 || b == 1) "info bits must be 0/1" _ e in
    (bit_tested b bit, check_bits-IsBit bits rest)

-- The parity columns fill the code.
abbrev pub IsSquare : Graph → Type 0
IsSquare g = g.nb ≡ g.kb + g.mb

-- The number of information columns is that of the base graph, or the rows are cut to `mb_use`.
abbrev pub KeepsColumns : LdpcParams → Type 0
KeepsColumns p = (given p.kb ≡ none) ⊎ ((m : ℕ) × (given p.mb_use ≡ some m))

base_graph-IsSquare : (p : LdpcParams) → given p.kb ≡ none → IsSquare (base_graph p)
base_graph-IsSquare p e = go p.bg
  where
    go : (bg : BaseGraph) → IsSquare (base_graph (record p { bg = bg }))
    go bg1 = rw e refl
    go bg2 = rw e refl

filled-IsSquare : (n : Option ℕ) (g t : Graph) → IsSquare g → filled n g ≡ ok t → IsSquare t
filled-IsSquare none g t h e = let same : g ≡ t = cc in rw (← same) h
filled-IsSquare (some n) g t h e =
    let (_, made) = require-eq-ok (leb n (g.kb * g.zc)) "info_bits exceeds kb*Zc" _ e in
    let same : record g { filler = g.kb * g.zc - n } ≡ t = cc in rw (← same) h

truncated-IsSquare :
    (m : Option ℕ) (g t : Graph)
    → (IsSquare g) ⊎ ((n : ℕ) × (m ≡ some n))
    → truncated m g ≡ ok t
    → IsSquare t
truncated-IsSquare none g t (inl h) e = let same : g ≡ t = cc in rw (← same) h
truncated-IsSquare none g t (inr (n, h)) e = cc
truncated-IsSquare (some m) g t h e =
    let (_, made) = require-eq-ok (leb m g.mb) "mb_use exceeds base graph" _ e in
    let same : record g { mb = m; nb = g.kb + m; edges = kept m (g.kb + m) g.edges } ≡ t = cc in
    rw (← same) refl

make_graph-IsSquare :
    (p : LdpcParams) (g : Graph) → KeepsColumns p → make_graph p ≡ ok g → IsSquare g
unfolding make_graph finish_graph
make_graph-IsSquare p g keeps e =
    let (lift, lifted, made) = >>=-eq-ok (lift_of p (given p.zc)) _ e in
    let start : Graph = record (base_graph p) { zc = lift.0; i_ls = lift.1 } in
    let (_, e1) = require-eq-ok (leb start.i_ls 7) "i_ls out of range" _ made in
    let (_, e2) = require-eq-ok (ltb 0 start.kb && ltb start.kb start.nb) "invalid kb" _ e1 in
    let (cut, cut_made, e3) = >>=-eq-ok (truncated (given p.mb_use) start) _ e2 in
    let before : (IsSquare start) ⊎ ((n : ℕ) × (given p.mb_use ≡ some n)) = elim keeps [
      | inl none_given ↦ inl (base_graph-IsSquare p none_given)
      | inr some_given ↦ inr some_given
    ] in
    filled-IsSquare (given p.info_bits) cut g
      (truncated-IsSquare (given p.mb_use) start cut before cut_made) e3

abbrev pub with_size : List ℕ → LdpcParams → LdpcParams
with_size info p = record p { info_bits = info_or_size p.info_bits (length info) }

-- The word is one of bits, as long as the code, and its checks are even.
abbrev pub IsCodeword : Graph → List ℕ → Type 0
IsCodeword g word =
    (length word ≡ n_of g)
    × (All IsBit word)
    × (rows_even (n_of g) (build_h g) word (m_of g) 0 ≡ true)

encode_ge-IsCodeword :
    (g : Graph) (info word : List ℕ)
    → IsSquare g
    → All IsBit info
    → encode_ge info g ≡ ok word
    → IsCodeword g word
unfolding encode_ge
encode_ge-IsCodeword g info word square bits e =
    let (size, made) =
      require-eq-ok (length info == k_of g) "info length must equal kb*zc (incl. filler)" _ e in
    let long : length info ≡ k_of g = (==_iff (length info) (k_of g)).0 size in
    let blocks : n_of g ≡ k_of g + m_of g =
      ap (λ (t : ℕ). t * g.zc) square ∙ add-mul g.kb g.mb g.zc in
    let (s, _, same) =
      parity_encode-eq-ok _ (n_of g) (k_of g) (m_of g) (build_h g) info word made in
    let fine =
      parity_encode-rows_even _ (n_of g) (k_of g) (m_of g) (build_h g) info word blocks long
        (build_h-IsBit g) bits made in
    (ap length same ∙ length-tabulate_from 0 (n_of g) _, fine.0, fine.1)

pub ldpc_encode-IsCodeword :
    (info word : List ℕ) (p : LdpcParams)
    → KeepsColumns p
    → ldpc_encode info p ≡ ok word
    → (g : Graph) × (make_graph (with_size info p) ≡ ok g) × IsCodeword g word
unfolding ldpc_encode
ldpc_encode-IsCodeword info word p keeps e =
    let q : LdpcParams = with_size info p in
    let (tested, e1) = >>-eq-ok (check_bits info) _ e in
    let (g, made, e2) = >>=-eq-ok (make_graph q) _ e1 in
    let (short, e3) = require-eq-ok (leb (length info) (k_of g)) "info longer than kb*Zc" _ e2 in
    let zeros : List ℕ = replicate (k_of g - length info) 0 in
    let bits : All IsBit (info ++ zeros) =
      All-append IsBit info zeros (check_bits-IsBit info tested)
        (All-replicate IsBit (k_of g - length info) 0 (omega arith)) in
    (
      g,
      made,
      encode_ge-IsCodeword g (info ++ zeros) word (make_graph-IsSquare q g keeps made) bits e3,
    )

-- Every word that `ldpc_encode` returns is a codeword: `ldpc_syndrome_ok` finds all its checks even,
-- under the parameters that the encoder builds its graph from, where the number of information columns
-- is not changed or the rows are cut to `mb_use`.
pub ldpc_encode_syndrome_ok :
    (info word : List ℕ) (p : LdpcParams)
    → KeepsColumns p
    → ldpc_encode info p ≡ ok word
    → ldpc_syndrome_ok word (record p { info_bits = info_or_size p.info_bits (length info) })
      ≡ ok true
unfolding ldpc_syndrome_ok
ldpc_encode_syndrome_ok info word p keeps e =
    let (g, made, (size, bits, even)) = ldpc_encode-IsCodeword info word p keeps e in
    let test : (length word == n_of g) ≡ true = (==_iff (length word) (n_of g)).1 size in
    rw (made, test, even) refl
