-- ===== src/MinSum/Checks.antt =====
-- The decoder's test of its hard decisions, over the lists of edges, as a sum over the edges of a check.
use gunnchos_gpu_nr_baseband.Base.{
  ℕ, suc, ◌+◌, ◌%◌, ◌<◌, inl, inr, ◌≡◌, ap, ◌∙◌, arith, bit_xor, if◌then◌else◌, ◌==◌, List, [], ◌∷◌,
  ◌++◌, length, get_or, replicate, All, length-set, length-replicate, get_or-set_self,
  get_or-set_ne, get_or-replicate, Same-cases,
}
use gunnchos_gpu_nr_baseband.Base.Bits.{bit_xor-parity}
use gunnchos_gpu_nr_baseband.Parity.Rows.{IsBit, get_or-IsBit, bit_xor-IsBit}
use gunnchos_gpu_nr_baseband.Ldpc.Graph.{SparseEdge}
use gunnchos_gpu_nr_baseband.MinSum.{push_at, collect, no_edge, edge_sum}

-- The bits at the edges of check `c`, added up.
abbrev pub check_total : List SparseEdge → ℕ → List ℕ → ℕ
check_total [] c hard = 0
check_total (e ∷ edges) c hard =
    (if e.check == c then get_or hard e.var 0 else 0) + check_total edges c hard

pub check_total-append :
    (xs ys : List SparseEdge) (c : ℕ) (hard : List ℕ)
    → check_total (xs ++ ys) c hard ≡ check_total xs c hard + check_total ys c hard
check_total-append [] ys c hard = omega arith
check_total-append (e ∷ xs) ys c hard = omega (arith, check_total-append xs ys c hard)

module _ (edges : List SparseEdge) (hard : List ℕ) where
  -- The same over numbers of edges.
  abbrev number_total : List ℕ → ℕ
  number_total [] = 0
  number_total (ei ∷ els) = get_or hard (get_or edges ei no_edge).var 0 + number_total els

  number_total-append :
      (xs ys : List ℕ) → number_total (xs ++ ys) ≡ number_total xs + number_total ys
  number_total-append [] ys = omega arith
  number_total-append (x ∷ xs) ys = omega (arith, number_total-append xs ys)

  edge_sum-parity :
      (els : List ℕ) (s : ℕ) → edge_sum edges hard els s % 2 ≡ (s + number_total els) % 2
  edge_sum-parity [] s = omega arith
  edge_sum-parity (ei ∷ els) s =
      let b : ℕ = get_or hard (get_or edges ei no_edge).var 0 in
      omega (arith, edge_sum-parity els (bit_xor s b), bit_xor-parity s b)

  edge_sum-IsBit : (els : List ℕ) (s : ℕ) → All IsBit hard → s < 2 → edge_sum edges hard els s < 2
  edge_sum-IsBit [] s bits p = p
  edge_sum-IsBit (ei ∷ els) s bits p =
      edge_sum-IsBit els _ bits
        (bit_xor-IsBit s _ p (get_or-IsBit hard (get_or edges ei no_edge).var bits))

  -- What `collect` puts into the list of check `c`.
  collect-total :
      (c i : ℕ) (rest : List SparseEdge) (tbl : List (List ℕ))
      → c < length tbl
      → ((j : ℕ) → get_or edges (i + j) no_edge ≡ get_or rest j no_edge)
      → number_total (get_or (collect (λ (e : SparseEdge). e.check) i rest tbl) c [])
        ≡ number_total (get_or tbl c []) + check_total rest c hard
  collect-total c i [] tbl p here = omega arith
  collect-total c i (e ∷ rest) tbl p here =
      let next : List (List ℕ) = push_at tbl e.check i in
      let later : (j : ℕ) → get_or edges (suc i + j) no_edge ≡ get_or rest j no_edge = λ j.
        let place : suc i + j ≡ i + suc j = omega arith in
        ap (λ (t : ℕ). get_or edges t no_edge) place ∙ here (suc j) in
      let induction =
        collect-total c (suc i) rest next
          (omega (arith, length-set tbl e.check (get_or tbl e.check [] ++ (i ∷ [])))) later in
      elim (Same-cases e.check c) [
        | inl (t, h) ↦
            let place : i ≡ i + 0 = omega arith in
            let mine : get_or edges i no_edge ≡ e =
              ap (λ (k : ℕ). get_or edges k no_edge) place ∙ here 0 in
            let pushed : get_or next c [] ≡ get_or tbl c [] ++ (i ∷ []) =
              rw (← h) (get_or-set_self tbl e.check _ [] (omega arith)) in
            let count : number_total (get_or next c [])
                ≡ number_total (get_or tbl c []) + get_or hard e.var 0 =
              ap number_total pushed
              ∙ number_total-append (get_or tbl c []) (i ∷ [])
              ∙ ap (λ (x : SparseEdge). number_total (get_or tbl c []) + (get_or hard x.var 0 + 0))
                  mine
              ∙ omega arith in
            rw t (omega arith)
        | inr (t, h) ↦
            let same : get_or next c [] ≡ get_or tbl c [] = get_or-set_ne tbl e.check c _ [] h in
            let count : number_total (get_or next c []) ≡ number_total (get_or tbl c []) =
              ap number_total same in
            rw t (omega arith)
      ]

-- The sum that the decoder forms for a check has the parity of the bits at its edges.
pub chk_edges-parity :
    (m : ℕ) (edges : List SparseEdge) (hard : List ℕ) (c : ℕ)
    → c < m
    → All IsBit hard
    → (edge_sum edges hard
            (get_or (collect (λ (e : SparseEdge). e.check) 0 edges (replicate m [])) c [])
            0
          % 2
        ≡ check_total edges c hard % 2)
      × (edge_sum edges hard
            (get_or (collect (λ (e : SparseEdge). e.check) 0 edges (replicate m [])) c [])
            0
          < 2)
chk_edges-parity m edges hard c p bits =
    let empty : List (List ℕ) = replicate m [] in
    let size : length empty ≡ m = length-replicate m [] in
    let start : number_total edges hard (get_or empty c []) ≡ 0 =
      ap (number_total edges hard) (get_or-replicate m [] c) in
    let same : (j : ℕ) → get_or edges (0 + j) no_edge ≡ get_or edges j no_edge =
      λ j. let place : 0 + j ≡ j = omega arith in ap (λ (t : ℕ). get_or edges t no_edge) place in
    let els : List ℕ = get_or (collect (λ (e : SparseEdge). e.check) 0 edges empty) c [] in
    (
      omega (
        arith,
        edge_sum-parity edges hard els 0,
        collect-total edges hard c 0 edges empty (omega arith) same,
      ),
      edge_sum-IsBit edges hard els 0 bits (omega arith),
    )
