-- ===== src/Parity/Syndrome.antt =====
-- What the encoders return satisfies every equation of the matrix.
use native.Mathlib.Nat.{mod-eq_of_lt, div-eq_of_lt, mul-add-div_right, mul-add-mod_self_right}
use gunnchos_gpu_nr_baseband.Base.{
  ℕ, zero, suc, ◌+◌, ◌-◌, ◌*◌, ◌/◌, ◌%◌, ◌<◌, inl, inr, ◌≡◌, refl, sym, ap, ap₂, ◌∙◌, arith, true,
  false, List, length, get_or, All, ltb, lt→ltb, String, ok, >>=-eq-ok, Less-cases, get_or-tabulate,
  length-tabulate_from, All-tabulate_from,
}
use mathlib.Core.Path.{subst}
use gunnchos_gpu_nr_baseband.Parity.{
  row_sum, row_parity, System, eliminate, start_system, codeword, parity_encode, rows_even,
}
use gunnchos_gpu_nr_baseband.Parity.Sums.{total, total_ext, total_single, total-append, weigh}
use gunnchos_gpu_nr_baseband.Parity.Rows.{cell, IsBit, get_or-IsBit, row-lt_all}
use gunnchos_gpu_nr_baseband.Parity.States.{
  IsSystem, entry_ne, entry_self, Cleared, row_total, Solves,
}
use gunnchos_gpu_nr_baseband.Parity.Equations.{
  terms, row_sum-parity, row_parity-parity, row_sum-IsBit, row_parity-IsBit,
}
use gunnchos_gpu_nr_baseband.Parity.Elimination.{eliminate_lem}

-- The place of an entry in its row, and the row.
place-row : (m r c : ℕ) → c < m → (r * m + c) / m ≡ r
place-row m r c p =
    let below : c / m ≡ 0 = div-eq_of_lt p in
    omega (arith, mul-add-div_right {m = m} (omega arith) r c)

place-column : (m r c : ℕ) → c < m → (r * m + c) % m ≡ c
place-column m r c p = mul-add-mod_self_right r m c ∙ mod-eq_of_lt p

module _ (n k m : ℕ) (h info : List ℕ) where
  start-cell :
      (r c : ℕ)
      → r < m
      → c < m
      → cell m (start_system n k m h info).a r c ≡ get_or h (r * n + (k + c)) 0
  start-cell r c p q =
      get_or-tabulate (m * m) _ (r * m + c) 0 (omega (arith, row-lt_all m r p))
      ∙ ap₂ (λ (i j : ℕ). get_or h (i * n + (k + j)) 0) (place-row m r c q) (place-column m r c q)

  start-IsSystem : All IsBit h → IsSystem m (start_system n k m h info)
  start-IsSystem bits = record {
    size = length-tabulate_from 0 (m * m) _;
    rows = length-tabulate_from 0 m _;
    bits = All-tabulate_from IsBit 0 (m * m) _ (λ i. get_or-IsBit h _ bits);
    rhs_bits =
        All-tabulate_from IsBit 0 m _ (λ r. row_parity-IsBit h (r * n) info 0 0 (omega arith));
  }

-- A system whose matrix is the identity is solved by its right-hand side.
identity-Solves : (m : ℕ) (s : System) → Cleared m m s → Solves m s s.rhs
identity-Solves m s clear r p =
    let f : ℕ → ℕ = λ c. weigh (cell m s.a r c) (get_or s.rhs c 0) in
    let only : total m f ≡ f r = total_single m f r p (λ c q d.
      let zero_there : cell m s.a r c ≡ 0 = clear r c p q ∙ entry_ne r c (λ e. d (sym e)) in
      ap (λ (t : ℕ). weigh t (get_or s.rhs c 0)) zero_there) in
    let here : f r ≡ get_or s.rhs r 0 =
      ap (λ (t : ℕ). weigh t (get_or s.rhs r 0)) (clear r r p p ∙ entry_self r) in
    ap (λ (t : ℕ). t % 2) (only ∙ here)

pub parity_encode-eq-ok :
    (text : String) (n k m : ℕ) (h info word : List ℕ)
    → parity_encode text n k m h info ≡ ok word
    → (s : System) × (eliminate text m m 0 (start_system n k m h info) ≡ ok s)
      × (word ≡ codeword n k info s.rhs)
unfolding parity_encode
parity_encode-eq-ok text n k m h info word e =
    let (s, run, made) = >>=-eq-ok (eliminate text m m 0 (start_system n k m h info)) _ e in
    let same : word ≡ codeword n k info s.rhs = cc in (s, run, same)

rows_even_all :
    (n : ℕ) (h word : List ℕ) (left r : ℕ)
    → ((o : ℕ) → o < r + left → row_sum h (o * n) word 0 0 ≡ 0)
    → rows_even n h word left r ≡ true
rows_even_all n h word zero r even = refl
rows_even_all n h word (suc left) r even =
    let here : row_sum h (r * n) word 0 0 ≡ 0 = even r (omega arith) in
    rw (here, rows_even_all n h word left (suc r) (λ o p. even o (omega arith))) refl

codeword-IsBit :
    (n k : ℕ) (info rhs : List ℕ)
    → All IsBit info
    → All IsBit rhs
    → All IsBit (codeword n k info rhs)
codeword-IsBit n k info rhs p q = All-tabulate_from IsBit 0 n _ (λ i. elim (Less-cases i k) [
  | inl (e, h) ↦ rw e (get_or-IsBit info i p)
  | inr (e, h) ↦ rw e (get_or-IsBit rhs (i - k) q)
])

module _ (k m : ℕ) (info rhs : List ℕ) where
  pub codeword-info : (i : ℕ) → i < k → get_or (codeword (k + m) k info rhs) i 0 ≡ get_or info i 0
  codeword-info i p =
      let front : ltb i k ≡ true = lt→ltb i k p in
      get_or-tabulate (k + m) _ i 0 (omega arith) ∙ rw front refl

  codeword-parity :
      (i : ℕ) → i < m → get_or (codeword (k + m) k info rhs) (k + i) 0 ≡ get_or rhs i 0
  codeword-parity i p =
      let back : ltb (k + i) k ≡ false = elim (Less-cases (k + i) k) [
        | inl (e, h) ↦ absurd (omega arith)
        | inr (e, h) ↦ e
      ] in
      let place : k + i - k ≡ i = omega arith in
      get_or-tabulate (k + m) _ (k + i) 0 (omega arith) ∙ rw (back, place) refl

-- The equation of row `r`, over the whole word, is the information part and the parity part.
codeword-row :
    (k m : ℕ) (h info rhs : List ℕ) (r : ℕ)
    → length info ≡ k
    → r < m
    → total (k + m) (terms h (r * (k + m)) (codeword (k + m) k info rhs) 0)
      ≡ total k (terms h (r * (k + m)) info 0)
        + row_total m (start_system (k + m) k m h info).a rhs r
codeword-row k m h info rhs r size p =
    let start : ℕ = r * (k + m) in
    let front : total k (terms h start (codeword (k + m) k info rhs) 0)
        ≡ total k (terms h start info 0) =
      total_ext k _ _ (λ i q.
        ap (λ (t : ℕ). weigh (get_or h (start + (0 + i)) 0) t) (codeword-info k m info rhs i q)) in
    let back : total m (λ i. terms h start (codeword (k + m) k info rhs) 0 (k + i))
        ≡ row_total m (start_system (k + m) k m h info).a rhs r =
      total_ext m _ _ (λ i q.
        let place : 0 + (k + i) ≡ k + i = omega arith in
        ap₂ weigh
          (ap (λ (t : ℕ). get_or h (start + t) 0) place
            ∙ sym (start-cell (k + m) k m h info r i p q))
          (codeword-parity k m info rhs i q)) in
    omega (arith, total-append k m (terms h start (codeword (k + m) k info rhs) 0))

-- A word whose parity bits solve the system has an even sum in every row.
solved-even :
    (k m : ℕ) (h info rhs : List ℕ) (r : ℕ)
    → All IsBit info
    → All IsBit rhs
    → length info ≡ k
    → Solves m (start_system (k + m) k m h info) rhs
    → r < m
    → row_sum h (r * (k + m)) (codeword (k + m) k info rhs) 0 0 ≡ 0
solved-even k m h info rhs r p q size solved inside =
    let start : ℕ = r * (k + m) in
    let word : List ℕ = codeword (k + m) k info rhs in
    let whole = row_sum-parity h start word 0 0 in
    let long : length word ≡ k + m = length-tabulate_from 0 (k + m) _ in
    let whole2 : row_sum h start word 0 0 % 2 ≡ (0 + total (k + m) (terms h start word 0)) % 2 =
      rw long at whole in
    let parts = codeword-row k m h info rhs r size inside in
    let known = row_parity-parity h start info 0 0 p in
    let known2 : row_parity h start info 0 0 % 2 ≡ (0 + total k (terms h start info 0)) % 2 =
      rw size at known in
    let side : get_or (start_system (k + m) k m h info).rhs r 0 ≡ row_parity h start info 0 0 =
      get_or-tabulate m _ r 0 inside in
    let small =
      row_sum-IsBit h start word 0 0 (codeword-IsBit (k + m) k info rhs p q) (omega arith) in
    omega (arith, solved r inside)

-- What the elimination returns is a word of bits that passes the test of the rows, where the parity
-- columns fill the code.
pub parity_encode-rows_even :
    (text : String) (n k m : ℕ) (h info word : List ℕ)
    → n ≡ k + m
    → length info ≡ k
    → All IsBit h
    → All IsBit info
    → parity_encode text n k m h info ≡ ok word
    → All IsBit word × (rows_even n h word m 0 ≡ true)
parity_encode-rows_even text n k m h info word square size bits fine e =
    let (s, run, made) = parity_encode-eq-ok text n k m h info word e in
    let start : System = start_system n k m h info in
    let (good, clear, keeps) =
      eliminate_lem text m m 0 start s run (omega arith) (start-IsSystem n k m h info bits)
        (λ r c p q. absurd (omega arith)) in
    let solved : Solves m start s.rhs = keeps s.rhs (identity-Solves m s clear) in
    let solved2 : Solves m (start_system (k + m) k m h info) s.rhs =
      subst (λ (t : ℕ). Solves m (start_system t k m h info) s.rhs) square solved in
    let even : rows_even (k + m) h (codeword (k + m) k info s.rhs) m 0 ≡ true =
      (rows_even_all (k + m) h (codeword (k + m) k info s.rhs) m 0
        (λ o p. solved-even k m h info s.rhs o fine good.rhs_bits size solved2 (omega arith))) in
    (
      subst (All IsBit) (sym made) (codeword-IsBit n k info s.rhs fine good.rhs_bits),
      ap (λ (w : List ℕ). rows_even n h w m 0) made
          ∙ ap (λ (t : ℕ). rows_even t h (codeword t k info s.rhs) m 0) square
          ∙ even,
    )
