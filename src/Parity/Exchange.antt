-- ===== src/Parity/Exchange.antt =====
-- The loop that exchanges two rows.
use gunnchos_gpu_nr_baseband.Base.{
  ℕ, zero, suc, ◌+◌, ◌*◌, ◌≤◌, ◌<◌, ◌≢◌, ◌⊎◌, inl, inr, ◌≡◌, refl, sym, ◌∙◌, arith, List, length,
  get_or, set, All, length-set, get_or-set_self, get_or-set_ne,
}
use gunnchos_gpu_nr_baseband.Parity.{swap_at, swap_rows}
use gunnchos_gpu_nr_baseband.Parity.Rows.{IsBit, All-set, get_or-IsBit, Apart}

module _ (xs : List ℕ) (i j : ℕ) where
  pub swap_at-first : i ≢ j → i < length xs → get_or (swap_at xs i j) i 0 ≡ get_or xs j 0
  swap_at-first d p =
      get_or-set_ne (set xs i (get_or xs j 0)) j i _ 0 (λ e. d (sym e)) ∙ get_or-set_self xs i _ 0 p

  pub swap_at-second : j < length xs → get_or (swap_at xs i j) j 0 ≡ get_or xs i 0
  swap_at-second p =
      get_or-set_self (set xs i (get_or xs j 0)) j _ 0
        (omega (arith, length-set xs i (get_or xs j 0)))

  pub swap_at-other : (k : ℕ) → i ≢ k → j ≢ k → get_or (swap_at xs i j) k 0 ≡ get_or xs k 0
  swap_at-other k d e =
      get_or-set_ne (set xs i (get_or xs j 0)) j k _ 0 e ∙ get_or-set_ne xs i k _ 0 d

  pub swap_at-length : length (swap_at xs i j) ≡ length xs
  swap_at-length = length-set (set xs i (get_or xs j 0)) j _ ∙ length-set xs i _

  pub swap_at-IsBit : All IsBit xs → All IsBit (swap_at xs i j)
  swap_at-IsBit bits =
      All-set (set xs i (get_or xs j 0)) j _ (All-set xs i _ bits (get_or-IsBit xs j bits))
        (get_or-IsBit xs i bits)

-- Off both rows, and before column `c` of them.
pub swap_rows-frame :
    (m col piv left c : ℕ) (a : List ℕ) (j : ℕ)
    → (j < col * m + c) ⊎ (col * m + c + left ≤ j)
    → (j < piv * m + c) ⊎ (piv * m + c + left ≤ j)
    → get_or (swap_rows m col piv left c a) j 0 ≡ get_or a j 0
swap_rows-frame m col piv zero c a j p q = refl
swap_rows-frame m col piv (suc left) c a j p q =
    let off1 : col * m + c ≢ j = λ e. elim p [ inl h ↦ omega arith | inr h ↦ omega arith ] in
    let off2 : piv * m + c ≢ j = λ e. elim q [ inl h ↦ omega arith | inr h ↦ omega arith ] in
    let p2 : (j < col * m + suc c) ⊎ (col * m + suc c + left ≤ j) = elim p [
      | inl h ↦ inl (omega arith)
      | inr h ↦ inr (omega arith)
    ] in
    let q2 : (j < piv * m + suc c) ⊎ (piv * m + suc c + left ≤ j) = elim q [
      | inl h ↦ inl (omega arith)
      | inr h ↦ inr (omega arith)
    ] in
    swap_rows-frame m col piv left (suc c) _ j p2 q2
    ∙ swap_at-other a (col * m + c) (piv * m + c) j off1 off2

pub swap_rows-length :
    (m col piv left c : ℕ) (a : List ℕ) → length (swap_rows m col piv left c a) ≡ length a
swap_rows-length m col piv zero c a = refl
swap_rows-length m col piv (suc left) c a =
    swap_rows-length m col piv left (suc c) _ ∙ swap_at-length a (col * m + c) (piv * m + c)

pub swap_rows-IsBit :
    (m col piv left c : ℕ) (a : List ℕ) → All IsBit a → All IsBit (swap_rows m col piv left c a)
swap_rows-IsBit m col piv zero c a bits = bits
swap_rows-IsBit m col piv (suc left) c a bits =
    swap_rows-IsBit m col piv left (suc c) _ (swap_at-IsBit a (col * m + c) (piv * m + c) bits)

-- The two rows have changed places from column `c` on.
abbrev pub Exchanged : (m col piv c k : ℕ) → List ℕ → List ℕ → Type 0
Exchanged m col piv c k a b =
    (get_or b (col * m + (c + k)) 0 ≡ get_or a (piv * m + (c + k)) 0)
    × (get_or b (piv * m + (c + k)) 0 ≡ get_or a (col * m + (c + k)) 0)

pub swap_rows-effect :
    (m col piv left c : ℕ) (a : List ℕ) (k : ℕ)
    → k < left
    → c + left ≤ m
    → col * m + m ≤ length a
    → piv * m + m ≤ length a
    → Apart m col piv
    → Exchanged m col piv c k a (swap_rows m col piv left c a)
swap_rows-effect m col piv zero c a k p q s1 s2 apart = absurd (omega arith)
swap_rows-effect m col piv (suc left) c a zero p q s1 s2 apart =
    let here : c + 0 ≡ c = omega arith in
    let b : List ℕ = swap_at a (col * m + c) (piv * m + c) in
    let d : col * m + c ≢ piv * m + c =
      λ e. elim apart [ inl h ↦ omega arith | inr h ↦ omega arith ] in
    let clear1 : (col * m + c < piv * m + suc c) ⊎ (piv * m + suc c + left ≤ col * m + c) =
      elim apart [ inl h ↦ inl (omega arith) | inr h ↦ inr (omega arith) ] in
    let clear2 : (piv * m + c < col * m + suc c) ⊎ (col * m + suc c + left ≤ piv * m + c) =
      elim apart [ inl h ↦ inr (omega arith) | inr h ↦ inl (omega arith) ] in
    let done1 = swap_rows-frame m col piv left (suc c) b (col * m + c) (inl (omega arith)) clear1 in
    let done2 = swap_rows-frame m col piv left (suc c) b (piv * m + c) clear2 (inl (omega arith)) in
    rw here (
      done1 ∙ swap_at-first a (col * m + c) (piv * m + c) d (omega arith),
      done2 ∙ swap_at-second a (col * m + c) (piv * m + c) (omega arith),
    )
swap_rows-effect m col piv (suc left) c a (suc k) p q s1 s2 apart =
    let later : c + suc k ≡ suc c + k = omega arith in
    let b : List ℕ = swap_at a (col * m + c) (piv * m + c) in
    let size : length b ≡ length a = swap_at-length a (col * m + c) (piv * m + c) in
    let (e1, e2) =
      swap_rows-effect m col piv left (suc c) b k (omega arith) (omega arith) (omega arith)
        (omega arith) apart in
    let same1 : get_or b (piv * m + (suc c + k)) 0 ≡ get_or a (piv * m + (suc c + k)) 0 =
      swap_at-other a (col * m + c) (piv * m + c) (piv * m + (suc c + k))
        (λ e. elim apart [ inl h ↦ omega arith | inr h ↦ omega arith ]) (λ e. omega arith) in
    let same2 : get_or b (col * m + (suc c + k)) 0 ≡ get_or a (col * m + (suc c + k)) 0 =
      swap_at-other a (col * m + c) (piv * m + c) (col * m + (suc c + k)) (λ e. omega arith)
        (λ e. elim apart [ inl h ↦ omega arith | inr h ↦ omega arith ]) in
    rw later (e1 ∙ same1, e2 ∙ same2)
