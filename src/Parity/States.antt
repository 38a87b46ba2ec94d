-- ===== src/Parity/States.antt =====
-- What the elimination keeps: the states it goes through, and the words that solve them.
use gunnchos_gpu_nr_baseband.Base.{
  ℕ, zero, suc, ◌*◌, ◌%◌, ◌<◌, ◌≢◌, inl, inr, ◌≡◌, refl, ap, arith, if◌then◌else◌, ◌==◌, List,
  length, get_or, All, Same-cases,
}
use gunnchos_gpu_nr_baseband.Parity.{System}
use gunnchos_gpu_nr_baseband.Parity.Rows.{cell, IsBit}
use gunnchos_gpu_nr_baseband.Parity.Sums.{total, total_ext, weigh}

pub record IsSystem (m : ℕ) (s : System) : Type 0 where
  pub size : length s.a ≡ m * m
  pub rows : length s.rhs ≡ m
  pub bits : All IsBit s.a
  pub rhs_bits : All IsBit s.rhs

-- The entry of the identity matrix.
abbrev pub entry : ℕ → ℕ → ℕ
entry r c = if r == c then 1 else 0

pub entry_ne : (r c : ℕ) → r ≢ c → entry r c ≡ 0
entry_ne r c d = elim (Same-cases r c) [ inl (e, h) ↦ absurd (d h) | inr (e, h) ↦ rw e refl ]

pub entry_self : (r : ℕ) → entry r r ≡ 1
entry_self r = elim (Same-cases r r) [ inl (e, h) ↦ rw e refl | inr (e, h) ↦ absurd (h refl) ]

-- The first columns are those of the identity matrix.
abbrev pub Cleared : (m k : ℕ) → System → Type 0
Cleared m k s = (r c : ℕ) → r < m → c < k → cell m s.a r c ≡ entry r c

abbrev pub row_total : ℕ → List ℕ → List ℕ → ℕ → ℕ
row_total m a x r = total m (λ c. weigh (cell m a r c) (get_or x c 0))

-- The parity bits `x` satisfy the equations.
abbrev pub Solves : ℕ → System → List ℕ → Type 0
Solves m s x = (r : ℕ) → r < m → row_total m s.a x r % 2 ≡ get_or s.rhs r 0 % 2

pub row_total_ext :
    (m : ℕ) (a b x : List ℕ) (r s : ℕ)
    → ((c : ℕ) → c < m → cell m a r c ≡ cell m b s c)
    → row_total m a x r ≡ row_total m b x s
row_total_ext m a b x r s h =
    total_ext m _ _ (λ c p. ap (λ (t : ℕ). weigh t (get_or x c 0)) (h c p))

pub bit_one : (b : ℕ) → b < 2 → b ≢ 0 → b ≡ 1
bit_one zero p d = absurd (d refl)
bit_one (suc zero) p d = refl
bit_one (suc (suc b)) p d = absurd (omega arith)

-- The step from `s` to `t` loses no equation.
abbrev pub KeepsSolutions : ℕ → System → System → Type 0
KeepsSolutions m s t = (x : List ℕ) → Solves m t x → Solves m s x
