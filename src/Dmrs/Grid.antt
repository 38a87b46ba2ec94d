-- ===== src/Dmrs/Grid.antt =====
-- The loop of `generate_dmrs` on its sequence and its grid.
use mathlib.Core.Path.{subst}
use gunnchos_gpu_nr_baseband.Base.{
  ℕ, zero, suc, ◌+◌, ◌<◌, ◌≡◌, ◌≢◌, inl, inr, refl, sym, ap, ◌∙◌, arith, List, [], length, get_or,
  set, replicate, Same-cases, get_or-set_self, get_or-set_ne, length-set, get_or-replicate,
  length-replicate,
}
use gunnchos_gpu_nr_baseband.Base.Double.{Double}
use gunnchos_gpu_nr_baseband.Base.Signed.{Signed}
use gunnchos_gpu_nr_baseband.Modulation.{Complex}
use gunnchos_gpu_nr_baseband.Estimation.{origin}
use gunnchos_gpu_nr_baseband.Dmrs.{DmrsGrid, reference_symbol, place_symbols}

-- A sequence that is written in order holds the first values.
set_next {ℓ} :
    {A : Type ℓ} (xs : List A) (k : ℕ) (v d : A) (f : ℕ → A)
    → k < length xs
    → v ≡ f k
    → ((j : ℕ) → j < k → get_or xs j d ≡ f j)
    → (j : ℕ) → j < suc k
    → get_or (set xs k v) j d ≡ f j
set_next xs k v d f room value before j q = elim (Same-cases j k) [
  | inl (_, e) ↦
      ap (λ (t : ℕ). get_or (set xs k v) t d) e
      ∙ get_or-set_self xs k v d room
      ∙ value
      ∙ ap f (sym e)
  | inr (_, e) ↦ get_or-set_ne xs k j v d (λ h. e (sym h)) ∙ before j (omega (arith, e))
]

module _ {ℓ} {W : Type ℓ} ⦃d : Double W⦄ ⦃sg : Signed W⦄ where
  -- The entry at a symbol and a subcarrier.
  abbrev pub entry : DmrsGrid W → ℕ → ℕ → Complex W
  entry g i j = get_or (get_or g.grid i []) j origin

  -- A grid whose row `row` holds the first `k` reference symbols.
  pub record IsPlaced (bits : List ℕ) (m n row k : ℕ) (g : DmrsGrid W) : Type ℓ where
    pub size : length g.sequence ≡ n
    pub height : length g.grid ≡ m
    pub width : (i : ℕ) → i < m → length (get_or g.grid i []) ≡ n
    pub done : (j : ℕ) → j < k → get_or g.sequence j origin ≡ reference_symbol bits j
    pub here : (j : ℕ) → j < k → entry g row j ≡ reference_symbol bits j
    pub others : (i j : ℕ) → i ≢ row → entry g i j ≡ origin

  place_one-IsPlaced :
      (bits : List ℕ) (m n row k : ℕ) (g : DmrsGrid W)
      → row < m
      → k < n
      → IsPlaced bits m n row k g
      → IsPlaced bits m n row (suc k) (place_symbols bits row 1 k g)
  place_one-IsPlaced bits m n row k g low room p = record {
    size = length-set g.sequence k _ ∙ p.size;
    height = length-set g.grid row _ ∙ p.height;
    width = λ i q. elim (Same-cases i row) [
      | inl (_, e) ↦
          ap (λ (t : ℕ). length (get_or (set g.grid row changed) t [])) e
          ∙ ap length (get_or-set_self g.grid row changed [] (omega (arith, p.height)))
          ∙ length-set (get_or g.grid row []) k _
          ∙ p.width row low
      | inr (_, e) ↦
          ap length (get_or-set_ne g.grid row i changed [] (λ h. e (sym h))) ∙ p.width i q
    ];
    done =
        set_next g.sequence k (reference_symbol bits k) origin (reference_symbol bits)
          (omega (arith, p.size)) refl p.done;
    here = λ j q.
        ap (λ (r : List (Complex W)). get_or r j origin)
          (get_or-set_self g.grid row changed [] (omega (arith, p.height)))
        ∙ set_next (get_or g.grid row []) k (get_or symbols k origin) origin (reference_symbol bits)
            (omega (arith, p.width row low))
            (get_or-set_self g.sequence k (reference_symbol bits k) origin (omega (arith, p.size)))
            p.here j q;
    others = λ i j e.
        ap (λ (r : List (Complex W)). get_or r j origin)
          (get_or-set_ne g.grid row i changed [] (λ h. e (sym h)))
        ∙ p.others i j e;
  }
    where
      symbols : List (Complex W)
      symbols = set g.sequence k (reference_symbol bits k)

      changed : List (Complex W)
      changed = set (get_or g.grid row []) k (get_or symbols k origin)

  pub place_symbols-IsPlaced :
      (bits : List ℕ) (m n row left k : ℕ) (g : DmrsGrid W)
      → row < m
      → left + k ≡ n
      → IsPlaced bits m n row k g
      → IsPlaced bits m n row n (place_symbols bits row left k g)
  place_symbols-IsPlaced bits m n row zero k g low e p =
      let last : k ≡ n = omega arith in subst (λ (t : ℕ). IsPlaced bits m n row t g) last p
  place_symbols-IsPlaced bits m n row (suc left) k g low e p =
      place_symbols-IsPlaced bits m n row left (suc k) (place_symbols bits row 1 k g) low
        (omega arith) (place_one-IsPlaced bits m n row k g low (omega arith) p)

  abbrev pub start : ℕ → ℕ → DmrsGrid W
  start m n = record { grid = replicate m (replicate n origin); sequence = replicate n origin }

  origins : (m n i : ℕ) → i < m → get_or (start m n).grid i [] ≡ replicate n origin
  origins zero n i q = absurd (omega arith)
  origins (suc m) n zero q = refl
  origins (suc m) n (suc i) q = origins m n i (omega arith)

  all_origins : (m n i j : ℕ) → entry (start m n) i j ≡ origin
  all_origins zero n i j = refl
  all_origins (suc m) n zero j = get_or-replicate n origin j
  all_origins (suc m) n (suc i) j = all_origins m n i j

  pub start-IsPlaced : (bits : List ℕ) (m n row : ℕ) → IsPlaced bits m n row 0 (start m n)
  start-IsPlaced bits m n row = record {
    size = length-replicate n origin;
    height = length-replicate m _;
    width = λ i q. ap length (origins m n i q) ∙ length-replicate n origin;
    done = λ j q. absurd (omega arith);
    here = λ j q. absurd (omega arith);
    others = λ i j e. all_origins m n i j;
  }
