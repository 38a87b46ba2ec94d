-- ===== src/Scrambling/Shift.antt =====
-- The two arrays of `gold_sequence` against a shift register of 31 bits each.
use gunnchos_gpu_nr_baseband.Base.{
  ℕ, zero, suc, ◌+◌, ◌%◌, ◌≤◌, ◌<◌, ◌≡◌, refl, sym, ap, ap₂, ◌∙◌, arith, bit_xor, List, [], ◌∷◌,
  ◌++◌, length, get_or, set, replicate, drop, tabulate, length-append, length-set, length-drop,
  length-replicate, get_or-set_self, get_or-set_ne, get_or-drop, get_or-append_left,
  get_or-append_right, tabulate_from_ext, get_or-replicate, get_or-tabulate, ◌>>>◌,
}
use native.Mathlib.Decide.{ℕ_discrete}
use gunnchos_gpu_nr_baseband.Scrambling.{next1, next2, gold_loop, load_init, gold_sequence}

-- A register shifts by one place and takes the feedback in at its end.
module _ (feed : List ℕ → ℕ) (start : List ℕ) where
  abbrev pub register : ℕ → List ℕ
  register zero = start
  register (suc n) = drop 1 (register n) ++ (feed (register n) ∷ [])

  -- The bit that leaves the register at time `n`.
  abbrev pub output : ℕ → ℕ
  output n = get_or (register n) 0 0

  module _ (size : length start ≡ 31) where
    pub length-register : (n : ℕ) → length (register n) ≡ 31
    length-register zero = size
    length-register (suc n) = omega (
      arith,
      length-append (drop 1 (register n)) (feed (register n) ∷ []),
      length-drop 1 (register n),
      length-register n,
    )

    -- Inside the register stand the bits that will leave it.
    register-output : (k n : ℕ) → k < 31 → get_or (register n) k 0 ≡ output (n + k)
    register-output zero n h = let same : n ≡ n + 0 = omega arith in ap output same
    register-output (suc k) n h =
        let shift : suc n + k ≡ n + suc k = omega arith in
        let one : 1 + k ≡ suc k = omega arith in
        ap (λ (t : ℕ). get_or (register n) t 0) (sym one)
        ∙ sym (
            get_or-append_left (drop 1 (register n)) (feed (register n) ∷ []) k 0
              (omega (arith, length-drop 1 (register n), length-register n))
            ∙ get_or-drop 1 (register n) k 0)
        ∙ register-output k (suc n) (omega arith)
        ∙ ap output shift

    output-start : (k : ℕ) → k < 31 → output k ≡ get_or start k 0
    output-start k h =
        let same : 0 + k ≡ k = omega arith in sym (register-output k 0 h ∙ ap output same)

    -- The bit that is taken in leaves 31 steps later.
    output_feed : (n : ℕ) → output (n + 31) ≡ feed (register n)
    output_feed n =
        let shift : suc n + 30 ≡ n + 31 = omega arith in
        ap output (sym shift)
        ∙ sym (register-output 30 (suc n) (omega arith))
        ∙ get_or-append_right (drop 1 (register n)) (feed (register n) ∷ []) 0 30 0
            (omega (arith, length-drop 1 (register n), length-register n))

-- The taps of the two registers.
abbrev pub feed1 : List ℕ → ℕ
feed1 w = bit_xor (get_or w 3 0) (get_or w 0 0)

abbrev pub feed2 : List ℕ → ℕ
feed2 w = bit_xor (bit_xor (bit_xor (get_or w 3 0) (get_or w 2 0)) (get_or w 1 0)) (get_or w 0 0)

abbrev pub start1 : List ℕ
start1 = 1 ∷ replicate 30 0

abbrev pub start2 : ℕ → List ℕ
start2 c_init = tabulate 31 (λ i. (c_init >>> i) % 2)

-- `x` holds the first `m` values of `f`.
abbrev Holds : (ℕ → ℕ) → ℕ → List ℕ → Type 0
Holds f m x = (j : ℕ) → j < m → get_or x j 0 ≡ f j

set-Holds :
    (f : ℕ → ℕ) (m : ℕ) (x : List ℕ) (v : ℕ)
    → m < length x
    → Holds f m x
    → v ≡ f m
    → Holds f (m + 1) (set x m v)
set-Holds f m x v h holds e j p = elim (ℕ_discrete j m) [
  | yes q ↦ rw q (get_or-set_self x m v 0 h ∙ e)
  | no q ↦ get_or-set_ne x m j v 0 (λ r. q (sym r)) ∙ holds j (omega arith)
]

module _ (c_init : ℕ) where
  abbrev out1 : ℕ → ℕ
  out1 = output feed1 start1

  abbrev out2 : ℕ → ℕ
  out2 = output feed2 (start2 c_init)

  size2 : length (start2 c_init) ≡ 31
  size2 = refl

  at1 :
      (n k : ℕ) (x : List ℕ)
      → Holds out1 (n + 31) x
      → k < 31
      → get_or x (n + k) 0 ≡ get_or (register feed1 start1 n) k 0
  at1 n k x h p = h (n + k) (omega arith) ∙ sym (register-output feed1 start1 refl k n p)

  at2 :
      (n k : ℕ) (x : List ℕ)
      → Holds out2 (n + 31) x
      → k < 31
      → get_or x (n + k) 0 ≡ get_or (register feed2 (start2 c_init) n) k 0
  at2 n k x h p = h (n + k) (omega arith) ∙ sym (register-output feed2 (start2 c_init) size2 k n p)

  next1-out1 : (n : ℕ) (x : List ℕ) → Holds out1 (n + 31) x → next1 x n ≡ out1 (n + 31)
  next1-out1 n x h =
      let same : n ≡ n + 0 = omega arith in
      ap₂ bit_xor (at1 n 3 x h (omega arith))
        (ap (λ (t : ℕ). get_or x t 0) same ∙ at1 n 0 x h (omega arith))
      ∙ sym (output_feed feed1 start1 refl n)

  next2-out2 : (n : ℕ) (x : List ℕ) → Holds out2 (n + 31) x → next2 x n ≡ out2 (n + 31)
  next2-out2 n x h =
      let same : n ≡ n + 0 = omega arith in
      ap₂ bit_xor
        (ap₂ bit_xor (ap₂ bit_xor (at2 n 3 x h (omega arith)) (at2 n 2 x h (omega arith)))
          (at2 n 1 x h (omega arith)))
        (ap (λ (t : ℕ). get_or x t 0) same ∙ at2 n 0 x h (omega arith))
      ∙ sym (output_feed feed2 (start2 c_init) size2 n)

  -- After the loop both arrays hold the registers' outputs.
  gold_loop-Holds :
      (left n : ℕ) (x1 x2 : List ℕ)
      → length x1 ≡ n + left + 31
      → length x2 ≡ n + left + 31
      → Holds out1 (n + 31) x1
      → Holds out2 (n + 31) x2
      → Holds out1 (n + left + 31) (gold_loop left n x1 x2).0
        × Holds out2 (n + left + 31) (gold_loop left n x1 x2).1
  unfolding gold_loop
  gold_loop-Holds zero n x1 x2 l1 l2 h1 h2 =
      ((λ j p. h1 j (omega arith)), (λ j p. h2 j (omega arith)))
  gold_loop-Holds (suc left) n x1 x2 l1 l2 h1 h2 =
      let i : ℕ = n + 31 in
      let v1 = next1 x1 n in
      let v2 = next2 x2 n in
      let w1 = set-Holds out1 i x1 v1 (omega arith) h1 (next1-out1 n x1 h1) in
      let w2 = set-Holds out2 i x2 v2 (omega arith) h2 (next2-out2 n x2 h2) in
      let (r1, r2) =
        gold_loop-Holds left (n + 1) (set x1 i v1) (set x2 i v2) (omega (arith, length-set x1 i v1))
          (omega (arith, length-set x2 i v2)) (λ j p. w1 j (omega arith))
          (λ j p. w2 j (omega arith)) in
      ((λ j p. r1 j (omega arith)), (λ j p. r2 j (omega arith)))

  -- `X2` before the loop.
  load_init-Holds :
      (left i : ℕ) (x : List ℕ)
      → i + left ≤ length x
      → Holds (λ j. (c_init >>> j) % 2) i x
      → Holds (λ j. (c_init >>> j) % 2) (i + left) (load_init left i c_init x)
        × (length (load_init left i c_init x) ≡ length x)
  unfolding load_init
  load_init-Holds zero i x l h = ((λ j p. h j (omega arith)), refl)
  load_init-Holds (suc left) i x l h =
      let v : ℕ = (c_init >>> i) % 2 in
      let w = set-Holds (λ j. (c_init >>> j) % 2) i x v (omega arith) h refl in
      let (r, same) =
        load_init-Holds left (i + 1) (set x i v) (omega (arith, length-set x i v)) w in
      ((λ j p. r j (omega arith)), same ∙ length-set x i v)

  load_init-length :
      (total : ℕ) → length (load_init 31 0 c_init (replicate (total + 31) 0)) ≡ 0 + total + 31
  load_init-length total =
      let zeros : List ℕ = replicate (total + 31) 0 in
      let size = length-replicate (total + 31) zero in
      let (_, same) =
        load_init-Holds 31 0 zeros (omega (arith, size)) (λ i p. absurd (omega arith)) in
      omega (arith, same, size)

  start1-Holds : (total : ℕ) → Holds out1 31 (set (replicate (total + 31) 0) 0 1)
  start1-Holds total zero h =
      let zeros : List ℕ = replicate (total + 31) 0 in
      get_or-set_self zeros 0 1 0 (omega (arith, length-replicate (total + 31) zero))
  start1-Holds total (suc j) h =
      let zeros : List ℕ = replicate (total + 31) 0 in
      get_or-set_ne zeros 0 (suc j) 1 0 (λ e. omega arith)
      ∙ get_or-replicate (total + 31) 0 (suc j)
      ∙ sym (output-start feed1 start1 refl (suc j) h ∙ get_or-replicate 30 0 j)

  start2-Holds : (total : ℕ) → Holds out2 31 (load_init 31 0 c_init (replicate (total + 31) 0))
  start2-Holds total j h =
      let zeros : List ℕ = replicate (total + 31) 0 in
      let fits : 0 + 31 ≤ length zeros = omega (arith, length-replicate (total + 31) zero) in
      let (r, _) = load_init-Holds 31 0 zeros fits (λ i p. absurd (omega arith)) in
      r j h
      ∙ sym (get_or-tabulate 31 (λ i. (c_init >>> i) % 2) j 0 h)
      ∙ sym (output-start feed2 (start2 c_init) size2 j h)

-- `gold_sequence` is the sum of the outputs of two shift registers of 31 bits from step 1600 on: one
-- starts with a single 1 and feeds back bits 3 and 0, the other starts with the bits of `c_init` and
-- feeds back bits 3, 2, 1 and 0.
pub gold_sequence-register :
    (len c_init : ℕ)
    → gold_sequence len c_init
      ≡ tabulate len
          (λ n. bit_xor (output feed1 start1 (n + 1600)) (output feed2 (start2 c_init) (n + 1600)))
unfolding gold_sequence
gold_sequence-register len c_init =
    let total : ℕ = 1600 + len in
    let zeros : List ℕ = replicate (total + 31) 0 in
    let x1 : List ℕ = set zeros 0 1 in
    let x2 : List ℕ = load_init 31 0 c_init zeros in
    let (h1, h2) =
      gold_loop-Holds c_init total 0 x1 x2
        (omega (arith, length-set zeros 0 1, length-replicate (total + 31) zero))
        (load_init-length c_init total) (start1-Holds c_init total) (start2-Holds c_init total) in
    tabulate_from_ext 0 len _ _
      λ j p q. ap₂ bit_xor (h1 (j + 1600) (omega arith)) (h2 (j + 1600) (omega arith))
