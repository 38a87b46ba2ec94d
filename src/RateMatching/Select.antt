-- ===== src/RateMatching/Select.antt =====
-- What `rate_match` selects.
use native.Mathlib.Nat.{mod-lt, mod-eq_of_lt}
use gunnchos_gpu_nr_baseband.Base.{
  ℕ, ◌+◌, ◌-◌, ◌*◌, ◌/◌, ◌%◌, ◌≤◌, ◌<◌, ◌≡◌, refl, ap, ◌∙◌, arith, Bool, true, List, [], ◌∷◌,
  if◌then◌else◌, ltb, ltb→lt, lt→ltb, length, get_or, drop, tabulate, length-drop, get_or-drop,
  get_or-tabulate, tabulate_from_ext, String, ok, require-eq-ok, >>-eq-ok, Bool-cases, inl, inr,
}
use gunnchos_gpu_nr_baseband.Base.Int.{ℤ, pos, negsuc}
use gunnchos_gpu_nr_baseband.RateMatching.{
  RateMatchConfig, rv_coeffs, k0_of, rv_k0_positions, rv_index, start_offset, punctures, punch,
  buffer_size, check_punch, fill_buffer, read_buffer, rate_match,
}
use gunnchos_gpu_nr_baseband.Base.Wrap.{distance, distance-lt, mod-distance}

rv_index-lt : (rv : ℤ) → rv_index rv < 4
unfolding rv_index
rv_index-lt (pos n) = omega arith
rv_index-lt (negsuc n) = omega arith

-- The start of a redundancy version, in closed form.
abbrev pub offset : RateMatchConfig → ℕ → ℕ
offset cfg n =
    if ltb 0 cfg.zc
    then k0_of n cfg.zc cfg.bg (get_or (rv_coeffs cfg.bg) (rv_index cfg.rv) 0) % n
    else n * rv_index cfg.rv / 4

pub start_offset-offset :
    (cfg : RateMatchConfig) (n : ℕ) → 0 < n → start_offset cfg n ≡ ok (offset cfg n)
unfolding start_offset rv_k0_positions
start_offset-offset cfg n h = elim (Bool-cases (ltb 0 cfg.zc)) [
  | inl some_zc ↦
      let entry : get_or (tabulate 4 (λ rv. k0_of n cfg.zc cfg.bg (get_or (rv_coeffs cfg.bg) rv 0)))
            (rv_index cfg.rv) 0
          ≡ k0_of n cfg.zc cfg.bg (get_or (rv_coeffs cfg.bg) (rv_index cfg.rv) 0) =
        get_or-tabulate 4 (λ rv. k0_of n cfg.zc cfg.bg (get_or (rv_coeffs cfg.bg) rv 0))
          (rv_index cfg.rv) 0 (rv_index-lt cfg.rv) in
      rw (some_zc, lt→ltb 0 n h) (ap (λ (t : ℕ). ok (t % n)) entry)
  | inr no_zc ↦ rw no_zc refl
]

pub check_punch-passes :
    (cfg : RateMatchConfig) (n : ℕ) (text : String)
    → punch cfg < n
    → check_punch (punctures cfg) n (punch cfg) text ≡ ok tt
check_punch-passes cfg n text h = elim (Bool-cases (punctures cfg)) [
  | inl some_bits ↦
      let passes : check_punch true n (punch cfg) text ≡ ok tt = rw (lt→ltb (punch cfg) n h) refl in
      ap (λ (u : Bool). check_punch u n (punch cfg) text) some_bits ∙ passes
  | inr no_bits ↦ ap (λ (u : Bool). check_punch u n (punch cfg) text) no_bits
]

pub buffer_size-pos : (cfg : RateMatchConfig) (n : ℕ) → 0 < n → 0 < buffer_size cfg n
buffer_size-pos cfg n h = ground arith

-- Bit `i` of the output.
abbrev pub selected : List ℕ → RateMatchConfig → ℕ → ℕ
selected coded cfg i =
    let size = length coded - punch cfg in
    let n_cb = buffer_size cfg size in
    get_or coded (punch cfg + (offset cfg n_cb + i) % n_cb % size) 0

read-fill :
    (e k0 n : ℕ) (systematic : List ℕ)
    → 0 < n
    → read_buffer e k0 n (fill_buffer n systematic)
      ≡ tabulate e (λ i. get_or systematic ((k0 + i) % n % length systematic) 0)
read-fill e k0 n systematic h = tabulate_from_ext 0 e _ _ (λ i _ _.
    get_or-tabulate n (λ t. get_or systematic (t % length systematic) 0) ((k0 + i) % n) 0
      (mod-lt (k0 + i) h))

-- `rate_match` succeeds on every block of bits that is longer than what is punctured, if it has any
-- output. Output bit i is the bit at place (k0 + i) mod n_cb of the buffer, which repeats the bits behind
-- the punctured ones and starts at the offset of the redundancy version.
pub rate_match_lem :
    (coded : List ℕ) (cfg : RateMatchConfig)
    → punch cfg < length coded
    → 0 < cfg.e_bits
    → rate_match coded cfg ≡ ok (tabulate cfg.e_bits (selected coded cfg))
unfolding rate_match
rate_match_lem [] cfg long some_out = absurd (omega arith)
rate_match_lem (x ∷ xs) cfg long some_out =
    let coded : List ℕ = x ∷ xs in
    let p : ℕ = punch cfg in
    let systematic : List ℕ = drop p coded in
    let size : length systematic ≡ length coded - p = length-drop p coded in
    let n : ℕ = buffer_size cfg (length systematic) in
    let positive : 0 < n = buffer_size-pos cfg (length systematic) (omega arith) in
    let read =
      read-fill cfg.e_bits (offset cfg n) n systematic positive
      ∙ tabulate_from_ext 0 cfg.e_bits _
          (λ i. get_or coded (p + (offset cfg n + i) % n % length systematic) 0)
          (λ i _ _. get_or-drop p coded ((offset cfg n + i) % n % length systematic) 0)
      ∙ ap
          (λ (t : ℕ). tabulate cfg.e_bits (λ i.
            get_or coded (p + (offset cfg (buffer_size cfg t) + i) % buffer_size cfg t % t) 0))
          size in
    rw
      (
        lt→ltb 0 cfg.e_bits some_out,
        check_punch-passes cfg (length coded) "coded too short to puncture 2Z" long,
        lt→ltb 0 n positive,
        start_offset-offset cfg n positive,
      )
      (ap ok read)

refuses-punch :
    (cfg : RateMatchConfig) (n : ℕ) (text : String)
    → 0 < n
    → check_punch (punctures cfg) n (punch cfg) text ≡ ok tt
    → punch cfg < n
refuses-punch cfg n text h e = ground arith

-- `rate_match` succeeds only then: what it returns comes from a block that is longer than what is
-- punctured, and is not empty.
rate_match_accepts :
    (coded out : List ℕ) (cfg : RateMatchConfig)
    → rate_match coded cfg ≡ ok out
    → (punch cfg < length coded) × (0 < cfg.e_bits)
unfolding rate_match
rate_match_accepts [] out cfg e = cc
rate_match_accepts (x ∷ xs) out cfg e =
    let n : ℕ = length (x ∷ xs) in
    let text : String = "coded too short to puncture 2Z" in
    let (some_out, e1) = require-eq-ok (ltb 0 cfg.e_bits) "E must be > 0" _ e in
    let (fine, _) = >>-eq-ok (check_punch (punctures cfg) n (punch cfg) text) _ e1 in
    (refuses-punch cfg n text (omega arith) fine, ltb→lt 0 cfg.e_bits some_out)

-- With an output as long as the buffer, and a buffer that is not shorter than the bits behind the
-- punctured ones, each of those bits is sent.
rate_match_covers :
    (coded : List ℕ) (cfg : RateMatchConfig) (j : ℕ)
    → punch cfg + j < length coded
    → length coded - punch cfg ≤ buffer_size cfg (length coded - punch cfg)
    → buffer_size cfg (length coded - punch cfg) ≤ cfg.e_bits
    → (out : List ℕ) × (rate_match coded cfg ≡ ok out)
      × (i : ℕ) × (i < cfg.e_bits)
      × (get_or out i 0 ≡ get_or coded (punch cfg + j) 0)
rate_match_covers coded cfg j inside wide whole =
    let size : ℕ = length coded - punch cfg in
    let n : ℕ = buffer_size cfg size in
    let i : ℕ = distance (offset cfg n) n j in
    let i_below : i < cfg.e_bits = omega (arith, distance-lt (offset cfg n) n j (omega arith)) in
    let place : (offset cfg n + i) % n % size ≡ j =
      ap (λ (t : ℕ). t % size) (mod-distance (offset cfg n) n j (omega arith))
      ∙ mod-eq_of_lt (omega arith) in
    (
      tabulate cfg.e_bits (selected coded cfg),
      rate_match_lem coded cfg (omega arith) (omega arith),
      i,
      i_below,
      get_or-tabulate cfg.e_bits (selected coded cfg) i 0 i_below
          ∙ ap (λ (t : ℕ). get_or coded (punch cfg + t) 0) place,
    )
