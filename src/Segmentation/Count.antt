-- ===== src/Segmentation/Count.antt =====
-- The number of code blocks of src/segmentation.cpp.
use native.Mathlib.Nat.{add-mul-div_left, div-lt_iff_lt-mul, mod-lt, div-add-mod}
use gunnchos_gpu_nr_baseband.Base.{
  ℕ, suc, ◌+◌, ◌-◌, ◌*◌, ◌/◌, ◌≤◌, ◌<◌, ◌≡◌, ap, ◌∙◌, arith, Bool, if◌then◌else◌, ltb, le→leb,
  Bool-cases, inl, inr, ok,
}
use gunnchos_gpu_nr_baseband.Segmentation.{crc_bits, info_bits, refine_count, block_count}

-- `b / c`, rounded up.
abbrev pub div_up : ℕ → ℕ → ℕ
div_up b c = (b + c - 1) / c

-- The CRC bits that are added to the whole come out of each block again.
pub info_bits-div_up : (attach : Bool) (b c : ℕ) → 0 < c → info_bits attach b c ≡ div_up b c
info_bits-div_up attach b c h =
    let l : ℕ = crc_bits attach c in
    let regroup : b + c * l + c - 1 ≡ b + c - 1 + c * l = omega arith in
    let split : (b + c * l + c - 1) / c ≡ div_up b c + l =
      ap (λ (t : ℕ). t / c) regroup ∙ add-mul-div_left (b + c - 1) l h in
    omega (arith, split)

-- The quotient rounded up is the least `q` with `b ≤ c * q`.
pub div_up_least : (b c : ℕ) → 0 < c → (b ≤ c * div_up b c) × ((q : ℕ) → b ≤ c * q → div_up b c ≤ q)
div_up_least b c h = (
  omega (arith, div-add-mod (b + c - 1) c, mod-lt (b + c - 1) h),
  λ q p.
      let below : b + c - 1 < (q + 1) * c = omega arith in
      omega (arith, (div-lt_iff_lt-mul {x = b + c - 1} {y = q + 1} h).1 below),
)

pub div_up-pos : (b c : ℕ) → 0 < b → 0 < c → 0 < div_up b c
div_up-pos b c hb hc = grind (arith, div_up_least b c hc)

-- Blocks of the quotient rounded up are few enough to be no larger than `k`.
pub div_up-div_up : (b k : ℕ) → 0 < b → 0 < k → div_up b (div_up b k) ≤ k
div_up-div_up b k hb hk =
    (div_up_least b (div_up b k) (div_up-pos b k hb hk)).1 k
      (omega (arith, (div_up_least b k hk).0))

-- The number of blocks, in closed form.
abbrev pub count_of : ℕ → ℕ → ℕ
count_of b k = if ltb k b then div_up b k else 1

refine_count_now :
    (fuel : ℕ) (attach : Bool) (b k c : ℕ)
    → info_bits attach b c ≤ k
    → refine_count (suc fuel) attach b k c ≡ ok c
unfolding refine_count
refine_count_now fuel attach b k c h = rw (le→leb _ _ h)

-- The loop ends, whatever the CRC, with the least number of blocks of at most `k` payload bits.
pub block_count_lem : (attach : Bool) (b k : ℕ) → 0 < k → block_count attach b k ≡ ok (count_of b k)
unfolding block_count
block_count_lem attach b k hk = elim (Bool-cases (ltb k b)) [
  | inl many ↦
      let pos : 0 < b = ground arith in
      let fits : info_bits attach b (div_up b k) ≤ k =
        rw (info_bits-div_up attach b (div_up b k) (div_up-pos b k pos hk))
          (div_up-div_up b k pos hk) in
      rw many (refine_count_now 9999 attach b k (div_up b k) fits)
  | inr one ↦ rw one
]

pub count_of-pos : (b k : ℕ) → 0 < k → 0 < count_of b k
count_of-pos b k hk = ground (arith, div_up-pos b k)
