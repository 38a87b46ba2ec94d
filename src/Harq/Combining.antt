-- ===== src/Harq/Combining.antt =====
-- A block that `HarqBuffer` receives again and again.
use gunnchos_gpu_nr_baseband.Base.{
  ℕ, suc, ◌+◌, ◌≡◌, ◌≢◌, inl, inr, Bool-cases, refl, sym, ap, ◌∙◌, arith, true, false, List, [],
  ◌∷◌, Option, none, some, ◌==◌, ==_iff, length, All, Result, ok, ◌>>=◌,
}
use gunnchos_gpu_nr_baseband.Base.Int.{ℤ, pos, negsuc}
use gunnchos_gpu_nr_baseband.Base.Double.{Double}
use gunnchos_gpu_nr_baseband.Ldpc.{eq_int}
use gunnchos_gpu_nr_baseband.Llr.{add_each, llr_combine, length-add_each}
use gunnchos_gpu_nr_baseband.Harq.{
  HarqProcess, HarqBuffer, find, assign, received, get, soft_bits, upsert,
}
use gunnchos_gpu_nr_baseband.Harq.Store.{find-assign_self}

pub eq_int_refl : (x : ℤ) → eq_int x x ≡ true
eq_int_refl (pos n) = (==_iff n n).1 refl
eq_int_refl (negsuc n) = (==_iff n n).1 refl

pub eq_int-eq : (x y : ℤ) → eq_int x y ≡ true → x ≡ y
eq_int-eq (pos a) (pos b) e = ap pos ((==_iff a b).0 e)
eq_int-eq (negsuc a) (negsuc b) e = ap negsuc ((==_iff a b).0 e)
eq_int-eq (pos a) (negsuc b) e = cc
eq_int-eq (negsuc a) (pos b) e = cc

pub eq_int_ne : (x y : ℤ) → x ≢ y → eq_int x y ≡ false
eq_int_ne x y h = elim (Bool-cases (eq_int x y)) [
  | inl same ↦ absurd (h (eq_int-eq x y same))
  | inr apart ↦ apart
]

module _ {ℓ} {W : Type ℓ} ⦃d : Double W⦄ (id : ℕ) (ndi : ℤ) where
  -- The upserts of several blocks, each with its redundancy version.
  abbrev pub receive : HarqBuffer W → List (ℤ × List W) → Result (HarqBuffer W)
  receive procs [] = ok procs
  receive procs ((rv, llr) ∷ more) = upsert procs id ndi llr rv >>= λ after. receive after more

  abbrev pub added : List W → List (ℤ × List W) → List W
  added sum [] = sum
  added sum ((rv, llr) ∷ more) = added (add_each sum llr) more

  abbrev pub last_rv : ℤ → List (ℤ × List W) → ℤ
  last_rv rv [] = rv
  last_rv rv ((next, llr) ∷ more) = last_rv next more

  -- The process after `n` blocks, the last of them with version `rv`.
  abbrev pub summed : List W → ℤ → ℕ → HarqProcess W
  summed sum rv n = record { process_id = id; ndi = ndi; soft_buffer = sum; rv = rv; tx_count = n }

  combine-summed :
      (sum llr : List W) (rv next : ℤ) (n : ℕ)
      → length sum ≡ length llr
      → received (some (summed sum rv n)) id ndi llr next
        ≡ ok (summed (add_each sum llr) next (n + 1))
  unfolding llr_combine
  combine-summed sum llr rv next n e =
      let same : (length sum == length llr) ≡ true = (==_iff _ _).1 e in
      rw (eq_int_refl ndi, same) refl

  receive-summed :
      (procs : HarqBuffer W) (sum : List W) (rv : ℤ) (n m : ℕ) (more : List (ℤ × List W))
      → find procs id ≡ some (summed sum rv n)
      → length sum ≡ m
      → All (λ block. length block.1 ≡ m) more
      → (after : HarqBuffer W) × (receive procs more ≡ ok after)
        × (find after id ≡ some (summed (added sum more) (last_rv rv more) (n + length more)))
  unfolding upsert
  receive-summed procs sum rv n m [] stored size sizes =
      let all : n ≡ n + 0 = omega arith in
      (procs, refl, stored ∙ ap (λ (t : ℕ). some (summed sum rv t)) all)
  receive-summed procs sum rv n m ((next_rv, llr) ∷ more) stored size sizes =
      let next : HarqProcess W = summed (add_each sum llr) next_rv (n + 1) in
      let equal : length sum ≡ length llr = size ∙ sym sizes.0 in
      let made : received (find procs id) id ndi llr next_rv ≡ ok next =
        ap (λ p. received p id ndi llr next_rv) stored
        ∙ combine-summed sum llr rv next_rv n equal in
      let (after, run, end) =
        receive-summed (assign procs id next) (add_each sum llr) next_rv (n + 1) m more
          (find-assign_self procs id next) (length-add_each sum llr equal ∙ sizes.0) sizes.1 in
      let count : n + 1 + length more ≡ n + suc (length more) = omega arith in
      (
        after,
        rw made run,
        end
            ∙ ap (λ (t : ℕ). some (summed (added (add_each sum llr) more) (last_rv next_rv more) t))
                count,
      )

  -- The id has no process yet, or one of another indicator.
  abbrev pub IsNew : Option (HarqProcess W) → Type 0
  IsNew none = Unit
  IsNew (some p) = p.ndi ≢ ndi

  received_new :
      (old : Option (HarqProcess W)) (llr : List W) (rv : ℤ)
      → IsNew old
      → received old id ndi llr rv ≡ ok (summed llr rv 1)
  received_new none llr rv h = refl
  received_new (some p) llr rv h = rw (eq_int_ne p.ndi ndi h) refl

  -- After a block and its retransmissions, all of one length and with an indicator that is new to the
  -- process, and each with a redundancy version of its own, the buffer has the sum of their soft bits, in
  -- the order of their coming; it counts them, and keeps the version of the last.
  pub receive-added :
      (procs : HarqBuffer W) (rv : ℤ) (llr : List W) (more : List (ℤ × List W))
      → IsNew (find procs id)
      → All (λ block. length block.1 ≡ length llr) more
      → (after : HarqBuffer W) × (receive procs ((rv, llr) ∷ more) ≡ ok after)
        × (get after id ≡ some (added llr more))
        × (find after id ≡ some (summed (added llr more) (last_rv rv more) (1 + length more)))
  unfolding upsert get
  receive-added procs rv llr more new sizes =
      let first : HarqProcess W = summed llr rv 1 in
      let (after, run, end) =
        receive-summed (assign procs id first) llr rv 1 (length llr) more
          (find-assign_self procs id first) refl sizes in
      (after, rw (received_new (find procs id) llr rv new) run, ap soft_bits end, end)
