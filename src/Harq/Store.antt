-- ===== src/Harq/Store.antt =====
-- The buffer as a map from process ids to processes.
use gunnchos_gpu_nr_baseband.Base.{
  ℕ, ◌≡◌, refl, ap, ◌∙◌, arith, true, false, ==_iff, [], ◌∷◌, Option, none, some, if◌then◌else◌,
  ◌==◌, All, Bool-cases, inl, inr,
}
use gunnchos_gpu_nr_baseband.Harq.{
  HarqProcess, HarqBuffer, find, assign, erase, soft_bits, get, clear,
}

module _ {ℓ} {W : Type ℓ} where
  -- The entry has another key.
  abbrev pub IsOther : ℕ → ℕ × HarqProcess W → Type 0
  IsOther id entry = (entry.0 == id) ≡ false

  -- No key stands twice.
  abbrev pub IsMap : HarqBuffer W → Type 0
  IsMap [] = Unit
  IsMap ((key, p) ∷ procs) = All (IsOther key) procs × IsMap procs

  -- One entry of a map changed.
  abbrev pub updated :
      (ℕ → Option (HarqProcess W)) → ℕ → Option (HarqProcess W) → ℕ → Option (HarqProcess W)
  updated old id p q = if q == id then p else old q

  pub find-assign :
      (procs : HarqBuffer W) (id : ℕ) (p : HarqProcess W) (q : ℕ)
      → find (assign procs id p) q ≡ updated (find procs) id (some p) q
  find-assign [] id p q = ground arith
  find-assign ((key, old) ∷ procs) id p q = ground (arith, find-assign procs id p q)

  pub find-assign_self :
      (procs : HarqBuffer W) (id : ℕ) (p : HarqProcess W) → find (assign procs id p) id ≡ some p
  find-assign_self procs id p =
      let same : (id == id) ≡ true = (==_iff id id).1 refl in
      find-assign procs id p id ∙ rw same refl

  assign-IsOther :
      (procs : HarqBuffer W) (id : ℕ) (p : HarqProcess W) (key : ℕ)
      → (id == key) ≡ false
      → All (IsOther key) procs
      → All (IsOther key) (assign procs id p)
  assign-IsOther [] id p key e h = (e, tt)
  assign-IsOther ((k, old) ∷ procs) id p key e h = elim (Bool-cases (k == id)) [
    | inl same ↦ rw same (h.0, h.1)
    | inr apart ↦ rw apart (h.0, assign-IsOther procs id p key e h.1)
  ]

  pub assign-IsMap :
      (procs : HarqBuffer W) (id : ℕ) (p : HarqProcess W) → IsMap procs → IsMap (assign procs id p)
  assign-IsMap [] id p h = (tt, tt)
  assign-IsMap ((k, old) ∷ procs) id p h = elim (Bool-cases (k == id)) [
    | inl same ↦ rw same (h.0, h.1)
    | inr apart ↦
        let turned : (id == k) ≡ false = ground arith in
        rw apart (assign-IsOther procs id p k turned h.0, assign-IsMap procs id p h.1)
  ]

  find_other : (procs : HarqBuffer W) (id : ℕ) → All (IsOther id) procs → find procs id ≡ none
  find_other [] id h = refl
  find_other ((k, p) ∷ procs) id h = rw h.0 (find_other procs id h.1)

  find-erase :
      (procs : HarqBuffer W) (id q : ℕ)
      → IsMap procs
      → find (erase procs id) q ≡ updated (find procs) id none q
  find-erase [] id q h = ground arith
  find-erase ((k, p) ∷ procs) id q h =
      ground (arith, find-erase procs id q h.1, find_other procs k h.0)

  erase-IsOther :
      (procs : HarqBuffer W) (id key : ℕ)
      → All (IsOther key) procs
      → All (IsOther key) (erase procs id)
  erase-IsOther [] id key h = tt
  erase-IsOther ((k, p) ∷ procs) id key h = elim (Bool-cases (k == id)) [
    | inl same ↦ rw same h.1
    | inr apart ↦ rw apart (h.0, erase-IsOther procs id key h.1)
  ]

  erase-IsMap : (procs : HarqBuffer W) (id : ℕ) → IsMap procs → IsMap (erase procs id)
  erase-IsMap [] id h = tt
  erase-IsMap ((k, p) ∷ procs) id h = elim (Bool-cases (k == id)) [
    | inl same ↦ rw same h.1
    | inr apart ↦ rw apart (erase-IsOther procs id k h.0, erase-IsMap procs id h.1)
  ]

  -- `clear` keeps a map a map and takes out the one process: what is stored for every other id stays.
  clear_refines :
      (procs : HarqBuffer W) (id : ℕ)
      → IsMap procs
      → IsMap (clear procs id)
        × ((q : ℕ) → get (clear procs id) q ≡ (if q == id then none else get procs q))
  unfolding clear get
  clear_refines procs id h =
      (erase-IsMap procs id h, λ q. ap soft_bits (find-erase procs id q h) ∙ ground arith)
