-- ===== src/Harq.antt =====
-- src/harq.cpp and include/nr_bb/harq.hpp: the soft bits of each process. The map is a list of keys and
-- processes, in which a key stands once.
mod Store
mod Combining
mod Rules
mod Examples
use gunnchos_gpu_nr_baseband.Base.{
  ℕ, suc, ◌+◌, Bool, true, false, not, List, [], ◌∷◌, Option, none, some, if◌then◌else◌, ◌==◌,
  length, Result, ok, throw, ◌>>=◌, ◌>>◌, require,
}
use gunnchos_gpu_nr_baseband.Base.Int.{ℤ}
use gunnchos_gpu_nr_baseband.Base.Double.{Double}
use gunnchos_gpu_nr_baseband.Ldpc.{eq_int}
use gunnchos_gpu_nr_baseband.Llr.{llr_combine}

pub record HarqProcess {ℓ} (W : Type ℓ) : Type ℓ where
  pub process_id : ℕ
  pub ndi : ℤ
  pub soft_buffer : List W
  pub rv : ℤ
  pub tx_count : ℕ

-- `procs_`
abbrev pub HarqBuffer {ℓ} : Type ℓ → Type ℓ
HarqBuffer W = List (ℕ × HarqProcess W)

module _ {ℓ} {W : Type ℓ} where
  -- `procs_.find(process_id)`
  abbrev pub find : HarqBuffer W → ℕ → Option (HarqProcess W)
  find [] id = none
  find ((key, p) ∷ procs) id = if key == id then some p else find procs id

  -- `procs_[process_id] = p`
  abbrev pub assign : HarqBuffer W → ℕ → HarqProcess W → HarqBuffer W
  assign [] id p = (id, p) ∷ []
  assign ((key, q) ∷ procs) id p =
      let rest = assign procs id p in if key == id then (key, p) ∷ procs else (key, q) ∷ rest

  -- `procs_.erase(process_id)`
  abbrev pub erase : HarqBuffer W → ℕ → HarqBuffer W
  erase [] id = []
  erase ((key, p) ∷ procs) id =
      let rest = erase procs id in if key == id then procs else (key, p) ∷ rest

  abbrev pub soft_bits : Option (HarqProcess W) → Option (List W)
  soft_bits none = none
  soft_bits (some p) = some p.soft_buffer

  unfoldable pub get : HarqBuffer W → ℕ → Option (List W)
  get procs id = soft_bits (find procs id)

  unfoldable pub clear : HarqBuffer W → ℕ → HarqBuffer W
  clear procs id = erase procs id

  unfoldable pub size : HarqBuffer W → ℕ
  size procs = length procs

  abbrev pub fresh : ℕ → ℤ → List W → ℤ → HarqProcess W
  fresh id ndi llr rv = record {
    process_id = id;
    ndi = ndi;
    soft_buffer = llr;
    rv = rv;
    tx_count = 1;
  }

module _ {ℓ} {W : Type ℓ} ⦃d : Double W⦄ where
  -- A retransmission to a process.
  abbrev pub combine : HarqProcess W → List W → ℤ → Result (HarqProcess W)
  combine p llr rv = do
    require (length p.soft_buffer == length llr) "HARQ LLR size mismatch"
    sum ← llr_combine p.soft_buffer llr
    ok (record p { soft_buffer = sum; rv = rv; tx_count = p.tx_count + 1 })

  -- The process after an upsert, from what was stored.
  abbrev pub received : Option (HarqProcess W) → ℕ → ℤ → List W → ℤ → Result (HarqProcess W)
  received none id ndi llr rv = ok (fresh id ndi llr rv)
  received (some p) id ndi llr rv =
      let again = combine p llr rv in
      if not (eq_int p.ndi ndi) then ok (fresh id ndi llr rv) else again

  -- `upsert`: an exception leaves the buffer as it was.
  unfoldable pub upsert : HarqBuffer W → ℕ → ℤ → List W → ℤ → Result (HarqBuffer W)
  upsert procs id ndi llr rv = do p ← received (find procs id) id ndi llr rv; ok (assign procs id p)
