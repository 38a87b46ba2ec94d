-- ===== src/Harq/Rules.antt =====
-- What `upsert` promises, without its steps: the rules of the source's interface for a new block, for a
-- retransmission, and for one that does not fit.
use gunnchos_gpu_nr_baseband.Base.{
  ℕ, zero, suc, ◌+◌, ◌<◌, ◌≡◌, ◌≢◌, refl, ap, ◌∙◌, arith, true, false, List, [], ◌∷◌, Option, none,
  some, ◌==◌, Bool-cases, Same-cases, inl, inr, length, get_or, Result, ok, throw,
}
use gunnchos_gpu_nr_baseband.Base.Int.{ℤ}
use gunnchos_gpu_nr_baseband.Base.Double.{Double}
use gunnchos_gpu_nr_baseband.Ldpc.{eq_int}
use gunnchos_gpu_nr_baseband.Llr.{add_each, llr_combine, length-add_each}
use gunnchos_gpu_nr_baseband.Harq.{HarqProcess, HarqBuffer, find, assign, combine, received, upsert}
use gunnchos_gpu_nr_baseband.Harq.Store.{IsMap, find-assign, find-assign_self, assign-IsMap}
use gunnchos_gpu_nr_baseband.Harq.Combining.{IsNew, eq_int_refl, eq_int-eq}

module _ {ℓ} {W : Type ℓ} ⦃d : Double W⦄ where
  -- Place by place the sum of two blocks of one length.
  pub record IsSum (a b sum : List W) : Type ℓ where
    pub fits : length a ≡ length b
    pub size : length sum ≡ length b
    pub place :
        (i : ℕ) (o : W) → i < length b → get_or sum i o ≡ d.add (get_or a i o) (get_or b i o)

  add_each-IsSum : (a b : List W) → length a ≡ length b → IsSum a b (add_each a b)
  add_each-IsSum a b e = record { fits = e; size = length-add_each a b e; place = at_place a b e }
    where
      at_place :
          (a b : List W)
          → length a ≡ length b
          → (i : ℕ) (o : W) → i < length b
          → get_or (add_each a b) i o ≡ d.add (get_or a i o) (get_or b i o)
      at_place [] [] e i o p = absurd (omega arith)
      at_place [] (y ∷ b) e i o p = absurd (omega arith)
      at_place (x ∷ a) [] e i o p = absurd (omega arith)
      at_place (x ∷ a) (y ∷ b) e zero o p = refl
      at_place (x ∷ a) (y ∷ b) e (suc i) o p = at_place a b (omega arith) i o (omega arith)

module _ {ℓ} {W : Type ℓ} (procs : HarqBuffer W) (id : ℕ) where
  -- `after` is a map that has `p` for the id, and for every other id what `procs` has.
  pub record HasStored (p : HarqProcess W) (after : HarqBuffer W) : Type ℓ where
    pub map : IsMap after
    pub here : find after id ≡ some p
    pub others : (q : ℕ) → q ≢ id → find after q ≡ find procs q

  assign-HasStored : (p : HarqProcess W) → IsMap procs → HasStored p (assign procs id p)
  assign-HasStored p h = record {
    map = assign-IsMap procs id p h;
    here = find-assign_self procs id p;
    others = λ q e. elim (Same-cases q id) [
      | inl (_, same) ↦ absurd (e same)
      | inr (t, _) ↦ find-assign procs id p q ∙ rw t refl
    ];
  }

module _ {ℓ} {W : Type ℓ} ⦃d : Double W⦄ (procs : HarqBuffer W) (id : ℕ) (ndi : ℤ) (llr : List W)
    (rv : ℤ) where
  -- The outcome of an upsert, by what is stored for the id: nothing or a process of another indicator, and
  -- the block is the first of a new process; a process of this indicator, and the block is added to it and
  -- counted; or such a process with another number of soft bits, and the block is refused.
  pub data IsUpserted (r : Result (HarqBuffer W)) : Type ℓ where
    first :
        (after : HarqBuffer W)
        → IsNew id ndi (find procs id)
        → HasStored procs id
            (record { process_id = id; ndi = ndi; soft_buffer = llr; rv = rv; tx_count = 1 })
            after
        → r ≡ ok after
        → IsUpserted r
    again :
        (p : HarqProcess W) (sum : List W) (after : HarqBuffer W)
        → find procs id ≡ some p
        → p.ndi ≡ ndi
        → IsSum p.soft_buffer llr sum
        → HasStored procs id
            (record {
              process_id = p.process_id;
              ndi = ndi;
              soft_buffer = sum;
              rv = rv;
              tx_count = suc p.tx_count;
            })
            after
        → r ≡ ok after
        → IsUpserted r
    refused :
        (p : HarqProcess W)
        → find procs id ≡ some p
        → p.ndi ≡ ndi
        → length p.soft_buffer ≢ length llr
        → r ≡ throw "HARQ LLR size mismatch"
        → IsUpserted r

  upsert-stored :
      (p : HarqProcess W)
      → received (find procs id) id ndi llr rv ≡ ok p
      → upsert procs id ndi llr rv ≡ ok (assign procs id p)
  unfolding upsert
  upsert-stored p made = rw made refl

  upsert-thrown :
      received (find procs id) id ndi llr rv ≡ throw "HARQ LLR size mismatch"
      → upsert procs id ndi llr rv ≡ throw "HARQ LLR size mismatch"
  unfolding upsert
  upsert-thrown failed = rw failed refl

  received_again :
      (p : HarqProcess W)
      → eq_int p.ndi ndi ≡ true
      → received (some p) id ndi llr rv ≡ combine p llr rv
  received_again p t = rw t refl

  combine_fits :
      (p : HarqProcess W)
      → p.ndi ≡ ndi
      → (length p.soft_buffer == length llr) ≡ true
      → combine p llr rv
        ≡ ok (record {
          process_id = p.process_id;
          ndi = ndi;
          soft_buffer = add_each p.soft_buffer llr;
          rv = rv;
          tx_count = suc p.tx_count;
        })
  unfolding llr_combine
  combine_fits p known t =
      let next : p.tx_count + 1 ≡ suc p.tx_count = omega arith in rw (t, known, next) refl

  -- On a map, an upsert ends in one of three ways, by what is stored for the id. Without a process, or with
  -- one of another indicator, the block is stored as the first of a new process. With a process of the
  -- same indicator and of as many soft bits, these are added place by place, and the block is counted. In
  -- both cases what is stored for every other id stays, and the buffer stays a map. With a process of the
  -- same indicator and another number of soft bits the block is refused by an exception.
  pub upsert_refines : IsMap procs → IsUpserted (upsert procs id ndi llr rv)
  upsert_refines h = go (find procs id) refl
    where
      stores : (p : HarqProcess W) → HasStored procs id p (assign procs id p)
      stores p = assign-HasStored procs id p h

      differs : (p : HarqProcess W) → eq_int p.ndi ndi ≡ false → p.ndi ≢ ndi
      differs p apart same =
          let t : eq_int p.ndi ndi ≡ true = ap (λ x. eq_int x ndi) same ∙ eq_int_refl ndi in cc

      go :
          (old : Option (HarqProcess W))
          → find procs id ≡ old
          → IsUpserted (upsert procs id ndi llr rv)
      go none e =
          first _ (rw e tt) (stores _) (upsert-stored _ (ap (λ o. received o id ndi llr rv) e))
      go (some p) e = elim (Bool-cases (eq_int p.ndi ndi)) [
        | inr apart ↦
            let new : p.ndi ≢ ndi = λ same. differs p apart same in
            first _ (rw e new) (stores _)
              (upsert-stored _ (ap (λ o. received o id ndi llr rv) e ∙ rw apart refl))
        | inl same ↦
            let known : p.ndi ≡ ndi = eq_int-eq p.ndi ndi same in
            let made = ap (λ o. received o id ndi llr rv) e ∙ received_again p same in
            elim (Same-cases (length p.soft_buffer) (length llr)) [
              | inl (t, size) ↦
                  again p (add_each p.soft_buffer llr) _ e known
                    (add_each-IsSum p.soft_buffer llr size) (stores _)
                    (upsert-stored _ (made ∙ combine_fits p known t))
              | inr (t, size) ↦ refused p e known size (upsert-thrown (made ∙ rw t refl))
            ]
      ]
