-- ===== src/Educational/ShortLdpc/Correction.antt =====
-- The short code corrects a wrong information bit: every word of bits is run through the code.
use mathlib.Core.Path.{subst}
use gunnchos_gpu_nr_baseband.Base.{
  ℕ, zero, suc, ◌+◌, ◌<◌, ◌≡◌, refl, sym, ap, ◌∙◌, arith, Bool, true, ◌&&◌, List, ◌++◌, ◌==◌,
  length, get_or, take, replicate, All, Bool-cases, inl, inr, ==_iff, ◌⊎◌, ok, require-eq-ok,
  >>-eq-ok, length-set, length-append, length-take, get_or-set_ne, get_or-take, get_or-append_left,
  get_or_ext,
}
use gunnchos_gpu_nr_baseband.Base.Enumerate.{
  every_word, every_word_lem, each, each_lem, same_bits, same_bits-eq, both_true,
}
use gunnchos_gpu_nr_baseband.Base.Int.{pos}
use gunnchos_gpu_nr_baseband.Base.Double.{Double}
use gunnchos_gpu_nr_baseband.Parity.Rows.{IsBit}
use gunnchos_gpu_nr_baseband.Educational.ShortLdpc.{
  ShortLdpcParams, require_params, write_parity, encode_impl, syndrome_ok, ldpc_encode, ldpc_decode,
  hard_bits, flip, votes_of, find_best, flip_loop,
}

abbrev pub word_of : List ℕ → List ℕ
word_of info = write_parity 8 0 (info ++ replicate 8 0)

-- The word passes the test, and one round corrects each wrong information bit of it.
abbrev corrects : List ℕ → Bool
corrects word = syndrome_ok word && each 8 (λ i. same_bits (flip_loop 1 (flip word i)) word)

every_corrects : every_word 8 (λ info. corrects (word_of info)) ≡ true
every_corrects = refl

-- A word that passes the test is left alone.
flip_loop-stable : (n : ℕ) (word : List ℕ) → syndrome_ok word ≡ true → flip_loop n word ≡ word
flip_loop-stable zero word fine = refl
flip_loop-stable (suc n) word fine = rw fine refl

-- Where one round gives a word that passes the test, any more rounds give the same.
flip_loop_more :
    (n : ℕ) (hard word : List ℕ)
    → flip_loop 1 hard ≡ word
    → syndrome_ok word ≡ true
    → flip_loop (suc n) hard ≡ word
flip_loop_more n hard word once fine = elim (Bool-cases (syndrome_ok hard)) [
  | inl t ↦ let same : hard ≡ word = rw t at once in rw t same
  | inr t ↦ elim (Bool-cases (get_or (votes_of hard) (find_best (votes_of hard) 15 1 0) 0 == 0)) [
    | inl t2 ↦ let same : hard ≡ word = rw (t, t2) at once in rw (t, t2) same
    | inr t2 ↦
        let same : flip hard (find_best (votes_of hard) 15 1 0) ≡ word = rw (t, t2) at once in
        rw (t, t2) (ap (flip_loop n) same ∙ flip_loop-stable n word fine)
  ]
]

word_lem :
    (info : List ℕ)
    → length info ≡ 8
    → All IsBit info
    → (syndrome_ok (word_of info) ≡ true)
      × ((i : ℕ) → i < 8 → flip_loop 1 (flip (word_of info) i) ≡ word_of info)
word_lem info size bits =
    let good = every_word_lem 8 (λ v. corrects (word_of v)) info every_corrects size bits in
    let (fine, fixed) = both_true _ _ good in
    (
      fine,
      λ i p. same_bits-eq _ _ (
          each_lem 8 (λ j. same_bits (flip_loop 1 (flip (word_of info) j)) (word_of info)) i fixed
            p),
    )

-- The encoder leaves the information bits where they are.
write_parity-front :
    (left r : ℕ) (cw : List ℕ) (j : ℕ) → j < 8 → get_or (write_parity left r cw) j 0 ≡ get_or cw j 0
write_parity-front zero r cw j p = refl
write_parity-front (suc left) r cw j p =
    write_parity-front left (suc r) _ j p ∙ get_or-set_ne cw (8 + r) j _ 0 (λ e. omega arith)

write_parity-length : (left r : ℕ) (cw : List ℕ) → length (write_parity left r cw) ≡ length cw
write_parity-length zero r cw = refl
write_parity-length (suc left) r cw = write_parity-length left (suc r) _ ∙ length-set cw (8 + r) _

take_word : (info : List ℕ) → length info ≡ 8 → take 8 (word_of info) ≡ info
take_word info size =
    let blank : List ℕ = replicate 8 0 in
    let long : length (word_of info) ≡ 16 =
      write_parity-length 8 0 (info ++ blank) ∙ length-append info blank ∙ omega arith in
    get_or_ext _ _ 0 (omega (arith, length-take 8 (word_of info))) (λ j p.
      let below : j < 8 = omega (arith, length-take 8 (word_of info)) in
      get_or-take 8 (word_of info) j 0 below
      ∙ write_parity-front 8 0 (info ++ blank) j below
      ∙ get_or-append_left info blank j 0 (omega arith))

encode_impl-word_of :
    (info word : List ℕ) → encode_impl info ≡ ok word → (length info ≡ 8) × (word_of info ≡ word)
unfolding encode_impl
encode_impl-word_of info word e =
    let (test, made) = require-eq-ok (length info == 8) "info length must be k=8" _ e in
    let same : word_of info ≡ word = cc in ((==_iff (length info) 8).0 test, same)

-- The signs are those of the word, or one of its information bits is wrong.
abbrev pub NearWord : List ℕ → List ℕ → Type 0
NearWord hard word = (hard ≡ word) ⊎ ((i : ℕ) × (i < 8) × (hard ≡ flip word i))

-- The short code corrects one wrong information bit: where the hard decisions on sixteen soft values are a
-- word that the encoder returned for bits, or differ from it in one information bit, the decoder returns
-- the information bits, for every number of iterations from 1 on; and the word passes the syndrome test.
pub short_corrects {ℓ} :
    {W : Type ℓ} ⦃d : Double W⦄ (llr : List W) (info word : List ℕ) (p : ShortLdpcParams) (n : ℕ)
    → p.max_iter ≡ pos (suc n)
    → ldpc_encode info p ≡ ok word
    → All IsBit info
    → length llr ≡ 16
    → NearWord (hard_bits llr) word
    → (syndrome_ok word ≡ true) × (ldpc_decode llr p ≡ ok info)
unfolding ldpc_encode ldpc_decode
short_corrects {W} ⦃d⦄ llr info word p n rounds e bits long near =
    let (params, e1) = >>-eq-ok (require_params p) _ e in
    let (size, same) = encode_impl-word_of info word e1 in
    let (fine, fixed) = word_lem info size bits in
    let test : (length llr == 16) ≡ true = (==_iff (length llr) 16).1 long in
    let done : flip_loop (suc n) (hard_bits llr) ≡ word_of info = elim near [
      | inl exact ↦
          ap (flip_loop (suc n)) (exact ∙ sym same) ∙ flip_loop-stable (suc n) (word_of info) fine
      | inr (i, below, wrong) ↦
          flip_loop_more n (hard_bits llr) (word_of info)
            (ap (flip_loop 1) (wrong ∙ ap (λ (w : List ℕ). flip w i) (sym same)) ∙ fixed i below)
            fine
    ] in
    (
      subst (λ (w : List ℕ). syndrome_ok w ≡ true) same fine,
      rw (params, test, rounds)
          (ap (λ (w : List ℕ). ok (take 8 w)) done ∙ ap ok (take_word info size)),
    )
