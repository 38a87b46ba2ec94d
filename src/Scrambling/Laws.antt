-- ===== src/Scrambling/Laws.antt =====
-- Scrambling twice with one seed, and the refusals.
use gunnchos_gpu_nr_baseband.Base.{
  ℕ, zero, suc, ◌+◌, ◌%◌, ◌≤◌, ◌<◌, ◌≡◌, refl, sym, ap, ap₂, ◌∙◌, arith, bit_xor, List, [], ◌∷◌,
  ◌++◌, length, drop, get_or, get_or-tabulate, All, All-append, All-drop, All-get_or,
  All-tabulate_from, length-tabulate_from, ok, throw, ◌>>>◌,
}
use gunnchos_gpu_nr_baseband.Base.Bits.{bit_xor_undo, bit_xor-lt}
use gunnchos_gpu_nr_baseband.Scrambling.{gold_sequence, scramble_from, scramble, descramble}
use gunnchos_gpu_nr_baseband.Scrambling.Shift.{
  feed1, feed2, start1, start2, register, gold_sequence-register,
}

abbrev pub IsBit : ℕ → Type 0
IsBit b = b < 2

-- The bits masked by the sequence, with no check.
abbrev pub masked : ℕ → List ℕ → List ℕ → List ℕ
masked i c [] = []
masked i c (b ∷ bits) = bit_xor b (get_or c i 0) ∷ masked (i + 1) c bits

scramble_from-masked :
    (i : ℕ) (c bits : List ℕ) → All IsBit bits → scramble_from i c bits ≡ ok (masked i c bits)
unfolding scramble_from
scramble_from-masked i c [] h = refl
scramble_from-masked i c (b ∷ bits) h = ground (arith, scramble_from-masked (i + 1) c bits h.1)

length-masked : (i : ℕ) (c bits : List ℕ) → length (masked i c bits) ≡ length bits
length-masked i c [] = refl
length-masked i c (b ∷ bits) = ap suc (length-masked (i + 1) c bits)

masked_twice : (i : ℕ) (c bits : List ℕ) → masked i c (masked i c bits) ≡ bits
masked_twice i c [] = refl
masked_twice i c (b ∷ bits) = ap₂ ◌∷◌ (bit_xor_undo b (get_or c i 0)) (masked_twice (i + 1) c bits)

masked-IsBit :
    (i : ℕ) (c bits : List ℕ) → All IsBit c → All IsBit bits → All IsBit (masked i c bits)
masked-IsBit i c [] hc h = tt
masked-IsBit i c (b ∷ bits) hc h = (
  bit_xor-lt 1 b (get_or c i 0) h.0 (All-get_or IsBit c i 0 hc (omega arith)),
  masked-IsBit (i + 1) c bits hc h.1,
)

-- A register of bits whose feedback is a bit stays one.
register-IsBit :
    (feed : List ℕ → ℕ) (start : List ℕ)
    → ((w : List ℕ) → All IsBit w → feed w < 2)
    → All IsBit start
    → (n : ℕ) → All IsBit (register feed start n)
register-IsBit feed start f h zero = h
register-IsBit feed start f h (suc n) =
    let before = register-IsBit feed start f h n in
    All-append IsBit (drop 1 (register feed start n)) _ (All-drop IsBit 1 _ before)
      (f (register feed start n) before, tt)

tap : (w : List ℕ) (i : ℕ) → All IsBit w → get_or w i 0 < 2
tap w i h = All-get_or IsBit w i 0 h (omega arith)

feed1-IsBit : (w : List ℕ) → All IsBit w → feed1 w < 2
feed1-IsBit w h = bit_xor-lt 1 _ _ (tap w 3 h) (tap w 0 h)

feed2-IsBit : (w : List ℕ) → All IsBit w → feed2 w < 2
feed2-IsBit w h =
    bit_xor-lt 1 _ _ (bit_xor-lt 1 _ _ (bit_xor-lt 1 _ _ (tap w 3 h) (tap w 2 h)) (tap w 1 h))
      (tap w 0 h)

start2-IsBit : (c_init : ℕ) → All IsBit (start2 c_init)
start2-IsBit c_init = All-tabulate_from IsBit 0 31 (λ i. (c_init >>> i) % 2) (λ i. omega arith)

pub length-gold_sequence : (len c_init : ℕ) → length (gold_sequence len c_init) ≡ len
length-gold_sequence len c_init =
    ap length (gold_sequence-register len c_init) ∙ length-tabulate_from 0 len _

pub gold_sequence-IsBit : (len c_init : ℕ) → All IsBit (gold_sequence len c_init)
gold_sequence-IsBit len c_init = rw (gold_sequence-register len c_init) (
    All-tabulate_from IsBit 0 len _ λ j.
      bit_xor-lt 1 _ _ (tap _ 0 (register-IsBit feed1 start1 feed1-IsBit (omega arith) (j + 1600)))
        (tap _ 0
          (register-IsBit feed2 (start2 c_init) feed2-IsBit (start2-IsBit c_init) (j + 1600))))

-- Any block of bits can be scrambled with any seed. The result is as many bits, and descrambling it
-- with the same seed gives the block back.
pub descramble-scramble :
    (bits : List ℕ) (c_init : ℕ)
    → All IsBit bits
    → (out : List ℕ) × (scramble bits c_init ≡ ok out)
      × (length out ≡ length bits)
      × All IsBit out
      × (descramble out c_init ≡ ok bits)
unfolding scramble descramble
descramble-scramble bits c_init h =
    let c = gold_sequence (length bits) c_init in
    let out = masked 0 c bits in
    let same : length out ≡ length bits = length-masked 0 c bits in
    let fine = masked-IsBit 0 c bits (gold_sequence-IsBit (length bits) c_init) h in
    (
      out,
      scramble_from-masked 0 c bits h,
      same,
      fine,
      ap (λ n. scramble_from 0 (gold_sequence n c_init) out) same
          ∙ scramble_from-masked 0 c out fine
          ∙ ap ok (masked_twice 0 c bits),
    )

scramble_from_throws :
    (i : ℕ) (c pre post : List ℕ) (x : ℕ)
    → All IsBit pre
    → 2 ≤ x
    → scramble_from i c (pre ++ (x ∷ post)) ≡ throw "scramble bits must be 0/1"
unfolding scramble_from
scramble_from_throws i c [] post x h big = ground arith
scramble_from_throws i c (y ∷ pre) post x h big =
    ground (arith, scramble_from_throws (i + 1) c pre post x h.1 big)

-- A value other than 0 and 1 is refused with an exception, wherever it stands.
scramble_refuses :
    (pre post : List ℕ) (x c_init : ℕ)
    → All IsBit pre
    → 2 ≤ x
    → scramble (pre ++ (x ∷ post)) c_init ≡ throw "scramble bits must be 0/1"
unfolding scramble
scramble_refuses pre post x c_init h big = scramble_from_throws 0 _ pre post x h big

-- Two sequences of one seed agree as far as the shorter one goes.
gold_sequence_prefix :
    (len more c_init i : ℕ)
    → i < len
    → get_or (gold_sequence (len + more) c_init) i 0 ≡ get_or (gold_sequence len c_init) i 0
gold_sequence_prefix len more c_init i h =
    rw (gold_sequence-register (len + more) c_init, gold_sequence-register len c_init)
      (get_or-tabulate (len + more) _ i 0 (omega arith) ∙ sym (get_or-tabulate len _ i 0 h))
