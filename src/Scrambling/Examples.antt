-- ===== src/Scrambling/Examples.antt =====
-- The scrambler at concrete blocks.
use gunnchos_gpu_nr_baseband.Base.{
  ℕ, ◌+◌, ◌≡◌, refl, arith, bit_xor, List, [], ◌∷◌, length, get_or, tabulate, All, ok,
}
use gunnchos_gpu_nr_baseband.Scrambling.{gold_loop, load_init, gold_sequence, scramble, descramble}
use gunnchos_gpu_nr_baseband.Scrambling.Shift.{
  feed1, feed2, start1, start2, output, gold_sequence-register,
}
use gunnchos_gpu_nr_baseband.Scrambling.Laws.{IsBit, descramble-scramble}

abbrev bits : List ℕ
bits = 1 ∷ 0 ∷ 1 ∷ 1 ∷ []

-- The two arrays grow by the recurrences of TS 38.211.
first_rounds :
    let (x1, x2) =
      gold_loop 29 0 (1 ∷ tabulate 60 (λ i. 0)) (load_init 31 0 6 (tabulate 61 (λ i. 0))) in
    (get_or x1 31 0 ≡ 1) × (get_or x1 59 0 ≡ 1) × (get_or x2 31 0 ≡ 0) × (get_or x2 33 0 ≡ 1)
unfolding gold_loop load_init
first_rounds = (refl, refl, refl, refl)

gold_sequence-register_example :
    gold_sequence 8 17
    ≡ tabulate 8
        (λ n. bit_xor (output feed1 start1 (n + 1600)) (output feed2 (start2 17) (n + 1600)))
gold_sequence-register_example = gold_sequence-register 8 17

descramble-scramble_example :
    (out : List ℕ) × (scramble bits 17 ≡ ok out)
    × (length out ≡ 4)
    × All IsBit out
    × (descramble out 17 ≡ ok bits)
descramble-scramble_example = descramble-scramble bits 17 (omega arith)
