-- ===== src/Dmrs/Examples.antt =====
-- A slot of two symbols and two subcarriers, in thousandths, with the reference symbols in the second row.
use gunnchos_gpu_nr_baseband.Base.{ℕ, ◌<◌, ◌≡◌, ◌≢◌, refl, List, [], ◌∷◌, length, get_or, ok}
use gunnchos_gpu_nr_baseband.Base.Int.{ℤ, pos}
use gunnchos_gpu_nr_baseband.Base.Signed.{milli_int, milli_signed}
use gunnchos_gpu_nr_baseband.Scrambling.{gold_sequence}
use gunnchos_gpu_nr_baseband.Modulation.{qpsk, Complex, modulate}
use gunnchos_gpu_nr_baseband.Estimation.{origin}
use gunnchos_gpu_nr_baseband.Dmrs.{DmrsConfig, DmrsGrid, reference_symbol, generate_dmrs}
use gunnchos_gpu_nr_baseband.Dmrs.Grid.{entry}
use gunnchos_gpu_nr_baseband.Dmrs.Symbols.{generate_dmrs_modulates}

abbrev config : DmrsConfig
config = record { n_sc = pos 2; n_symb = pos 2; dmrs_symb = pos 1; c_init = 17 }

-- The symbols of the slot, from four bits of the Gold sequence.
abbrev symbols : List (Complex ℤ)
symbols = reference_symbol (gold_sequence 4 17) 0 ∷ reference_symbol (gold_sequence 4 17) 1 ∷ []

abbrev slot : DmrsGrid ℤ
slot = record { grid = (origin ∷ origin ∷ []) ∷ symbols ∷ []; sequence = symbols }

generate_dmrs_run : generate_dmrs config ≡ ok slot
unfolding generate_dmrs
generate_dmrs_run = refl

generate_dmrs_modulates_example :
    (modulate (gold_sequence 4 17) qpsk ≡ ok symbols)
    × (length slot.grid ≡ 2)
    × ((i : ℕ) → i < 2 → length (get_or slot.grid i []) ≡ 2)
    × (get_or slot.grid 1 [] ≡ symbols)
    × ((i j : ℕ) → i ≢ 1 → entry slot i j ≡ origin)
generate_dmrs_modulates_example = generate_dmrs_modulates refl refl config slot generate_dmrs_run
