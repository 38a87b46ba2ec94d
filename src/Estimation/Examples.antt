-- ===== src/Estimation/Examples.antt =====
-- Two pilots around three subcarriers, in thousandths.
use gunnchos_gpu_nr_baseband.Base.{ℕ, ◌<◌, ◌≡◌, refl, List, [], ◌∷◌, length, get_or, ok}
use gunnchos_gpu_nr_baseband.Base.Int.{ℤ, pos}
use gunnchos_gpu_nr_baseband.Base.Signed.{milli_int, milli_signed}
use gunnchos_gpu_nr_baseband.Modulation.{Complex}
use gunnchos_gpu_nr_baseband.Estimation.{origin, interpolate_frequency}
use gunnchos_gpu_nr_baseband.Estimation.Neighbours.{IsValueAt, interpolate_frequency-IsValueAt}

abbrev point : ℕ → Complex ℤ
point n = record { re = pos n; im = pos 0 }

abbrev pilots : List (Complex ℤ)
pilots = point 1000 ∷ point 2000 ∷ []

abbrev places : List ℕ
places = 1 ∷ 5 ∷ []

abbrev values : List (Complex ℤ)
values = point 1000 ∷ point 1000 ∷ point 1250 ∷ point 1500 ∷ point 1750 ∷ point 2000 ∷ []

interpolate_run : interpolate_frequency pilots places 6 ≡ ok values
unfolding interpolate_frequency
interpolate_run = refl

interpolate_frequency-IsValueAt_example :
    (length values ≡ 6) × ((sc : ℕ) → sc < 6 → IsValueAt pilots places sc (get_or values sc origin))
interpolate_frequency-IsValueAt_example =
    interpolate_frequency-IsValueAt pilots values places 6 interpolate_run
