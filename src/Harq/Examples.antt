-- ===== src/Harq/Examples.antt =====
-- A process that is received three times, beside another one.
use gunnchos_gpu_nr_baseband.Base.{ℕ, ◌≡◌, refl, List, [], ◌∷◌, some, ok}
use gunnchos_gpu_nr_baseband.Base.Int.{pos}
use gunnchos_gpu_nr_baseband.Base.Double.{milli_double}
use gunnchos_gpu_nr_baseband.Harq.{HarqBuffer, fresh, find, get, upsert}
use gunnchos_gpu_nr_baseband.Harq.Store.{IsMap}
use gunnchos_gpu_nr_baseband.Harq.Rules.{IsUpserted, upsert_refines}
use gunnchos_gpu_nr_baseband.Harq.Combining.{receive, summed, receive-added}

abbrev soft : ℕ → List ℕ
soft x = x ∷ 2 ∷ []

abbrev two : HarqBuffer ℕ
two = (3, fresh 3 (pos 0) (soft 5) (pos 0)) ∷ (7, fresh 7 (pos 1) (soft 6) (pos 0)) ∷ []

two-IsMap : IsMap two
two-IsMap = ((refl, tt), (tt, tt))

upsert_refines_example :
    IsUpserted two 7 (pos 1) (soft 4) (pos 2) (upsert two 7 (pos 1) (soft 4) (pos 2))
upsert_refines_example = upsert_refines two 7 (pos 1) (soft 4) (pos 2) two-IsMap

receive-added_example :
    (after : HarqBuffer ℕ) × (receive 7
        (pos 2)
        two
        ((pos 0, soft 1) ∷ (pos 2, soft 10) ∷ (pos 3, soft 100) ∷ [])
      ≡ ok after)
    × (get after 7 ≡ some (111 ∷ 6 ∷ []))
    × (find after 7 ≡ some (summed 7 (pos 2) (111 ∷ 6 ∷ []) (pos 3) 3))
receive-added_example =
    receive-added 7 (pos 2) two (pos 0) (soft 1) ((pos 2, soft 10) ∷ (pos 3, soft 100) ∷ [])
      (λ e. cc) (refl, (refl, tt))
