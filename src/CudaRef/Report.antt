-- ===== src/CudaRef/Report.antt =====
-- What a report of a comparison says.
use gunnchos_gpu_nr_baseband.Base.{ℕ, ◌≡◌, false, List, if◌then◌else◌, get_or}
use gunnchos_gpu_nr_baseband.Base.Double.{Double}
use gunnchos_gpu_nr_baseband.Base.Signed.{Signed}
use gunnchos_gpu_nr_baseband.CudaRef.{gap_of, compare_each}

module _ {ℓ κ} {W : Type ℓ} {F : Type κ} ⦃d : Double W⦄ ⦃sg : Signed W⦄ (widen : F → W) (tol : W)
    (o : F) where
  -- The values at one place differ by no more than the tolerance.
  abbrev pub IsClose : List F → List F → ℕ → Type 0
  IsClose a b i = d.lt tol (gap_of widen (get_or a i o) (get_or b i o)) ≡ false

  abbrev count : List F → List F → W → ℕ → ℕ
  count a b err n = (compare_each widen tol a b err n).1

  -- The error after one more pair.
  abbrev worse : F → F → W → W
  worse x y err = if d.lt err (gap_of widen x y) then gap_of widen x y else err
