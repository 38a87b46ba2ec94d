-- ===== src/CudaRef.antt =====
-- src/cuda_cpu_ref.cpp: the references on the CPU for the CUDA kernels, and the report that compares two
-- runs. `float` is a type with the operations of `double` that has conversions from and to it.
mod Report
mod Chain
mod Examples
use gunnchos_gpu_nr_baseband.Base.{
  ℕ, zero, suc, ◌+◌, ◌*◌, ◌%◌, Bool, true, false, ◌&&◌, List, [], ◌∷◌, map, if◌then◌else◌, ◌==◌,
  ltb, length, get_or, Result, ok, ◌>>=◌, ◌>>◌, require, not, String,
}
use gunnchos_gpu_nr_baseband.Base.Double.{Double}
use gunnchos_gpu_nr_baseband.Base.Signed.{Signed}
use gunnchos_gpu_nr_baseband.Scrambling.{scramble}
use gunnchos_gpu_nr_baseband.RateMatching
use gunnchos_gpu_nr_baseband.Modulation.{qpsk, Complex, modulate}
use gunnchos_gpu_nr_baseband.Llr.{add_each}

unfoldable pub scramble_bits : List ℕ → ℕ → Result (List ℕ)
scramble_bits bits c_init = scramble bits c_init

unfoldable pub rate_match_bits : List ℕ → ℕ → Result (List ℕ)
rate_match_bits coded e_bits = RateMatching.rate_match_bits coded e_bits

pub record CompareReport {ℓ} (W : Type ℓ) : Type ℓ where
  pub is_match : Bool
  pub max_abs_err : W
  pub mismatches : ℕ
  pub kernel : String
  pub status : String

module _ {ℓ} {F : Type ℓ} ⦃f : Double F⦄ ⦃fs : Signed F⦄ where
  unfoldable pub qpsk_llr_f32 : List F → F → Result (List F)
  qpsk_llr_f32 iq noise_var = do
    require (length iq % 2 == 0) "iq interleaved length"
    require (f.lt (f.lit 0 1) noise_var) "noise_var"
    let scale = f.div (f.lit 2 1) noise_var
    ok (map (λ x. f.mul scale x) iq)

  -- The square of a channel.
  abbrev pub power : F → F → F
  power h_re h_im = f.add (f.mul h_re h_re) (f.mul h_im h_im)

  -- The loops of `zf_tone_f32` and `mmse_tone_f32`, which differ in the number `extra` that is added to the
  -- square of the channel; `i` is the tone. A read behind the end, which has no meaning in the source,
  -- gives 0.
  abbrev pub tones : F → List F → List F → List F → List F → ℕ → ℕ → List F × List F
  tones extra y_re y_im h_re h_im zero i = ([], [])
  tones extra y_re y_im h_re h_im (suc left) i =
      let rest = tones extra y_re y_im h_re h_im left (suc i) in
      let yr = get_or y_re i (f.lit 0 1) in
      let yi = get_or y_im i (f.lit 0 1) in
      let hr = get_or h_re i (f.lit 0 1) in
      let hi = get_or h_im i (f.lit 0 1) in
      let den = f.add (power hr hi) extra in
      (
        f.div (f.add (f.mul yr hr) (f.mul yi hi)) den ∷ rest.0,
        f.div (fs.sub (f.mul yi hr) (f.mul yr hi)) den ∷ rest.1,
      )

  unfoldable pub zf_tone_f32 : List F → List F → List F → List F → Result (List F × List F)
  zf_tone_f32 y_re y_im h_re h_im = do
    require
        (length y_re == length y_im && (length y_re == length h_re && length h_re == length h_im))
        "zf sizes"
    ok (tones (f.lit 1 1_000_000_000_000) y_re y_im h_re h_im (length y_re) 0)

  unfoldable pub mmse_tone_f32 : List F → List F → List F → List F → F → Result (List F × List F)
  mmse_tone_f32 y_re y_im h_re h_im noise = do
    require (f.lt (f.lit 0 1) noise) "noise"
    ok (tones noise y_re y_im h_re h_im (length y_re) 0)

  unfoldable pub harq_combine_f32 : List F → List F → Result (List F)
  harq_combine_f32 a b = do require (length a == length b) "harq size"; ok (add_each a b)

module _ {ℓ κ} {W : Type ℓ} {F : Type κ} ⦃d : Double W⦄ ⦃sg : Signed W⦄ where
  -- `out[2 * i]` and `out[2 * i + 1]`; `narrow` is the conversion to `float`.
  abbrev pub interleaved : (W → F) → List (Complex W) → List F
  interleaved narrow [] = []
  interleaved narrow (z ∷ sym) = narrow z.re ∷ narrow z.im ∷ interleaved narrow sym

  unfoldable pub modulate_qpsk_f32 : (W → F) → List ℕ → Result (List F)
  modulate_qpsk_f32 narrow bits = do sym ← modulate bits qpsk; ok (interleaved narrow sym)

  -- `e` for a pair of values; `widen` is the conversion to `double`.
  abbrev pub gap_of : (F → W) → F → F → W
  gap_of widen a b = sg.abs (sg.sub (widen a) (widen b))

  -- The loop of `compare_f32` on the error and the count.
  abbrev pub compare_each : (F → W) → W → List F → List F → W → ℕ → W × ℕ
  compare_each widen tol [] bs err count = (err, count)
  compare_each widen tol (a ∷ more) [] err count = (err, count)
  compare_each widen tol (a ∷ more) (b ∷ bs) err count =
      let e = gap_of widen a b in
      compare_each widen tol more bs (if d.lt err e then e else err)
        (if d.lt tol e then suc count else count)

  unfoldable pub compare_f32 : (F → W) → List F → List F → String → W → CompareReport W
  compare_f32 widen a b kernel tol =
      let seen = compare_each widen tol a b (d.lit 0 1) 0 in
      let same = seen.1 == 0 in
      if not (length a == length b)
      then record {
        is_match = false;
        max_abs_err = d.lit 0 1;
        mismatches = if ltb (length a) (length b) then length b else length a;
        kernel = kernel;
        status = "length_mismatch";
      }
      else record {
        is_match = same;
        max_abs_err = seen.0;
        mismatches = seen.1;
        kernel = kernel;
        status = if same then "cpu_reference_match" else "cpu_reference_mismatch";
      }
