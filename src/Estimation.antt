-- ===== src/Estimation.antt =====
-- src/channel_estimation.cpp: the channel at the pilots, its interpolation over the subcarriers, and the
-- equalisers of single tones. A pilot index and a subcarrier are natural numbers.
mod Neighbours
mod Examples
use gunnchos_gpu_nr_baseband.Base.{
  ℕ, zero, suc, ◌+◌, ◌-◌, ◌*◌, ◌/◌, Bool, true, false, List, [], ◌∷◌, if◌then◌else◌, ◌==◌, ltb, leb,
  length, get_or, replicate, tabulate, Result, ok, throw, ◌>>=◌, ◌>>◌, require,
}
use gunnchos_gpu_nr_baseband.Base.Double.{Double}
use gunnchos_gpu_nr_baseband.Base.Signed.{Signed}
use gunnchos_gpu_nr_baseband.Modulation.{Complex, norm}

-- The search between two pilots, with at most `left` rounds.
abbrev pub search : List ℕ → ℕ → ℕ → ℕ → ℕ → ℕ × ℕ
search pilot_idx sc zero lo hi = (lo, hi)
search pilot_idx sc (suc left) lo hi =
    let mid = (lo + hi) / 2 in
    let upper = search pilot_idx sc left mid hi in
    let lower = search pilot_idx sc left lo mid in
    if ltb 1 (hi - lo) then if leb (get_or pilot_idx mid 0) sc then upper else lower else (lo, hi)

module _ {ℓ} {W : Type ℓ} ⦃d : Double W⦄ ⦃sg : Signed W⦄ where
  -- The operations of `std::complex<double>`.
  abbrev pub conj : Complex W → Complex W
  conj z = record { re = z.re; im = sg.neg z.im }

  abbrev pub plus : Complex W → Complex W → Complex W
  plus a b = record { re = d.add a.re b.re; im = d.add a.im b.im }

  abbrev pub times : Complex W → Complex W → Complex W
  times a b = record {
    re = sg.sub (d.mul a.re b.re) (d.mul a.im b.im);
    im = d.add (d.mul a.re b.im) (d.mul a.im b.re);
  }

  abbrev pub stretch : Complex W → W → Complex W
  stretch a t = record { re = d.mul a.re t; im = d.mul a.im t }

  abbrev pub shrink : Complex W → W → Complex W
  shrink a t = record { re = d.div a.re t; im = d.div a.im t }

  abbrev pub divided : Complex W → Complex W → Complex W
  divided a b = shrink (times a (conj b)) (norm b)

  -- The literal 1e-12.
  abbrev pub tiny : W
  tiny = d.lit 1 1_000_000_000_000

  abbrev pub origin : Complex W
  origin = record { re = d.lit 0 1; im = d.lit 0 1 }

  -- The loops of `ls_channel_estimate` and `equalize_zf_tones`, which differ in the text.
  abbrev pub ratios :
      Result (Unit {0}) → List (Complex W) → List (Complex W) → Result (List (Complex W))
  ratios fail [] ys = ok []
  ratios fail (x ∷ xs) [] = ok []
  ratios fail (x ∷ xs) (y ∷ ys) =
      let rest = ratios fail xs ys in
      (if d.lt tiny (norm y) then ok tt else fail) >> (rest >>= λ out. ok (divided x y ∷ out))

  unfoldable pub ls_channel_estimate :
      List (Complex W) → List (Complex W) → Result (List (Complex W))
  ls_channel_estimate rx_dmrs tx_dmrs = do
    require (length rx_dmrs == length tx_dmrs) "DMRS size mismatch"
    ratios (throw "zero DMRS pilot") rx_dmrs tx_dmrs

  unfoldable pub hold_interpolate : List (Complex W) → ℕ → Result (List (List (Complex W)))
  hold_interpolate h_sc n_symb = do
    require (ltb 0 n_symb) "n_symb must be > 0"
    ok (replicate n_symb h_sc)

  -- `h_pilots[lo] * (1.0 - t) + h_pilots[hi] * t`
  abbrev pub blend : List (Complex W) → List ℕ → ℕ → ℕ → ℕ → Complex W
  blend h_pilots pilot_idx sc lo hi =
      let x0 = d.of_nat (get_or pilot_idx lo 0) in
      let gap = sg.sub (d.of_nat (get_or pilot_idx hi 0)) x0 in
      let t = d.div (sg.sub (d.of_nat sc) x0) (if d.lt tiny gap then gap else tiny) in
      plus (stretch (get_or h_pilots lo origin) (sg.sub (d.lit 1 1) t))
        (stretch (get_or h_pilots hi origin) t)

  -- The value at one subcarrier.
  abbrev pub at_subcarrier : List (Complex W) → List ℕ → ℕ → Complex W
  at_subcarrier h_pilots pilot_idx sc =
      let last = length pilot_idx - 1 in
      let found = search pilot_idx sc last 0 last in
      if leb sc (get_or pilot_idx 0 0)
      then get_or h_pilots 0 origin
      else if leb (get_or pilot_idx last 0) sc
      then get_or h_pilots (length h_pilots - 1) origin
      else blend h_pilots pilot_idx sc found.0 found.1

  unfoldable pub interpolate_frequency : List (Complex W) → List ℕ → ℕ → Result (List (Complex W))
  interpolate_frequency h_pilots pilot_idx n_sc = do
    require (length h_pilots == length pilot_idx) "pilot size mismatch"
    require (ltb 0 (length pilot_idx)) "no pilots"
    require (ltb 0 n_sc) "n_sc"
    ok (tabulate n_sc (λ sc. at_subcarrier h_pilots pilot_idx sc))

  unfoldable pub equalize_zf_tones : List (Complex W) → List (Complex W) → Result (List (Complex W))
  equalize_zf_tones y h = do
    require (length y == length h) "ZF size mismatch"
    ratios (throw "ZF zero channel") y h

  abbrev pub mmse_each : W → List (Complex W) → List (Complex W) → List (Complex W)
  mmse_each noise_var [] hs = []
  mmse_each noise_var (y ∷ ys) [] = []
  mmse_each noise_var (y ∷ ys) (h ∷ hs) =
      shrink (times y (conj h)) (d.add (norm h) noise_var) ∷ mmse_each noise_var ys hs

  unfoldable pub equalize_mmse_tones :
      List (Complex W) → List (Complex W) → W → Result (List (Complex W))
  equalize_mmse_tones y h noise_var = do
    require (length y == length h) "MMSE size mismatch"
    require (d.le (d.lit 0 1) noise_var) "noise_var"
    ok (mmse_each noise_var y h)
