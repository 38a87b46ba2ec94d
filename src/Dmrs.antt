-- ===== src/Dmrs.antt =====
-- src/dmrs.cpp: the reference symbols of a slot, from the Gold sequence, and their place in the grid.
mod Grid
mod Symbols
mod Examples
use gunnchos_gpu_nr_baseband.Base.{
  ℕ, zero, suc, ◌+◌, ◌*◌, Bool, ◌&&◌, List, [], if◌then◌else◌, ◌==◌, get_or, set, replicate,
  tabulate, Result, ok, ◌>>◌, require,
}
use gunnchos_gpu_nr_baseband.Base.Int.{ℤ, pos, negsuc}
use gunnchos_gpu_nr_baseband.Base.Double.{Double}
use gunnchos_gpu_nr_baseband.Base.Signed.{Signed, magnitude, leb_int, ltb_int}
use gunnchos_gpu_nr_baseband.Scrambling.{gold_sequence}
use gunnchos_gpu_nr_baseband.Modulation.{Complex}
use gunnchos_gpu_nr_baseband.Estimation.{origin}

pub record DmrsConfig : Type 0 where
  pub n_sc : ℤ
  pub n_symb : ℤ
  pub dmrs_symb : ℤ
  pub c_init : ℕ

pub record DmrsGrid {ℓ} (W : Type ℓ) : Type ℓ where
  pub grid : List (List (Complex W))
  pub sequence : List (Complex W)

module _ {ℓ} {W : Type ℓ} ⦃d : Double W⦄ ⦃sg : Signed W⦄ where
  -- `(bit == 0) ? 1.0 : -1.0`
  abbrev pub sign_of : ℕ → W
  sign_of b = if b == 0 then d.lit 1 1 else sg.neg (d.lit 1 1)

  -- `Complex{s * re, s * im}` for subcarrier `k`.
  abbrev pub reference_symbol : List ℕ → ℕ → Complex W
  reference_symbol bits k =
      let s = d.div (d.lit 1 1) (sg.sqrt (d.lit 2 1)) in
      record {
        re = d.mul s (sign_of (get_or bits (2 * k) 0));
        im = d.mul s (sign_of (get_or bits (2 * k + 1) 0));
      }

  -- The loop over `k`, with `left` rounds to go: one symbol is written to the sequence and to row `row`.
  abbrev pub place_symbols : List ℕ → ℕ → ℕ → ℕ → DmrsGrid W → DmrsGrid W
  place_symbols bits row zero k g = g
  place_symbols bits row (suc left) k g =
      let symbols = set g.sequence k (reference_symbol bits k) in
      place_symbols bits row left (suc k) (record {
        grid = set g.grid row (set (get_or g.grid row []) k (get_or symbols k origin));
        sequence = symbols;
      })

  unfoldable pub generate_dmrs : DmrsConfig → Result (DmrsGrid W)
  generate_dmrs cfg = do
    require (ltb_int (pos 0) cfg.n_sc && ltb_int (pos 0) cfg.n_symb) "invalid DMRS dimensions"
    require (leb_int (pos 0) cfg.dmrs_symb && ltb_int cfg.dmrs_symb cfg.n_symb)
        "dmrs_symb out of range"
    let n_sc = magnitude cfg.n_sc
    let bits = gold_sequence (n_sc * 2) cfg.c_init
    ok (
        place_symbols bits (magnitude cfg.dmrs_symb) n_sc 0 (record {
          grid = replicate (magnitude cfg.n_symb) (replicate n_sc origin);
          sequence = replicate n_sc origin;
        }))
