-- ===== src/Layers.antt =====
-- src/layer_mapping.cpp: symbols spread over 1, 2 or 4 layers, and back. The symbols are only moved:
-- they are of any type, with the value `d` that a new vector holds.
mod RoundTrip
mod Examples
use gunnchos_gpu_nr_baseband.Base.{
  ℕ, zero, suc, ◌+◌, ◌*◌, ◌/◌, ◌%◌, Bool, true, ◌&&◌, ◌||◌, List, [], ◌∷◌, ◌++◌, map, length,
  get_or, tabulate, ◌==◌, Result, ok, throw, ◌>>=◌, ◌>>◌, require,
}

-- The check of the lengths.
abbrev pub all_of_size {ℓ} : {A : Type ℓ} → ℕ → List (List A) → Bool
all_of_size n [] = true
all_of_size n (x ∷ layers) = length x == n && all_of_size n layers

module _ {ℓ} {A : Type ℓ} (d : A) where
  -- `layers[l][t] = symbols[t * n_layers + l]`, for all `t` and `l`.
  unfoldable pub layer_map : List A → ℕ → Result (List (List A))
  layer_map symbols n = do
    require (n == 1 || n == 2 || n == 4) "n_layers must be 1,2,4"
    require (length symbols % n == 0) "symbol count not divisible by layers"
    ok (tabulate n (λ l. tabulate (length symbols / n) (λ t. get_or symbols (t * n + l) d)))

  -- The loop over `t`, from `t` on, with `left` rounds to go.
  abbrev pub interleave : ℕ → ℕ → List (List A) → List A
  interleave t zero layers = []
  interleave t (suc left) layers = map (λ x. get_or x t d) layers ++ interleave (suc t) left layers

  unfoldable pub layer_demap : List (List A) → Result (List A)
  layer_demap [] = throw "no layers"
  layer_demap (x ∷ layers) = do
    require (all_of_size (length x) (x ∷ layers)) "layer length mismatch"
    ok (interleave 0 (length x) (x ∷ layers))
