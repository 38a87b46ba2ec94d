-- ===== src/Layers/Examples.antt =====
-- Layer mapping at concrete symbols.
use gunnchos_gpu_nr_baseband.Base.{ℕ, ◌≡◌, refl, inl, inr, List, [], ◌∷◌, length, ok, throw}
use gunnchos_gpu_nr_baseband.Layers.{layer_map, layer_demap}
use gunnchos_gpu_nr_baseband.Layers.RoundTrip.{OfSize, layer_demap-layer_map}

abbrev symbols : List ℕ
symbols = 10 ∷ 11 ∷ 12 ∷ 13 ∷ 14 ∷ 15 ∷ []

abbrev two_layers : List (List ℕ)
two_layers = (10 ∷ 12 ∷ 14 ∷ []) ∷ (11 ∷ 13 ∷ 15 ∷ []) ∷ []

mapped :
    (layer_map 0 symbols 2 ≡ ok two_layers)
    × (layer_map 0 symbols 4 ≡ throw "symbol count not divisible by layers")
    × (layer_map 0 symbols 3 ≡ throw "n_layers must be 1,2,4")
unfolding layer_map
mapped = (refl, refl, refl)

layer_demap-layer_map_example :
    (layers : List (List ℕ)) × (layer_map 0 symbols 2 ≡ ok layers)
    × (length layers ≡ 2)
    × OfSize 0 3 layers
    × (layer_demap 0 layers ≡ ok symbols)
layer_demap-layer_map_example = layer_demap-layer_map 0 symbols 2 (inr (inl refl)) refl
