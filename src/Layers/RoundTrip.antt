-- ===== src/Layers/RoundTrip.antt =====
-- `layer_map` and `layer_demap`, one after the other.
use native.Mathlib.Nat.{div-add-mod, mod-lt, zero-add, mul-mod_left, mul-div_left}
use gunnchos_gpu_nr_baseband.Base.{
  ℕ, zero, suc, ◌+◌, ◌*◌, ◌/◌, ◌%◌, ◌<◌, ◌≡◌, refl, ◌⊎◌, sym, ap, ◌∙◌, arith, true, List, [], ◌∷◌,
  map, length, length-append, length-map, get_or, get_or_ext, get_or-append_left,
  get_or-append_right, tabulate, tabulate_from, length-tabulate_from, get_or-tabulate, ok, All,
}
use gunnchos_gpu_nr_baseband.Layers.{layer_map, all_of_size, interleave, layer_demap}

module _ {ℓ} {A : Type ℓ} (d : A) where
  length-interleave :
      (t left : ℕ) (layers : List (List A))
      → length (interleave d t left layers) ≡ left * length layers
  length-interleave t zero layers = omega arith
  length-interleave t (suc left) layers = omega (
    arith,
    length-append (map (λ x. get_or x t d) layers) (interleave d (suc t) left layers),
    length-map (λ (x : List A). get_or x t d) layers,
    length-interleave (suc t) left layers,
  )

  get_or-map :
      (layers : List (List A)) (t l : ℕ)
      → l < length layers
      → get_or (map (λ x. get_or x t d) layers) l d ≡ get_or (get_or layers l []) t d
  get_or-map [] t l h = absurd (omega arith)
  get_or-map (x ∷ layers) t zero h = refl
  get_or-map (x ∷ layers) t (suc l) h = get_or-map layers t l (omega arith)

  get_or-interleave :
      (t left k l : ℕ) (layers : List (List A))
      → k < left
      → l < length layers
      → get_or (interleave d t left layers) (k * length layers + l) d
        ≡ get_or (get_or layers l []) (t + k) d
  get_or-interleave t zero k l layers h hl = absurd (omega arith)
  get_or-interleave t (suc left) zero l layers h hl =
      let row = map (λ x. get_or x t d) layers in
      let start : 0 * length layers + l ≡ l = omega arith in
      let same : t + 0 ≡ t = omega arith in
      rw (start, same)
        (get_or-append_left row (interleave d (suc t) left layers) l d
            (omega (arith, length-map (λ (x : List A). get_or x t d) layers))
          ∙ get_or-map layers t l hl)
  get_or-interleave t (suc left) (suc k) l layers h hl =
      let row = map (λ x. get_or x t d) layers in
      let shift : suc t + k ≡ t + suc k = omega arith in
      get_or-append_right row (interleave d (suc t) left layers) (k * length layers + l)
        (suc k * length layers + l) d
        (omega (arith, length-map (λ (x : List A). get_or x t d) layers))
      ∙ get_or-interleave (suc t) left k l layers (omega arith) hl
      ∙ ap (λ (j : ℕ). get_or (get_or layers l []) j d) shift

  abbrev pub OfSize : ℕ → List (List A) → Type 0
  OfSize s = All (λ x. length x ≡ s)

  all_of_size-OfSize :
      (s : ℕ) (layers : List (List A)) → OfSize s layers → all_of_size s layers ≡ true
  all_of_size-OfSize s [] h = refl
  all_of_size-OfSize s (x ∷ layers) h = ground (arith, all_of_size-OfSize s layers h.1)

  layer_demap-interleave :
      (s : ℕ) (layers : List (List A))
      → 0 < length layers
      → OfSize s layers
      → layer_demap d layers ≡ ok (interleave d 0 s layers)
  unfolding layer_demap
  layer_demap-interleave s [] pos h = absurd (omega arith)
  layer_demap-interleave s (x ∷ layers) pos h =
      let rest : all_of_size (length x) layers ≡ true = rw h.0 (all_of_size-OfSize s layers h.1) in
      ground (arith, rest, h.0)

  tabulate_from-OfSize :
      (i n s : ℕ) (row : ℕ → List A)
      → ((l : ℕ) → length (row l) ≡ s)
      → OfSize s (tabulate_from i n row)
  tabulate_from-OfSize i zero s row h = tt
  tabulate_from-OfSize i (suc n) s row h = (h i, tabulate_from-OfSize (suc i) n s row h)

  -- The numbers of layers that are accepted.
  abbrev pub IsCount : ℕ → Type 0
  IsCount n = (n ≡ 1) ⊎ (n ≡ 2) ⊎ (n ≡ 4)

  module _ (symbols : List A) (n : ℕ) where
    abbrev layer : ℕ → List A
    layer l = tabulate (length symbols / n) (λ t. get_or symbols (t * n + l) d)

    layer_map-tabulate :
        IsCount n → length symbols % n ≡ 0 → layer_map d symbols n ≡ ok (tabulate n layer)
    unfolding layer_map
    layer_map-tabulate c e = ground arith

    interleave_layers :
        0 < n
        → length symbols % n ≡ 0
        → interleave d 0 (length symbols / n) (tabulate n layer) ≡ symbols
    interleave_layers pos e =
        let size : ℕ = length symbols / n in
        let layers : List (List A) = tabulate n layer in
        let count : length layers ≡ n = length-tabulate_from 0 n layer in
        let total : size * n ≡ length symbols = omega (arith, div-add-mod (length symbols) n) in
        let long : length (interleave d 0 size layers) ≡ length symbols =
          length-interleave 0 size layers ∙ ap (λ (t : ℕ). size * t) count ∙ total in
        get_or_ext (interleave d 0 size layers) symbols d long λ j h.
          let k : ℕ = j / n in
          let l : ℕ = j % n in
          let l_below : l < n = mod-lt j pos in
          let parts : k * n + l ≡ j = omega (arith, div-add-mod j n) in
          let k_below : k < size = grind arith in
          ap (λ (t : ℕ). get_or (interleave d 0 size layers) t d)
            (sym parts ∙ ap (λ (t : ℕ). k * t + l) (sym count))
          ∙ get_or-interleave 0 size k l layers k_below (omega arith)
          ∙ ap (λ x. get_or x (0 + k) d) (get_or-tabulate n layer l [] l_below)
          ∙ ap (λ (t : ℕ). get_or (layer l) t d) (zero-add k)
          ∙ get_or-tabulate size (λ t. get_or symbols (t * n + l) d) k d k_below
          ∙ ap (λ (t : ℕ). get_or symbols t d) parts

  -- Symbols whose number is divisible by the 1, 2 or 4 layers are mapped, and demapping the layers
  -- gives them back.
  pub layer_demap-layer_map :
      (symbols : List A) (n : ℕ)
      → IsCount n
      → length symbols % n ≡ 0
      → (layers : List (List A)) × (layer_map d symbols n ≡ ok layers)
        × (length layers ≡ n)
        × OfSize (length symbols / n) layers
        × (layer_demap d layers ≡ ok symbols)
  layer_demap-layer_map symbols n c e =
      let layers = tabulate n (layer symbols n) in
      let count : length layers ≡ n = length-tabulate_from 0 n (layer symbols n) in
      let sized =
        tabulate_from-OfSize 0 n (length symbols / n) (layer symbols n)
          (λ l. length-tabulate_from 0 (length symbols / n) _) in
      let pos : 0 < n = omega arith in
      (
        layers,
        layer_map-tabulate symbols n c e,
        count,
        sized,
        layer_demap-interleave (length symbols / n) layers (omega arith) sized
            ∙ ap ok (interleave_layers symbols n pos e),
      )

  OfSize-get_or :
      (s : ℕ) (layers : List (List A)) (l : ℕ)
      → l < length layers
      → OfSize s layers
      → length (get_or layers l []) ≡ s
  OfSize-get_or s [] l h f = absurd (omega arith)
  OfSize-get_or s (x ∷ layers) zero h f = f.0
  OfSize-get_or s (x ∷ layers) (suc l) h f = OfSize-get_or s layers l (omega arith) f.1

  -- 1, 2 or 4 layers of one length are demapped, and mapping the symbols to as many layers gives
  -- the layers back.
  layer_map-layer_demap :
      (layers : List (List A)) (s : ℕ)
      → IsCount (length layers)
      → OfSize s layers
      → (symbols : List A) × (layer_demap d layers ≡ ok symbols)
        × (layer_map d symbols (length layers) ≡ ok layers)
  layer_map-layer_demap layers s c f =
      let n = length layers in
      let symbols = interleave d 0 s layers in
      let pos : 0 < n = omega arith in
      let total : length symbols ≡ s * n = length-interleave 0 s layers in
      let even : length symbols % n ≡ 0 = ap (λ (t : ℕ). t % n) total ∙ mul-mod_left s n in
      let size : length symbols / n ≡ s = ap (λ (t : ℕ). t / n) total ∙ mul-div_left s pos in
      let again = layer symbols n in
      let same : tabulate n again ≡ layers =
        get_or_ext (tabulate n again) layers [] (length-tabulate_from 0 n again) λ l h.
          let below : l < n = omega (arith, length-tabulate_from 0 n again) in
          get_or-tabulate n again l [] below
          ∙ get_or_ext (again l) (get_or layers l []) d
              (length-tabulate_from 0 (length symbols / n) _
                ∙ size
                ∙ sym (OfSize-get_or s layers l below f))
              (λ k p.
                let short : k < length symbols / n = omega (
                  arith,
                  length-tabulate_from 0 (length symbols / n) (λ t. get_or symbols (t * n + l) d),
                ) in
                get_or-tabulate (length symbols / n) (λ t. get_or symbols (t * n + l) d) k d short
                ∙ get_or-interleave 0 s k l layers (omega arith) below
                ∙ ap (λ (t : ℕ). get_or (get_or layers l []) t d) (zero-add k)) in
      (
        symbols,
        layer_demap-interleave s layers pos f,
        layer_map-tabulate symbols n c even ∙ ap ok same,
      )
