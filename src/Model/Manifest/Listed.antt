-- ===== src/Model/Manifest/Listed.antt =====
-- The tensors of the manifest that validate_qwen35_manifest of cpp/model/qwen35_manifest.cpp returns.
use raftinfer.Base.{
  ℕ, ◌+◌, List, [], ◌∷◌, ◌++◌, map, Option, none, some, not, ◌==◌, Text, bytes, ok, >>=-eq-ok,
  throw_if->>-eq-ok, ok-injective, ◌≡◌, refl, sym, ap, subst, ◌∙◌, arith,
}
use raftinfer.Base.Texts.{text_eq_iff, to_string}
use raftinfer.Gguf.Types.{TensorInfo, Catalog}
use raftinfer.Model.Config.{
  Qwen35BlockKind, linear_attention, full_attention, Qwen35BlockPlan, Qwen35Config,
}
use raftinfer.Model.Manifest.{
  Qwen35CommonLayerTensors, Qwen35FullAttentionTensors, Qwen35LinearAttentionTensors,
  Qwen35LayerManifest, Qwen35Manifest, with_dimensions, find_tensor, require_tensor, block_name,
  require_common, require_full_attention, require_linear_attention, require_attention_of,
  require_layer, require_layers, no_plan, validate_qwen35_manifest,
}
use raftinfer.Model.Manifest.Expected.{Expected, common_tensors, attention_tensors, model_tensors}

-- The name of a tensor with its dimensions.
abbrev pub key_of : TensorInfo → Expected
key_of t = (t.name, t.dimensions)

-- The tensors of the manifest in the order of its fields.
abbrev pub common_of : Qwen35CommonLayerTensors → List TensorInfo
common_of v = v.input_norm ∷ v.post_attention_norm ∷ v.ffn_gate ∷ v.ffn_down ∷ v.ffn_up ∷ []

abbrev pub full_of : Qwen35FullAttentionTensors → List TensorInfo
full_of v = v.query ∷ v.key ∷ v.value ∷ v.output ∷ v.query_norm ∷ v.key_norm ∷ []

abbrev pub linear_of : Qwen35LinearAttentionTensors → List TensorInfo
linear_of v =
    v.qkv ∷ v.gate ∷ v.convolution ∷ v.time_step_bias ∷ v.recurrent_a ∷ v.beta ∷ v.alpha
    ∷ v.output_norm ∷ v.output ∷ []

abbrev pub or_none {ℓ} : {A : Type ℓ} → (A → List TensorInfo) → Option A → List TensorInfo
or_none list none = []
or_none list (some v) = list v

abbrev pub layer_tensors : Qwen35LayerManifest → List TensorInfo
layer_tensors l =
    common_of l.common ++ (or_none full_of l.full_attention ++ or_none linear_of l.linear_attention)

abbrev pub layers_tensors : List Qwen35LayerManifest → List TensorInfo
layers_tensors [] = []
layers_tensors (l ∷ ls) = layer_tensors l ++ layers_tensors ls

abbrev pub tensors_of : Qwen35Manifest → List TensorInfo
tensors_of m = m.token_embedding ∷ m.output_norm ∷ m.output ∷ layers_tensors m.layers

-- "blk.", the index in decimal, a dot and the name.
abbrev pub in_block : ℕ → Expected → Expected
in_block index e = (bytes "blk." ++ to_string index ++ bytes "." ++ e.0, e.1)

cons {ℓ} : {A : Type ℓ} {a b : A} {xs ys : List A} → a ≡ b → xs ≡ ys → (a ∷ xs) ≡ (b ∷ ys)
cons p q = λ i. p i ∷ q i

map-append {ℓ κ} :
    {A : Type ℓ} {B : Type κ} (f : A → B) (xs ys : List A) → map f (xs ++ ys) ≡ map f xs ++ map f ys
map-append f [] ys = refl
map-append f (x ∷ xs) ys = cons refl (map-append f xs ys)

find_tensor-name :
    (ts : List TensorInfo) (name : Text) (t : TensorInfo)
    → find_tensor ts name ≡ some t
    → t.name ≡ name
find_tensor-name [] name t h = cc h
find_tensor-name (u ∷ us) name t h =
    ground (arith, h, text_eq_iff u.name name, find_tensor-name us name t)

with_dimensions-found :
    (found : Option TensorInfo) (name : Text) (dimensions : List ℕ) (t : TensorInfo)
    → with_dimensions found name dimensions ≡ ok t
    → (found ≡ some t) × (t.dimensions ≡ dimensions)
with_dimensions-found none name dimensions t h = cc h
with_dimensions-found (some u) name dimensions t h =
    ground (arith, h, text_eq_iff u.dimensions dimensions)

require_tensor-key :
    (catalog : Catalog) (name : Text) (dimensions : List ℕ) (t : TensorInfo)
    → require_tensor catalog name dimensions ≡ ok t
    → key_of t ≡ (name, dimensions)
unfolding require_tensor
require_tensor-key catalog name dimensions t h =
    let (found, same) =
      with_dimensions-found (find_tensor catalog.tensors name) name dimensions t h in
    λ i. (find_tensor-name catalog.tensors name t found i, same i)

require_common-keys :
    (catalog : Catalog) (c : Qwen35Config) (index : ℕ) (v : Qwen35CommonLayerTensors)
    → require_common catalog c index ≡ ok v
    → map key_of (common_of v) ≡ map (in_block index) (common_tensors c)
unfolding require_common block_name
require_common-keys catalog c index v h =
    let (t₁, e₁, h₁) = >>=-eq-ok (require_tensor catalog _ _) _ h in
    let (t₂, e₂, h₂) = >>=-eq-ok (require_tensor catalog _ _) _ h₁ in
    let (t₃, e₃, h₃) = >>=-eq-ok (require_tensor catalog _ _) _ h₂ in
    let (t₄, e₄, h₄) = >>=-eq-ok (require_tensor catalog _ _) _ h₃ in
    let (t₅, e₅, last) = >>=-eq-ok (require_tensor catalog _ _) _ h₄ in
    subst
      (λ (v : Qwen35CommonLayerTensors).
        map key_of (common_of v) ≡ map (in_block index) (common_tensors c))
      (ok-injective last)
      (cons (require_tensor-key catalog _ _ t₁ e₁) (
        cons (require_tensor-key catalog _ _ t₂ e₂) (
          cons (require_tensor-key catalog _ _ t₃ e₃) (
            cons (require_tensor-key catalog _ _ t₄ e₄)
              (cons (require_tensor-key catalog _ _ t₅ e₅) (refl))))))

require_full_attention-keys :
    (catalog : Catalog) (c : Qwen35Config) (index : ℕ) (v : Qwen35FullAttentionTensors)
    → require_full_attention catalog c index ≡ ok v
    → map key_of (full_of v) ≡ map (in_block index) (attention_tensors full_attention c)
unfolding require_full_attention block_name
require_full_attention-keys catalog c index v h =
    let (t₁, e₁, h₁) = >>=-eq-ok (require_tensor catalog _ _) _ h in
    let (t₂, e₂, h₂) = >>=-eq-ok (require_tensor catalog _ _) _ h₁ in
    let (t₃, e₃, h₃) = >>=-eq-ok (require_tensor catalog _ _) _ h₂ in
    let (t₄, e₄, h₄) = >>=-eq-ok (require_tensor catalog _ _) _ h₃ in
    let (t₅, e₅, h₅) = >>=-eq-ok (require_tensor catalog _ _) _ h₄ in
    let (t₆, e₆, last) = >>=-eq-ok (require_tensor catalog _ _) _ h₅ in
    subst
      (λ (v : Qwen35FullAttentionTensors).
        map key_of (full_of v) ≡ map (in_block index) (attention_tensors full_attention c))
      (ok-injective last)
      (cons (require_tensor-key catalog _ _ t₁ e₁) (
        cons (require_tensor-key catalog _ _ t₂ e₂) (
          cons (require_tensor-key catalog _ _ t₃ e₃) (
            cons (require_tensor-key catalog _ _ t₄ e₄) (
              cons (require_tensor-key catalog _ _ t₅ e₅)
                (cons (require_tensor-key catalog _ _ t₆ e₆) (refl)))))))

require_linear_attention-keys :
    (catalog : Catalog) (c : Qwen35Config) (index : ℕ) (v : Qwen35LinearAttentionTensors)
    → require_linear_attention catalog c index ≡ ok v
    → map key_of (linear_of v) ≡ map (in_block index) (attention_tensors linear_attention c)
unfolding require_linear_attention block_name
require_linear_attention-keys catalog c index v h =
    let (t₁, e₁, h₁) = >>=-eq-ok (require_tensor catalog _ _) _ h in
    let (t₂, e₂, h₂) = >>=-eq-ok (require_tensor catalog _ _) _ h₁ in
    let (t₃, e₃, h₃) = >>=-eq-ok (require_tensor catalog _ _) _ h₂ in
    let (t₄, e₄, h₄) = >>=-eq-ok (require_tensor catalog _ _) _ h₃ in
    let (t₅, e₅, h₅) = >>=-eq-ok (require_tensor catalog _ _) _ h₄ in
    let (t₆, e₆, h₆) = >>=-eq-ok (require_tensor catalog _ _) _ h₅ in
    let (t₇, e₇, h₇) = >>=-eq-ok (require_tensor catalog _ _) _ h₆ in
    let (t₈, e₈, h₈) = >>=-eq-ok (require_tensor catalog _ _) _ h₇ in
    let (t₉, e₉, last) = >>=-eq-ok (require_tensor catalog _ _) _ h₈ in
    subst
      (λ (v : Qwen35LinearAttentionTensors).
        map key_of (linear_of v) ≡ map (in_block index) (attention_tensors linear_attention c))
      (ok-injective last)
      (cons (require_tensor-key catalog _ _ t₁ e₁) (
        cons (require_tensor-key catalog _ _ t₂ e₂) (
          cons (require_tensor-key catalog _ _ t₃ e₃) (
            cons (require_tensor-key catalog _ _ t₄ e₄) (
              cons (require_tensor-key catalog _ _ t₅ e₅) (
                cons (require_tensor-key catalog _ _ t₆ e₆) (
                  cons (require_tensor-key catalog _ _ t₇ e₇) (
                    cons (require_tensor-key catalog _ _ t₈ e₈)
                      (cons (require_tensor-key catalog _ _ t₉ e₉) (refl))))))))))

require_attention_of-keys :
    (kind : Qwen35BlockKind) (catalog : Catalog) (c : Qwen35Config) (index : ℕ)
    (common : Qwen35CommonLayerTensors) (l : Qwen35LayerManifest)
    → require_attention_of kind catalog c index common ≡ ok l
    → map key_of (common_of common) ≡ map (in_block index) (common_tensors c)
    → map key_of (layer_tensors l)
      ≡ map (in_block index) (common_tensors c ++ attention_tensors kind c)
unfolding require_attention_of
require_attention_of-keys full_attention catalog c index common l h keys =
    let (v, is_v, last) = >>=-eq-ok (require_full_attention catalog c index) _ h in
    subst
      (λ (l : Qwen35LayerManifest).
        map key_of (layer_tensors l)
        ≡ map (in_block index) (common_tensors c ++ attention_tensors full_attention c))
      (ok-injective last)
      (map-append key_of (common_of common) (full_of v ++ [])
        ∙ ap (λ xs. xs ++ map key_of (full_of v)) keys
        ∙ ap (λ xs. map (in_block index) (common_tensors c) ++ xs)
            (require_full_attention-keys catalog c index v is_v)
        ∙ sym (map-append (in_block index) (common_tensors c) (attention_tensors full_attention c)))
require_attention_of-keys linear_attention catalog c index common l h keys =
    let (v, is_v, last) = >>=-eq-ok (require_linear_attention catalog c index) _ h in
    subst
      (λ (l : Qwen35LayerManifest).
        map key_of (layer_tensors l)
        ≡ map (in_block index) (common_tensors c ++ attention_tensors linear_attention c))
      (ok-injective last)
      (map-append key_of (common_of common) (linear_of v)
        ∙ ap (λ xs. xs ++ map key_of (linear_of v)) keys
        ∙ ap (λ xs. map (in_block index) (common_tensors c) ++ xs)
            (require_linear_attention-keys catalog c index v is_v)
        ∙ sym
            (map-append (in_block index) (common_tensors c) (attention_tensors linear_attention c)))

require_layer-keys :
    (catalog : Catalog) (c : Qwen35Config) (position : ℕ) (block : Qwen35BlockPlan)
    (l : Qwen35LayerManifest)
    → require_layer catalog c position block ≡ ok l
    → map key_of (layer_tensors l)
      ≡ map (in_block block.index) (common_tensors c ++ attention_tensors block.kind c)
unfolding require_layer
require_layer-keys catalog c position block l h =
    let (_, h₁) = throw_if->>-eq-ok (not (block.index == position)) _ _ h in
    let (common, is_common, h₂) = >>=-eq-ok (require_common catalog c block.index) _ h₁ in
    require_attention_of-keys block.kind catalog c block.index common l h₂
      (require_common-keys catalog c block.index common is_common)

-- The names and dimensions of the tensors of a run of blocks.
abbrev pub layers_keys : Qwen35Config → List Qwen35BlockPlan → List Expected
layers_keys c [] = []
layers_keys c (block ∷ blocks) =
    map (in_block block.index) (common_tensors c ++ attention_tensors block.kind c)
    ++ layers_keys c blocks

require_layers-keys :
    (catalog : Catalog) (c : Qwen35Config) (position : ℕ) (blocks : List Qwen35BlockPlan)
    (ls : List Qwen35LayerManifest)
    → require_layers catalog c position blocks ≡ ok ls
    → map key_of (layers_tensors ls) ≡ layers_keys c blocks
unfolding require_layers
require_layers-keys catalog c position [] ls h =
    ap (λ ls. map key_of (layers_tensors ls)) (sym (ok-injective h))
require_layers-keys catalog c position (block ∷ blocks) ls h =
    let (l, is_l, h₁) = >>=-eq-ok (require_layer catalog c position block) _ h in
    let (rest, is_rest, last) = >>=-eq-ok (require_layers catalog c (position + 1) blocks) _ h₁ in
    ap (λ ls. map key_of (layers_tensors ls)) (sym (ok-injective last))
    ∙ map-append key_of (layer_tensors l) (layers_tensors rest)
    ∙ ap (λ xs. xs ++ map key_of (layers_tensors rest))
        (require_layer-keys catalog c position block l is_l)
    ∙ ap
        (λ xs.
          map (in_block block.index) (common_tensors c ++ attention_tensors block.kind c) ++ xs)
        (require_layers-keys catalog c (position + 1) blocks rest is_rest)

-- The tensors of a manifest that is returned, by name and dimensions.
pub validate_qwen35_manifest-keys :
    (catalog : Catalog) (c : Qwen35Config) (m : Qwen35Manifest)
    → validate_qwen35_manifest catalog c ≡ ok m
    → map key_of (tensors_of m) ≡ model_tensors c ++ layers_keys c c.blocks
unfolding validate_qwen35_manifest
validate_qwen35_manifest-keys catalog c m h =
    let (_, h₁) = throw_if->>-eq-ok (no_plan c.blocks) _ _ h in
    let (embedding, e₁, h₂) = >>=-eq-ok (require_tensor catalog _ _) _ h₁ in
    let (norm, e₂, h₃) = >>=-eq-ok (require_tensor catalog _ _) _ h₂ in
    let (output, e₃, h₄) = >>=-eq-ok (require_tensor catalog _ _) _ h₃ in
    let (layers, e₄, last) = >>=-eq-ok (require_layers catalog c 0 c.blocks) _ h₄ in
    subst
      (λ (m : Qwen35Manifest).
        map key_of (tensors_of m) ≡ model_tensors c ++ layers_keys c c.blocks)
      (ok-injective last)
      (cons (require_tensor-key catalog _ _ embedding e₁) (
        cons (require_tensor-key catalog _ _ norm e₂) (
          cons (require_tensor-key catalog _ _ output e₃)
            (require_layers-keys catalog c 0 c.blocks layers e₄))))
