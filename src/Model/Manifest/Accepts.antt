-- ===== src/Model/Manifest/Accepts.antt =====
-- Which catalogs validate_qwen35_manifest of cpp/model/qwen35_manifest.cpp accepts.
use raftinfer.Base.{
  ℕ, ◌+◌, List, [], ◌∷◌, Bool, true, false, not, ◌&&◌, ◌==◌, bytes, Error, throw_if, ◌≡◌, refl, ◌∙◌,
}
use raftinfer.Gguf.Types.{Catalog}
use raftinfer.Model.Config.{
  Qwen35BlockKind, linear_attention, full_attention, Qwen35BlockPlan, Qwen35Config,
}
use raftinfer.Model.Manifest.{
  Qwen35CommonLayerTensors, require_common, require_full_attention, require_linear_attention,
  require_attention_of, require_layer, require_layers, no_plan, validate_qwen35_manifest,
}
use raftinfer.Model.Manifest.Expected.{
  common_tensors, attention_tensors, model_tensors, has_all, has_block, has_blocks, has_tensor,
  is_ok, is_ok->>=, is_ok-require_tensor,
}

is_ok-require_common :
    (catalog : Catalog) (c : Qwen35Config) (index : ℕ)
    → is_ok (require_common catalog c index) ≡ has_block catalog index (common_tensors c)
unfolding require_common
is_ok-require_common catalog c index = is_ok->>= _ _ _ _ (is_ok-require_tensor catalog _ _) (λ _.
    is_ok->>= _ _ _ _ (is_ok-require_tensor catalog _ _) (λ _.
      is_ok->>= _ _ _ _ (is_ok-require_tensor catalog _ _) (λ _.
        is_ok->>= _ _ _ _ (is_ok-require_tensor catalog _ _)
          (λ _. is_ok->>= _ _ _ _ (is_ok-require_tensor catalog _ _) (λ _. refl)))))

is_ok-require_full_attention :
    (catalog : Catalog) (c : Qwen35Config) (index : ℕ)
    → is_ok (require_full_attention catalog c index)
      ≡ has_block catalog index (attention_tensors full_attention c)
unfolding require_full_attention
is_ok-require_full_attention catalog c index =
    is_ok->>= _ _ _ _ (is_ok-require_tensor catalog _ _) (λ _.
      is_ok->>= _ _ _ _ (is_ok-require_tensor catalog _ _) (λ _.
        is_ok->>= _ _ _ _ (is_ok-require_tensor catalog _ _) (λ _.
          is_ok->>= _ _ _ _ (is_ok-require_tensor catalog _ _) (λ _.
            is_ok->>= _ _ _ _ (is_ok-require_tensor catalog _ _)
              (λ _. is_ok->>= _ _ _ _ (is_ok-require_tensor catalog _ _) (λ _. refl))))))

is_ok-require_linear_attention :
    (catalog : Catalog) (c : Qwen35Config) (index : ℕ)
    → is_ok (require_linear_attention catalog c index)
      ≡ has_block catalog index (attention_tensors linear_attention c)
unfolding require_linear_attention
is_ok-require_linear_attention catalog c index =
    is_ok->>= _ _ _ _ (is_ok-require_tensor catalog _ _) (λ _.
      is_ok->>= _ _ _ _ (is_ok-require_tensor catalog _ _) (λ _.
        is_ok->>= _ _ _ _ (is_ok-require_tensor catalog _ _) (λ _.
          is_ok->>= _ _ _ _ (is_ok-require_tensor catalog _ _) (λ _.
            is_ok->>= _ _ _ _ (is_ok-require_tensor catalog _ _) (λ _.
              is_ok->>= _ _ _ _ (is_ok-require_tensor catalog _ _) (λ _.
                is_ok->>= _ _ _ _ (is_ok-require_tensor catalog _ _) (λ _.
                  is_ok->>= _ _ _ _ (is_ok-require_tensor catalog _ _)
                    (λ _. is_ok->>= _ _ _ _ (is_ok-require_tensor catalog _ _) (λ _. refl)))))))))

&&_true_right : (b : Bool) → (b && true) ≡ b
&&_true_right true = refl
&&_true_right false = refl

is_ok-require_attention_of :
    (kind : Qwen35BlockKind) (catalog : Catalog) (c : Qwen35Config) (index : ℕ)
    (common : Qwen35CommonLayerTensors)
    → is_ok (require_attention_of kind catalog c index common)
      ≡ has_block catalog index (attention_tensors kind c)
unfolding require_attention_of
is_ok-require_attention_of full_attention catalog c index common =
    is_ok->>= _ _ _ true (is_ok-require_full_attention catalog c index) (λ _. refl)
    ∙ &&_true_right _
is_ok-require_attention_of linear_attention catalog c index common =
    is_ok->>= _ _ _ true (is_ok-require_linear_attention catalog c index) (λ _. refl)
    ∙ &&_true_right _

is_ok-throw_if : (b : Bool) (e : Error) → is_ok (throw_if (not b) e) ≡ b
is_ok-throw_if true e = refl
is_ok-throw_if false e = refl

is_ok-throw : (b : Bool) (e : Error) → is_ok (throw_if b e) ≡ not b
is_ok-throw true e = refl
is_ok-throw false e = refl

&&_regroup : (a b c d : Bool) → (a && (b && (c && d))) ≡ ((a && (b && (c && true))) && d)
&&_regroup true true true d = refl
&&_regroup true true false d = refl
&&_regroup true false c d = refl
&&_regroup false b c d = refl

&&_assoc : (a b c d : Bool) → (a && (b && c) && d) ≡ (a && (b && (c && d)))
&&_assoc true true c d = refl
&&_assoc true false c d = refl
&&_assoc false b c d = refl

is_ok-require_layer :
    (catalog : Catalog) (c : Qwen35Config) (position : ℕ) (block : Qwen35BlockPlan)
    → is_ok (require_layer catalog c position block) ≡ (
        (block.index == position)
        && (has_block catalog block.index (common_tensors c)
            && has_block catalog block.index (attention_tensors block.kind c)))
unfolding require_layer
is_ok-require_layer catalog c position block =
    is_ok->>= _ _ _ _ (is_ok-throw_if (block.index == position) _) (λ _.
      is_ok->>= _ _ _ _ (is_ok-require_common catalog c block.index)
        (λ common. is_ok-require_attention_of block.kind catalog c block.index common))

is_ok-require_layers :
    (catalog : Catalog) (c : Qwen35Config) (position : ℕ) (blocks : List Qwen35BlockPlan)
    → is_ok (require_layers catalog c position blocks) ≡ has_blocks catalog c position blocks
unfolding require_layers
is_ok-require_layers catalog c position [] = refl
is_ok-require_layers catalog c position (block ∷ blocks) =
    is_ok->>= _ _ _ _ (is_ok-require_layer catalog c position block) (λ layer.
      is_ok->>= _ _ _ true (is_ok-require_layers catalog c (position + 1) blocks) (λ _. refl)
      ∙ &&_true_right _)
    ∙ &&_assoc (block.index == position) (has_block catalog block.index (common_tensors c))
        (has_block catalog block.index (attention_tensors block.kind c))
        (has_blocks catalog c (position + 1) blocks)

-- The same for the whole, as one Boolean.
pub is_ok-validate_qwen35_manifest :
    (catalog : Catalog) (c : Qwen35Config)
    → is_ok (validate_qwen35_manifest catalog c) ≡ (
        not (no_plan c.blocks)
        && (has_all catalog (model_tensors c) && has_blocks catalog c 0 c.blocks))
unfolding validate_qwen35_manifest
is_ok-validate_qwen35_manifest catalog c =
    is_ok->>= _ _ _ _ (is_ok-throw (no_plan c.blocks) _) (λ _.
      is_ok->>= _ _ _ _ (is_ok-require_tensor catalog _ _) (λ _.
        is_ok->>= _ _ _ _ (is_ok-require_tensor catalog _ _) (λ _.
          is_ok->>= _ _ _ _ (is_ok-require_tensor catalog _ _) (λ _.
            is_ok->>= _ _ _ true (is_ok-require_layers catalog c 0 c.blocks) (λ _. refl)
            ∙ &&_true_right _)))
      ∙ &&_regroup
          (has_tensor catalog (bytes "token_embd.weight") (c.hidden_size ∷ c.vocabulary_size ∷ []))
          (has_tensor catalog (bytes "output_norm.weight") (c.hidden_size ∷ []))
          (has_tensor catalog (bytes "output.weight") (c.hidden_size ∷ c.vocabulary_size ∷ []))
          (has_blocks catalog c 0 c.blocks))
