-- ===== src/Model/Tests.antt =====
-- Runs of derive_qwen35_config and validate_qwen35_manifest (cpp/model) on a model of two blocks.
use raftinfer.Base.{
  ℕ, List, [], ◌∷◌, ◌++◌, map, true, Text, bytes, manifest_error, ok, err, ◌≡◌, ◌↔◌, refl, arith,
}
use raftinfer.Base.Texts.{text_eq}
use raftinfer.Gguf.Types.{MetadataType, MetadataValue, MetadataValues, TensorInfo, Catalog}
use raftinfer.Model.Config.{linear_attention, full_attention, Qwen35Config}
use raftinfer.Model.Fields.{
  require_key, require_u32_value, require_u32, optional_u32, require_float_value, require_float,
  require_field,
}
use raftinfer.Model.Derive.{
  require_architecture, token_count, read_fields, require_fields, require_attention, require_linear,
  require_positions, require_block_count, require_relations, layer_types_of, interval_blocks,
  plan_blocks, derive_qwen35_config,
}
use raftinfer.Model.Derive.Checked.{IsWellFormed, HasPlan, derive_qwen35_config-IsWellFormed}
use raftinfer.Model.Manifest.{
  block_name, require_tensor, require_common, require_full_attention, require_linear_attention,
  require_attention_of, require_layer, require_layers, validate_qwen35_manifest,
}
use raftinfer.Model.Manifest.Expected.{
  Expected, is_ok, model_tensors, common_tensors, attention_tensors,
}
use raftinfer.Model.Manifest.Complete.{Returns, IsComplete}
use raftinfer.Model.Manifest.Present.{validate_qwen35_manifest-IsComplete}

abbrev number : Text → ℕ → Text × MetadataValue
number key n = (key, MetadataValue.uint32 n)

abbrev small_metadata : List (Text × MetadataValue)
small_metadata =
    (bytes "general.architecture", MetadataValue.string (bytes "qwen35"))
    ∷ number (bytes "qwen35.embedding_length") 8
    ∷ number (bytes "qwen35.feed_forward_length") 12
    ∷ number (bytes "qwen35.context_length") 16
    ∷ number (bytes "qwen35.block_count") 2
    ∷ number (bytes "qwen35.attention.head_count") 2
    ∷ number (bytes "qwen35.attention.head_count_kv") 1
    ∷ number (bytes "qwen35.attention.key_length") 4
    ∷ number (bytes "qwen35.attention.value_length") 4
    ∷ (bytes "qwen35.attention.layer_norm_rms_epsilon", MetadataValue.float32 897988541)
    ∷ (bytes "qwen35.rope.freq_base", MetadataValue.float32 1259902592)
    ∷ number (bytes "qwen35.rope.dimension_count") 2
    ∷ number (bytes "qwen35.ssm.conv_kernel") 4
    ∷ number (bytes "qwen35.ssm.state_size") 2
    ∷ number (bytes "qwen35.ssm.group_count") 1
    ∷ number (bytes "qwen35.ssm.time_step_rank") 2
    ∷ number (bytes "qwen35.ssm.inner_size") 4
    ∷ number (bytes "qwen35.full_attention_interval") 2
    ∷ (
      bytes "tokenizer.ggml.tokens",
      MetadataValue.array MetadataType.string
          (MetadataValues.cons (MetadataValue.string (bytes "a")) MetadataValues.empty),
    )
    ∷ []

abbrev pub small_config : Qwen35Config
small_config = record {
  vocabulary_size = 1;
  hidden_size = 8;
  intermediate_size = 12;
  context_length = 16;
  full_attention_head_count = 2;
  full_attention_kv_head_count = 1;
  full_attention_head_dimension = 4;
  linear_key_head_count = 1;
  linear_value_head_count = 2;
  linear_head_dimension = 2;
  linear_convolution_width = 4;
  rotary_dimension = 2;
  rms_norm_epsilon = 897988541;
  rope_frequency_base = 1259902592;
  blocks =
      (record { index = 0; kind = linear_attention })
      ∷ (record { index = 1; kind = full_attention })
      ∷ [];
}

abbrev tensor : Expected → TensorInfo
tensor e = record { name = e.0; dimensions = e.1; type = 0; offset = 0; byte_size = 4 }

abbrev block_tensors : ℕ → List Expected → List TensorInfo
block_tensors index = map (λ e. tensor (block_name index e.0, e.1))

abbrev pub small_catalog : List TensorInfo → Catalog
small_catalog tensors = record {
  version = 3;
  alignment = 32;
  tensor_data_offset = 0;
  metadata = small_metadata;
  tensors = tensors;
}

-- No double stands in this file.
abbrev pub unused : ℕ → ℕ
unused n = n

abbrev small_tensors : List TensorInfo
small_tensors =
    map tensor (model_tensors small_config)
    ++ block_tensors 0 (common_tensors small_config)
    ++ block_tensors 0 (attention_tensors linear_attention small_config)
    ++ block_tensors 1 (common_tensors small_config)
    ++ block_tensors 1 (attention_tensors full_attention small_config)

pub small_is_derived : derive_qwen35_config unused (small_catalog []) ≡ ok small_config
unfolding require_key require_u32_value require_u32 optional_u32 require_float_value require_float
    require_field require_architecture token_count read_fields require_fields require_attention
    require_linear require_positions require_block_count require_relations layer_types_of
    interval_blocks plan_blocks derive_qwen35_config text_eq bytes
small_is_derived = refl

derive_qwen35_config-IsWellFormed_example :
    IsWellFormed small_config × HasPlan (small_catalog []) small_config
derive_qwen35_config-IsWellFormed_example =
    derive_qwen35_config-IsWellFormed unused (small_catalog []) small_config small_is_derived
      (omega arith)

validate_qwen35_manifest-IsComplete_example :
    Returns (small_catalog small_tensors) small_config
    ↔ IsComplete (small_catalog small_tensors) small_config
validate_qwen35_manifest-IsComplete_example =
    validate_qwen35_manifest-IsComplete (small_catalog small_tensors) small_config

small_is_accepted :
    is_ok (validate_qwen35_manifest (small_catalog small_tensors) small_config) ≡ true
unfolding validate_qwen35_manifest require_tensor require_common require_full_attention
    require_linear_attention require_attention_of require_layer require_layers block_name text_eq
    bytes
small_is_accepted = refl

norm_is_missing :
    validate_qwen35_manifest
      (small_catalog (tensor (bytes "token_embd.weight", 8 ∷ 1 ∷ []) ∷ []))
      small_config
    ≡ err (manifest_error (bytes "missing Qwen3.5 tensor: output_norm.weight"))
unfolding validate_qwen35_manifest require_tensor text_eq bytes
norm_is_missing = refl
