-- ===== src/Model/Config.antt =====
-- cpp/model/qwen35_config.hpp: the configuration that the reader derives from a model file.
use raftinfer.Base.{ℕ, List}

pub data Qwen35BlockKind : Type 0 where
  linear_attention full_attention : Qwen35BlockKind

pub record Qwen35BlockPlan : Type 0 where
  pub index : ℕ
  pub kind : Qwen35BlockKind

-- A `float` is its bit pattern.
pub record Qwen35Config : Type 0 where
  pub vocabulary_size : ℕ
  pub hidden_size : ℕ
  pub intermediate_size : ℕ
  pub context_length : ℕ
  pub full_attention_head_count : ℕ
  pub full_attention_kv_head_count : ℕ
  pub full_attention_head_dimension : ℕ
  pub linear_key_head_count : ℕ
  pub linear_value_head_count : ℕ
  pub linear_head_dimension : ℕ
  pub linear_convolution_width : ℕ
  pub rotary_dimension : ℕ
  pub rms_norm_epsilon : ℕ
  pub rope_frequency_base : ℕ
  pub blocks : List Qwen35BlockPlan
