-- ===== src/Model/Manifest.antt =====
-- cpp/model/qwen35_manifest.{hpp,cpp}: the tensors that the model needs, looked up in the catalog. A
-- pointer to a tensor of the catalog is that tensor.
pub mod Expected
pub mod Accepts
pub mod Listed
pub mod Complete
pub mod Present
use raftinfer.Base.{
  ℕ, zero, suc, ◌+◌, ◌*◌, ◌%◌, ◌^◌, List, [], ◌∷◌, ◌++◌, Option, none, some, Bool, true, false, not,
  ◌&&◌, ◌==◌, if◌then◌else◌, Text, bytes, manifest_error, Result, ok, err, ◌>>=◌, ◌>>◌, throw_if,
}
use raftinfer.Base.Texts.{text_eq, to_string}
use raftinfer.Gguf.Types.{TensorInfo, Catalog}
use raftinfer.Model.Config.{
  Qwen35BlockKind, linear_attention, full_attention, Qwen35BlockPlan, Qwen35Config,
}

pub record Qwen35CommonLayerTensors : Type 0 where
  pub input_norm : TensorInfo
  pub post_attention_norm : TensorInfo
  pub ffn_gate : TensorInfo
  pub ffn_down : TensorInfo
  pub ffn_up : TensorInfo

pub record Qwen35FullAttentionTensors : Type 0 where
  pub query : TensorInfo
  pub key : TensorInfo
  pub value : TensorInfo
  pub output : TensorInfo
  pub query_norm : TensorInfo
  pub key_norm : TensorInfo

pub record Qwen35LinearAttentionTensors : Type 0 where
  pub qkv : TensorInfo
  pub gate : TensorInfo
  pub convolution : TensorInfo
  pub time_step_bias : TensorInfo
  pub recurrent_a : TensorInfo
  pub beta : TensorInfo
  pub alpha : TensorInfo
  pub output_norm : TensorInfo
  pub output : TensorInfo

pub record Qwen35LayerManifest : Type 0 where
  pub index : ℕ
  pub common : Qwen35CommonLayerTensors
  pub full_attention : Option Qwen35FullAttentionTensors
  pub linear_attention : Option Qwen35LinearAttentionTensors

pub record Qwen35Manifest : Type 0 where
  pub token_embedding : TensorInfo
  pub output_norm : TensorInfo
  pub output : TensorInfo
  pub layers : List Qwen35LayerManifest

-- Catalog::find_tensor
abbrev pub find_tensor : List TensorInfo → Text → Option TensorInfo
find_tensor [] name = none
find_tensor (t ∷ ts) name = if text_eq t.name name then some t else find_tensor ts name

abbrev with_dimensions : Option TensorInfo → Text → List ℕ → Result TensorInfo
with_dimensions none name expected = err (manifest_error (bytes "missing Qwen3.5 tensor: " ++ name))
with_dimensions (some t) name expected =
    if text_eq t.dimensions expected
    then ok t
    else err (manifest_error (bytes "Qwen3.5 tensor has an invalid shape: " ++ name))

unfoldable pub require_tensor : Catalog → Text → List ℕ → Result TensorInfo
require_tensor catalog name expected =
    with_dimensions (find_tensor catalog.tensors name) name expected

unfoldable pub block_name : ℕ → Text → Text
block_name index suffix = bytes "blk." ++ to_string index ++ bytes "." ++ suffix

-- The widths are computed in 64 bits.
abbrev pub full_query_width : Qwen35Config → ℕ
full_query_width c = c.full_attention_head_count * c.full_attention_head_dimension

abbrev pub full_kv_width : Qwen35Config → ℕ
full_kv_width c = c.full_attention_kv_head_count * c.full_attention_head_dimension

abbrev pub linear_key_width : Qwen35Config → ℕ
linear_key_width c = c.linear_key_head_count * c.linear_head_dimension

abbrev pub linear_value_width : Qwen35Config → ℕ
linear_value_width c = c.linear_value_head_count * c.linear_head_dimension

abbrev pub linear_qkv_width : Qwen35Config → ℕ
linear_qkv_width c = (linear_key_width c * 2 + linear_value_width c) % 2 ^ 64

unfoldable pub require_common : Catalog → Qwen35Config → ℕ → Result Qwen35CommonLayerTensors
require_common catalog c index = do
  input_norm ←
      require_tensor catalog (block_name index (bytes "attn_norm.weight")) (c.hidden_size ∷ [])
  post_attention_norm ←
      require_tensor catalog (block_name index (bytes "post_attention_norm.weight"))
        (c.hidden_size ∷ [])
  ffn_gate ←
      require_tensor catalog (block_name index (bytes "ffn_gate.weight"))
        (c.hidden_size ∷ c.intermediate_size ∷ [])
  ffn_down ←
      require_tensor catalog (block_name index (bytes "ffn_down.weight"))
        (c.intermediate_size ∷ c.hidden_size ∷ [])
  ffn_up ←
      require_tensor catalog (block_name index (bytes "ffn_up.weight"))
        (c.hidden_size ∷ c.intermediate_size ∷ [])
  ok (record {
    input_norm = input_norm;
    post_attention_norm = post_attention_norm;
    ffn_gate = ffn_gate;
    ffn_down = ffn_down;
    ffn_up = ffn_up;
  })

unfoldable pub require_full_attention :
    Catalog → Qwen35Config → ℕ → Result Qwen35FullAttentionTensors
require_full_attention catalog c index = do
  query ←
      require_tensor catalog (block_name index (bytes "attn_q.weight"))
        (c.hidden_size ∷ (full_query_width c * 2 % 2 ^ 64) ∷ [])
  key ←
      require_tensor catalog (block_name index (bytes "attn_k.weight"))
        (c.hidden_size ∷ full_kv_width c ∷ [])
  value ←
      require_tensor catalog (block_name index (bytes "attn_v.weight"))
        (c.hidden_size ∷ full_kv_width c ∷ [])
  output ←
      require_tensor catalog (block_name index (bytes "attn_output.weight"))
        (full_query_width c ∷ c.hidden_size ∷ [])
  query_norm ←
      require_tensor catalog (block_name index (bytes "attn_q_norm.weight"))
        (c.full_attention_head_dimension ∷ [])
  key_norm ←
      require_tensor catalog (block_name index (bytes "attn_k_norm.weight"))
        (c.full_attention_head_dimension ∷ [])
  ok (record {
    query = query;
    key = key;
    value = value;
    output = output;
    query_norm = query_norm;
    key_norm = key_norm;
  })

unfoldable pub require_linear_attention :
    Catalog → Qwen35Config → ℕ → Result Qwen35LinearAttentionTensors
require_linear_attention catalog c index = do
  qkv ←
      require_tensor catalog (block_name index (bytes "attn_qkv.weight"))
        (c.hidden_size ∷ linear_qkv_width c ∷ [])
  gate ←
      require_tensor catalog (block_name index (bytes "attn_gate.weight"))
        (c.hidden_size ∷ linear_value_width c ∷ [])
  convolution ←
      require_tensor catalog (block_name index (bytes "ssm_conv1d.weight"))
        (c.linear_convolution_width ∷ linear_qkv_width c ∷ [])
  time_step_bias ←
      require_tensor catalog (block_name index (bytes "ssm_dt.bias"))
        (c.linear_value_head_count ∷ [])
  recurrent_a ←
      require_tensor catalog (block_name index (bytes "ssm_a")) (c.linear_value_head_count ∷ [])
  beta ←
      require_tensor catalog (block_name index (bytes "ssm_beta.weight"))
        (c.hidden_size ∷ c.linear_value_head_count ∷ [])
  alpha ←
      require_tensor catalog (block_name index (bytes "ssm_alpha.weight"))
        (c.hidden_size ∷ c.linear_value_head_count ∷ [])
  output_norm ←
      require_tensor catalog (block_name index (bytes "ssm_norm.weight"))
        (c.linear_head_dimension ∷ [])
  output ←
      require_tensor catalog (block_name index (bytes "ssm_out.weight"))
        (linear_value_width c ∷ c.hidden_size ∷ [])
  ok (record {
    qkv = qkv;
    gate = gate;
    convolution = convolution;
    time_step_bias = time_step_bias;
    recurrent_a = recurrent_a;
    beta = beta;
    alpha = alpha;
    output_norm = output_norm;
    output = output;
  })

unfoldable pub require_attention_of :
    Qwen35BlockKind
    → Catalog
    → Qwen35Config
    → ℕ
    → Qwen35CommonLayerTensors
    → Result Qwen35LayerManifest
require_attention_of full_attention catalog c index common = do
  tensors ← require_full_attention catalog c index
  ok (record {
    index = index;
    common = common;
    full_attention = some tensors;
    linear_attention = none;
  })
require_attention_of linear_attention catalog c index common = do
  tensors ← require_linear_attention catalog c index
  ok (record {
    index = index;
    common = common;
    full_attention = none;
    linear_attention = some tensors;
  })

-- One round of the loop.
unfoldable pub require_layer :
    Catalog → Qwen35Config → ℕ → Qwen35BlockPlan → Result Qwen35LayerManifest
require_layer catalog c position block = do
  throw_if (not (block.index == position))
      (manifest_error (bytes "Qwen3.5 block plan indices must be contiguous"))
  common ← require_common catalog c block.index
  require_attention_of block.kind catalog c block.index common

unfoldable pub require_layers :
    Catalog → Qwen35Config → ℕ → List Qwen35BlockPlan → Result (List Qwen35LayerManifest)
require_layers catalog c position [] = ok []
require_layers catalog c position (block ∷ blocks) = do
  layer ← require_layer catalog c position block
  layers ← require_layers catalog c (position + 1) blocks
  ok (layer ∷ layers)

abbrev pub no_plan : List Qwen35BlockPlan → Bool
no_plan [] = true
no_plan (b ∷ bs) = false

unfoldable pub validate_qwen35_manifest : Catalog → Qwen35Config → Result Qwen35Manifest
validate_qwen35_manifest catalog c = do
  throw_if (no_plan c.blocks) (manifest_error (bytes "Qwen3.5 block plan must not be empty"))
  token_embedding ←
      require_tensor catalog (bytes "token_embd.weight") (c.hidden_size ∷ c.vocabulary_size ∷ [])
  output_norm ← require_tensor catalog (bytes "output_norm.weight") (c.hidden_size ∷ [])
  output ← require_tensor catalog (bytes "output.weight") (c.hidden_size ∷ c.vocabulary_size ∷ [])
  layers ← require_layers catalog c 0 c.blocks
  ok (record {
    token_embedding = token_embedding;
    output_norm = output_norm;
    output = output;
    layers = layers;
  })
