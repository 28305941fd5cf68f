-- ===== src/Model/Derive.antt =====
-- derive_qwen35_config of cpp/model/qwen35_config.cpp, in its four parts: the metadata that it reads,
-- the checks on them, the layer types, and the loop that plans the blocks.
pub mod Checked
pub mod Blocks
pub mod Plan
use raftinfer.Base.{
  ℕ, zero, suc, ◌+◌, ◌-◌, ◌*◌, ◌/◌, ◌%◌, ◌^◌, List, [], ◌∷◌, Option, none, some, Bool, true, false,
  not, ◌&&◌, ◌||◌, ltb, leb, ◌==◌, if◌then◌else◌, Text, bytes, config_error, Result, ok, err, ◌>>=◌,
  ◌>>◌, throw_if, u32_max,
}
use raftinfer.Base.Texts.{text_eq}
use raftinfer.Gguf.Types.{MetadataType, MetadataValue, MetadataValues, Catalog, find_metadata}
use raftinfer.Model.Config.{
  Qwen35BlockKind, linear_attention, full_attention, Qwen35BlockPlan, Qwen35Config,
}
use raftinfer.Model.Fields.{
  is_finite_float, not_above_zero, require_key, require_u32, optional_u32, require_float,
  require_field, parse_layer_type, count_values, is_string,
}

-- The local variables of the function and the fields that it has read.
pub record Fields : Type 0 where
  pub hidden_size : ℕ
  pub intermediate_size : ℕ
  pub context_length : ℕ
  pub total_block_count : ℕ
  pub nextn_predict_layers : ℕ
  pub head_count : ℕ
  pub kv_head_count : ℕ
  pub key_length : ℕ
  pub value_length : ℕ
  pub rms_norm_epsilon : ℕ
  pub rope_frequency_base : ℕ
  pub rotary_dimension : ℕ
  pub convolution_width : ℕ
  pub state_size : ℕ
  pub group_count : ℕ
  pub time_step_rank : ℕ
  pub inner_size : ℕ
  pub full_attention_interval : ℕ
  pub vocabulary_size : ℕ

not_qwen35 : Result (Unit {0})
not_qwen35 = err (config_error (bytes "general.architecture must be qwen35"))

unfoldable pub require_architecture : MetadataValue → Result (Unit {0})
unfolding not_qwen35
require_architecture (MetadataValue.string name) =
    if text_eq name (bytes "qwen35") then ok tt else not_qwen35
require_architecture _ = not_qwen35

abbrev not_tokens : Result ℕ
not_tokens = err (config_error (bytes "tokenizer.ggml.tokens must be a nonempty string array"))

unfoldable pub token_count : MetadataValue → Result ℕ
token_count (MetadataValue.array type values) =
    if not (is_string type) || (count_values values == 0 || ltb u32_max (count_values values))
    then not_tokens
    else ok (count_values values)
token_count _ = not_tokens

unfoldable pub read_fields : (ℕ → ℕ) → Catalog → Result Fields
read_fields narrow catalog = do
  architecture ← require_key catalog (bytes "general.architecture")
  require_architecture architecture
  hidden_size ← require_u32 catalog (bytes "qwen35.embedding_length")
  intermediate_size ← require_u32 catalog (bytes "qwen35.feed_forward_length")
  context_length ← require_u32 catalog (bytes "qwen35.context_length")
  total_block_count ← require_u32 catalog (bytes "qwen35.block_count")
  nextn ← optional_u32 catalog (bytes "qwen35.nextn_predict_layers") 0
  head_count ← require_u32 catalog (bytes "qwen35.attention.head_count")
  kv_head_count ← require_u32 catalog (bytes "qwen35.attention.head_count_kv")
  key_length ← require_u32 catalog (bytes "qwen35.attention.key_length")
  value_length ← require_u32 catalog (bytes "qwen35.attention.value_length")
  epsilon ← require_float narrow catalog (bytes "qwen35.attention.layer_norm_rms_epsilon")
  frequency ← require_float narrow catalog (bytes "qwen35.rope.freq_base")
  rotary_dimension ← require_u32 catalog (bytes "qwen35.rope.dimension_count")
  width ← require_u32 catalog (bytes "qwen35.ssm.conv_kernel")
  state_size ← require_u32 catalog (bytes "qwen35.ssm.state_size")
  group_count ← require_u32 catalog (bytes "qwen35.ssm.group_count")
  time_step_rank ← require_u32 catalog (bytes "qwen35.ssm.time_step_rank")
  inner_size ← require_u32 catalog (bytes "qwen35.ssm.inner_size")
  interval ← require_u32 catalog (bytes "qwen35.full_attention_interval")
  tokens ← require_key catalog (bytes "tokenizer.ggml.tokens")
  vocabulary_size ← token_count tokens
  ok (record {
    hidden_size = hidden_size;
    intermediate_size = intermediate_size;
    context_length = context_length;
    total_block_count = total_block_count;
    nextn_predict_layers = nextn;
    head_count = head_count;
    kv_head_count = kv_head_count;
    key_length = key_length;
    value_length = value_length;
    rms_norm_epsilon = epsilon;
    rope_frequency_base = frequency;
    rotary_dimension = rotary_dimension;
    convolution_width = width;
    state_size = state_size;
    group_count = group_count;
    time_step_rank = time_step_rank;
    inner_size = inner_size;
    full_attention_interval = interval;
    vocabulary_size = vocabulary_size;
  })

unfoldable pub require_fields : Fields → Result (Unit {0})
require_fields f = do
  require_field f.hidden_size (bytes "qwen35.embedding_length")
  require_field f.intermediate_size (bytes "qwen35.feed_forward_length")
  require_field f.context_length (bytes "qwen35.context_length")
  require_field f.total_block_count (bytes "qwen35.block_count")
  require_field f.head_count (bytes "qwen35.attention.head_count")
  require_field f.kv_head_count (bytes "qwen35.attention.head_count_kv")
  require_field f.key_length (bytes "qwen35.attention.key_length")
  require_field f.value_length (bytes "qwen35.attention.value_length")
  require_field f.convolution_width (bytes "qwen35.ssm.conv_kernel")
  require_field f.state_size (bytes "qwen35.ssm.state_size")
  require_field f.group_count (bytes "qwen35.ssm.group_count")
  require_field f.time_step_rank (bytes "qwen35.ssm.time_step_rank")
  require_field f.inner_size (bytes "qwen35.ssm.inner_size")
  require_field f.full_attention_interval (bytes "qwen35.full_attention_interval")

-- The number of linear value heads.
abbrev pub value_heads : Fields → ℕ
value_heads f = f.inner_size / f.state_size

-- The product of two 32-bit numbers fits the 64 bits it has.
unfoldable pub require_attention : Fields → Result (Unit {0})
require_attention f = do
  throw_if (not (f.key_length == f.value_length))
      (config_error (bytes "Qwen3.5 attention key/value dimensions must match"))
  throw_if (not (f.head_count % f.kv_head_count == 0))
      (config_error (bytes "Qwen3.5 query heads must be divisible by KV heads"))
  throw_if (not (f.head_count * f.key_length == f.hidden_size))
      (config_error (bytes "Qwen3.5 attention heads do not match the hidden size"))

unfoldable pub require_linear : Fields → Result (Unit {0})
require_linear f = do
  throw_if (not (f.inner_size % f.state_size == 0))
      (config_error (bytes "Qwen3.5 SSM inner size must be divisible by state size"))
  throw_if (ltb (value_heads f) f.group_count || not (value_heads f % f.group_count == 0))
      (config_error (bytes "Qwen3.5 linear value heads must be a multiple of key heads"))
  throw_if (not (f.time_step_rank == value_heads f))
      (config_error (bytes "Qwen3.5 SSM time-step rank must match the value-head count"))

unfoldable pub require_positions : Fields → Result (Unit {0})
require_positions f = do
  throw_if
      (f.rotary_dimension == 0
        || (ltb f.key_length f.rotary_dimension || not (f.rotary_dimension % 2 == 0)))
      (config_error (bytes "Qwen3.5 rotary dimension is invalid"))
  throw_if (not (is_finite_float f.rms_norm_epsilon) || not_above_zero f.rms_norm_epsilon)
      (config_error (bytes "Qwen3.5 RMSNorm epsilon must be positive"))
  throw_if (not (is_finite_float f.rope_frequency_base) || not_above_zero f.rope_frequency_base)
      (config_error (bytes "Qwen3.5 RoPE frequency base must be positive"))

unfoldable pub require_block_count : Fields → Result (Unit {0})
require_block_count f = do
  throw_if (leb f.total_block_count f.nextn_predict_layers)
      (config_error (bytes "qwen35.nextn_predict_layers must be smaller than block count"))
  throw_if (not ((f.total_block_count - f.nextn_predict_layers) % f.full_attention_interval == 0))
      (config_error (bytes "Qwen3.5 block count must be divisible by the attention interval"))

-- The relations between the fields.
unfoldable pub require_relations : Fields → Result (Unit {0})
require_relations f = do
  require_attention f
  require_linear f
  require_positions f
  require_block_count f

bad_layer_types : Result (Option MetadataValues)
bad_layer_types =
    err (config_error (bytes "qwen35.layer_types must be a string array matching block count"))

-- The layer types, where the file has them.
unfoldable pub layer_types_of : Option MetadataValue → ℕ → Result (Option MetadataValues)
unfolding bad_layer_types
layer_types_of none main_block_count = ok none
layer_types_of (some (MetadataValue.array type values)) main_block_count =
    if not (is_string type) || not (count_values values == main_block_count)
    then bad_layer_types
    else ok (some values)
layer_types_of (some _) main_block_count = bad_layer_types

abbrev pub interval_kind : ℕ → ℕ → Qwen35BlockKind
interval_kind interval index =
    if (index + 1) % 2 ^ 32 % interval == 0 then full_attention else linear_attention

abbrev pub same_kind : Qwen35BlockKind → Qwen35BlockKind → Bool
same_kind full_attention full_attention = true
same_kind linear_attention linear_attention = true
same_kind _ _ = false

-- The loop without layer types, from block `index` on with `count` blocks to go.
unfoldable pub interval_blocks : ℕ → ℕ → ℕ → List Qwen35BlockPlan
interval_blocks interval index zero = []
interval_blocks interval index (suc count) =
    (record { index = index; kind = interval_kind interval index })
    ∷ interval_blocks interval (index + 1) count

-- The loop with layer types; there are as many as blocks.
unfoldable pub typed_blocks : ℕ → ℕ → MetadataValues → Result (List Qwen35BlockPlan)
typed_blocks interval index MetadataValues.empty = ok []
typed_blocks interval index (MetadataValues.cons value values) = do
  kind ← parse_layer_type value index
  throw_if (not (same_kind kind (interval_kind interval index)))
      (config_error (bytes "qwen35.layer_types disagrees with qwen35.full_attention_interval"))
  rest ← typed_blocks interval (index + 1) values
  ok ((record { index = index; kind = kind }) ∷ rest)

unfoldable pub plan_blocks : ℕ → ℕ → Option MetadataValues → Result (List Qwen35BlockPlan)
plan_blocks interval count none = ok (interval_blocks interval 0 count)
plan_blocks interval count (some values) = typed_blocks interval 0 values

abbrev pub config_of : Fields → List Qwen35BlockPlan → Qwen35Config
config_of f blocks = record {
  vocabulary_size = f.vocabulary_size;
  hidden_size = f.hidden_size;
  intermediate_size = f.intermediate_size;
  context_length = f.context_length;
  full_attention_head_count = f.head_count;
  full_attention_kv_head_count = f.kv_head_count;
  full_attention_head_dimension = f.key_length;
  linear_key_head_count = f.group_count;
  linear_value_head_count = value_heads f;
  linear_head_dimension = f.state_size;
  linear_convolution_width = f.convolution_width;
  rotary_dimension = f.rotary_dimension;
  rms_norm_epsilon = f.rms_norm_epsilon;
  rope_frequency_base = f.rope_frequency_base;
  blocks = blocks;
}

unfoldable pub derive_qwen35_config : (ℕ → ℕ) → Catalog → Result Qwen35Config
derive_qwen35_config narrow catalog = do
  f ← read_fields narrow catalog
  require_fields f
  require_relations f
  let main_block_count = f.total_block_count - f.nextn_predict_layers
  layer_types ← layer_types_of (find_metadata catalog (bytes "qwen35.layer_types")) main_block_count
  blocks ← plan_blocks f.full_attention_interval main_block_count layer_types
  ok (config_of f blocks)
