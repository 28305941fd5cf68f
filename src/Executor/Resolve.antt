-- ===== src/Executor/Resolve.antt =====
-- cpp/execution/qwen35_executor.cu: the checks of a configuration and of a policy, and the policy that an
-- executor runs with.
use raftinfer.Base.{
  ℕ, suc, ◌-◌, ◌%◌, List, [], ◌∷◌, Bool, true, false, not, ◌&&◌, ◌||◌, ltb, leb, ◌==◌,
  if◌then◌else◌, Text, bytes, Result, ok, err, executor_error, throw_if, ◌>>=◌, ◌>>◌,
}
use raftinfer.Base.Sizes.{checked_mul}
use raftinfer.Model.Config.{Qwen35BlockPlan, Qwen35Config}
use raftinfer.Registry.Enums.{DataType}
use raftinfer.Session.Policy.{
  Qwen35AttentionImplementation, Qwen35KvCacheDType, Qwen35KvCacheLayout, Qwen35DecodeAttentionMode,
  Qwen35ExecutionPolicy, materialized_reference, auto_select, single_block, split_k_256,
  split_k_512, token_major,
}
use raftinfer.Kernels.Attention.{
  Qwen35AttentionShape, Qwen35AttentionLaunchPolicy, is_known_implementation, is_known_kv_cache,
  is_known_layout,
}
use raftinfer.Kernels.Argmax.{min}
use raftinfer.Kernels.Online.{
  is_cache_layout, qwen35_online_attention_prefill_supported, qwen35_online_decode_plan,
}

-- require
unfoldable pub require : Bool → Text → Result (Unit {0})
require condition message = throw_if (not condition) (executor_error message)

-- `x >= 0.0F` and `x > 0.0F` on the bits of a float; neither holds of a NaN.
abbrev pub at_least_zero : ℕ → Bool
at_least_zero n = leb n 2139095040 || n == 2147483648

abbrev pub above_zero_float : ℕ → Bool
above_zero_float n = not (n == 0) && leb n 2139095040

abbrev is_empty : List Qwen35BlockPlan → Bool
is_empty [] = true
is_empty (b ∷ bs) = false

-- The loop over the blocks; a block's kind is one of the two.
unfoldable pub require_blocks : ℕ → List Qwen35BlockPlan → Result (Unit {0})
require_blocks index [] = ok tt
require_blocks index (block ∷ blocks) = do
  require (block.index == index) (bytes "Qwen3.5 block indices must be contiguous")
  require_blocks (suc index) blocks

unfoldable pub require_counts : Qwen35Config → ℕ → Result (Unit {0})
require_counts config max_context = do
  require (ltb 0 config.vocabulary_size) (bytes "vocabulary_size must be positive")
  require (ltb 0 config.hidden_size) (bytes "hidden_size must be positive")
  require (ltb 0 config.intermediate_size) (bytes "intermediate_size must be positive")
  require (ltb 0 config.context_length) (bytes "context_length must be positive")
  require (ltb 0 max_context) (bytes "max_context must be positive")
  require (leb max_context config.context_length)
      (bytes "max_context exceeds configured context length")
  require (not (is_empty config.blocks)) (bytes "Qwen3.5 config must contain blocks")
  require (at_least_zero config.rms_norm_epsilon) (bytes "rms_norm_epsilon must be non-negative")
  require (above_zero_float config.rope_frequency_base)
      (bytes "rope frequency base must be positive")
  require (ltb 0 config.linear_convolution_width)
      (bytes "linear convolution width must be positive")
  require (ltb 0 config.linear_key_head_count) (bytes "linear key head count must be positive")
  require (ltb 0 config.linear_value_head_count) (bytes "linear value head count must be positive")
  require (ltb 0 config.linear_head_dimension) (bytes "linear head dimension must be positive")
  require (ltb 0 config.full_attention_head_count)
      (bytes "full attention head count must be positive")
  require (ltb 0 config.full_attention_kv_head_count)
      (bytes "full attention KV head count must be positive")
  require (ltb 0 config.full_attention_head_dimension)
      (bytes "full attention head dimension must be positive")

unfoldable pub require_relations : Qwen35Config → Result (Unit {0})
require_relations config = do
  require (ltb 0 config.rotary_dimension) (bytes "rotary dimension must be positive")
  require (leb config.rotary_dimension config.full_attention_head_dimension)
      (bytes "rotary dimension exceeds full attention head dimension")
  require (config.rotary_dimension % 2 == 0) (bytes "rotary dimension must be even")
  require (config.full_attention_head_count % config.full_attention_kv_head_count == 0)
      (bytes "full attention heads must be divisible by KV heads")
  full_width ←
      checked_mul config.full_attention_head_count config.full_attention_head_dimension
        (executor_error (bytes "full attention width overflow"))
  require (full_width == config.hidden_size)
      (bytes "full attention query width must equal hidden_size")
  linear_value_width ←
      checked_mul config.linear_value_head_count config.linear_head_dimension
        (executor_error (bytes "linear value width overflow"))
  require (linear_value_width == config.hidden_size)
      (bytes "linear value width must equal hidden_size")
  require (config.linear_value_head_count % config.linear_key_head_count == 0)
      (bytes "linear value heads must be divisible by key heads")

unfoldable pub validate_config : Qwen35Config → ℕ → Result (Unit {0})
validate_config config max_context = do
  require_counts config max_context
  require_relations config
  require_blocks 0 config.blocks

abbrev pub is_known_mode : Qwen35DecodeAttentionMode → Bool
is_known_mode auto_select = true
is_known_mode single_block = true
is_known_mode split_k_256 = true
is_known_mode split_k_512 = true
is_known_mode _ = false

unfoldable pub validate_execution_policy : Qwen35ExecutionPolicy → Result (Unit {0})
validate_execution_policy policy = do
  require (is_known_implementation policy.attention)
      (bytes "unsupported Qwen3.5 attention implementation")
  require (is_known_kv_cache policy.kv_cache) (bytes "unsupported Qwen3.5 KV cache dtype")
  require (is_known_layout policy.kv_cache_layout) (bytes "unsupported Qwen3.5 KV cache layout")
  require (is_known_mode policy.decode_attention)
      (bytes "unsupported Qwen3.5 decode attention mode")

unfoldable pub attention_launch_policy : Qwen35ExecutionPolicy → Qwen35AttentionLaunchPolicy
attention_launch_policy policy = record {
  implementation = policy.attention;
  kv_cache_dtype = policy.kv_cache;
  kv_cache_layout = policy.kv_cache_layout;
}

unfoldable pub decode_attention_partition_tokens : Qwen35DecodeAttentionMode → Result ℕ
decode_attention_partition_tokens split_k_256 = ok 256
decode_attention_partition_tokens split_k_512 = ok 512
decode_attention_partition_tokens auto_select = ok 0
decode_attention_partition_tokens single_block = ok 0
decode_attention_partition_tokens _ =
    err (executor_error (bytes "unsupported Qwen3.5 decode attention mode"))

unfoldable pub online_decode_supported : Qwen35Config → Qwen35ExecutionPolicy → Bool
online_decode_supported config policy =
    config.full_attention_head_count == 16
    && (config.full_attention_kv_head_count == 4
        && (config.full_attention_head_dimension == 256 && is_cache_layout policy.kv_cache_layout))

-- The shape of attention over `tokens` tokens behind `past_tokens`.
abbrev pub attention_shape : Qwen35Config → ℕ → ℕ → ℕ → Qwen35AttentionShape
attention_shape config max_context tokens past_tokens = record {
  tokens = tokens;
  query_heads = config.full_attention_head_count;
  kv_heads = config.full_attention_kv_head_count;
  head_dim = config.full_attention_head_dimension;
  max_context_tokens = max_context;
  past_tokens = past_tokens;
}

-- kMaxPrefillTokens
abbrev pub max_prefill : ℕ → ℕ
max_prefill max_context = min 512 max_context

unfoldable pub online_supported : Qwen35Config → ℕ → Qwen35ExecutionPolicy → Bool
online_supported config max_context policy =
    let tokens = max_prefill max_context in
    online_decode_supported config policy
    && (not (ltb 1 max_context)
        || qwen35_online_attention_prefill_supported
            (attention_shape config max_context tokens (max_context - tokens)) DataType.f32
            (attention_launch_policy policy))

abbrev pub with_mode : Qwen35ExecutionPolicy → Qwen35DecodeAttentionMode → Qwen35ExecutionPolicy
with_mode policy mode = record policy { decode_attention = mode }

abbrev pub materialized : Qwen35ExecutionPolicy → Qwen35ExecutionPolicy
materialized policy = record policy {
  attention = materialized_reference;
  kv_cache = Qwen35KvCacheDType.f32;
  kv_cache_layout = token_major;
  decode_attention = single_block;
}

-- The mode of a supported online policy.
unfoldable pub select_mode :
    Qwen35Config → ℕ → Qwen35DecodeAttentionMode → Result Qwen35DecodeAttentionMode
select_mode config max_context auto_select = do
  plan ← qwen35_online_decode_plan (attention_shape config max_context 1 0) auto_select 1
  ok plan.resolved_mode
select_mode config max_context mode = ok mode

unfoldable pub resolve_online :
    Qwen35Config → ℕ → Qwen35ExecutionPolicy → Result Qwen35ExecutionPolicy
resolve_online config max_context policy = do
  mode ← select_mode config max_context policy.decode_attention
  partition_tokens ← decode_attention_partition_tokens mode
  ok (
      with_mode policy (
        if not (partition_tokens == 0) && ltb max_context partition_tokens
        then single_block
        else mode))

abbrev is_f32 : Qwen35KvCacheDType → Bool
is_f32 Qwen35KvCacheDType.f32 = true
is_f32 _ = false

abbrev is_token_major : Qwen35KvCacheLayout → Bool
is_token_major token_major = true
is_token_major _ = false

unfoldable pub resolve_materialized : Qwen35ExecutionPolicy → Result Qwen35ExecutionPolicy
resolve_materialized policy = do
  require (is_f32 policy.kv_cache) (bytes "materialized attention requires an F32 KV cache")
  require (is_token_major policy.kv_cache_layout)
      (bytes "materialized attention requires a token-major KV cache")
  ok (with_mode policy single_block)

-- What stands behind the checks, by the implementation that is asked for.
unfoldable pub resolve_by :
    Qwen35AttentionImplementation
    → Qwen35Config
    → ℕ
    → Qwen35ExecutionPolicy
    → Result Qwen35ExecutionPolicy
resolve_by materialized_reference config max_context policy = resolve_materialized policy
resolve_by _ config max_context policy =
    if online_supported config max_context policy
    then resolve_online config max_context policy
    else ok (materialized policy)

unfoldable pub resolve_execution_policy :
    Qwen35Config → ℕ → Qwen35ExecutionPolicy → Result Qwen35ExecutionPolicy
resolve_execution_policy config max_context requested = do
  validate_config config max_context
  validate_execution_policy requested
  resolve_by requested.attention config max_context requested
