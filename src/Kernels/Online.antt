-- ===== src/Kernels/Online.antt =====
-- cpp/kernels/qwen35_online_attention.cu: what online attention supports, and the plan and the workspace of
-- its decode step.
use raftinfer.Base.{
  ℕ, zero, suc, ◌+◌, ◌-◌, ◌*◌, ◌/◌, ◌%◌, Option, none, some, Bool, true, false, not, ◌&&◌, ◌||◌,
  ltb, leb, ◌==◌, if◌then◌else◌, Text, bytes, Result, ok, err, primitive_error, ◌>>=◌, ◌>>◌,
  size_max,
}
use raftinfer.Base.Sizes.{checked_add, checked_mul}
use raftinfer.Registry.Enums.{DataType}
use raftinfer.Session.Policy.{
  Qwen35AttentionImplementation, Qwen35KvCacheDType, Qwen35KvCacheLayout, Qwen35DecodeAttentionMode,
  online_tiled, auto_select, single_block, split_k_256, split_k_512, token_major, head_major,
}
use raftinfer.Kernels.Attention.{Qwen35AttentionShape, Qwen35AttentionLaunchPolicy, require}

abbrev int_max : ℕ
int_max = 2147483647

abbrev pub multiplication_fits : ℕ → ℕ → Bool
multiplication_fits lhs rhs = lhs == 0 || leb rhs (size_max / lhs)

-- The switch on the type of the cache; none is the default.
abbrev pub cache_element_bytes : Qwen35KvCacheDType → Option ℕ
cache_element_bytes Qwen35KvCacheDType.f32 = some 4
cache_element_bytes Qwen35KvCacheDType.bf16 = some 2
cache_element_bytes _ = none

abbrev pub is_online_activation : DataType → Bool
is_online_activation DataType.f32 = true
is_online_activation DataType.bf16 = true
is_online_activation _ = false

abbrev pub is_cache_layout : Qwen35KvCacheLayout → Bool
is_cache_layout token_major = true
is_cache_layout head_major = true
is_cache_layout _ = false

-- The tests of the shape alone.
unfoldable pub prefill_shape_supported : Qwen35AttentionShape → Bool
prefill_shape_supported s =
    not (leb s.tokens 1)
    && not (s.query_heads == 0)
    && not (s.kv_heads == 0)
    && not (s.head_dim == 0)
    && not (ltb 256 s.head_dim)
    && not (s.max_context_tokens == 0)
    && s.query_heads % s.kv_heads == 0
    && not (ltb s.max_context_tokens s.past_tokens)
    && not (ltb (s.max_context_tokens - s.past_tokens) s.tokens)

-- The tests of the grids and the sizes. A product is formed where its test has passed.
unfoldable pub prefill_sizes_supported : Qwen35AttentionShape → ℕ → Bool
prefill_sizes_supported s element_bytes =
    let query_tiles = s.tokens / 4 + (if s.tokens % 4 == 0 then 0 else 1) in
    let kv_size = s.kv_heads * s.head_dim in
    let kv_elements = s.tokens * kv_size in
    let append_blocks = kv_elements / 256 + (if kv_elements % 256 == 0 then 0 else 1) in
    let cache_plane = s.max_context_tokens * kv_size in
    not (ltb int_max s.query_heads)
    && not (ltb 65535 query_tiles)
    && multiplication_fits s.kv_heads s.head_dim
    && multiplication_fits s.tokens kv_size
    && multiplication_fits s.max_context_tokens kv_size
    && multiplication_fits s.query_heads s.head_dim
    && not (ltb int_max append_blocks)
    && multiplication_fits s.tokens (s.query_heads * s.head_dim)
    && multiplication_fits 2 cache_plane
    && multiplication_fits (2 * cache_plane) element_bytes

abbrev pub sizes_with : Qwen35AttentionShape → Option ℕ → Bool
sizes_with s none = false
sizes_with s (some element_bytes) = prefill_sizes_supported s element_bytes

unfoldable pub online_prefill_signature_supported :
    Qwen35AttentionShape → DataType → Qwen35KvCacheDType → Qwen35KvCacheLayout → Bool
online_prefill_signature_supported s activation_dtype cache_dtype cache_layout =
    prefill_shape_supported s
    && is_online_activation activation_dtype
    && is_cache_layout cache_layout
    && sizes_with s (cache_element_bytes cache_dtype)

abbrev pub is_online : Qwen35AttentionImplementation → Bool
is_online online_tiled = true
is_online _ = false

unfoldable pub qwen35_online_attention_prefill_supported :
    Qwen35AttentionShape → DataType → Qwen35AttentionLaunchPolicy → Bool
qwen35_online_attention_prefill_supported s activation_dtype policy =
    is_online policy.implementation
    && online_prefill_signature_supported s activation_dtype policy.kv_cache_dtype
        policy.kv_cache_layout

unfoldable pub online_decode_model_signature_supported : Qwen35AttentionShape → Bool
online_decode_model_signature_supported s =
    s.tokens == 1
    && s.query_heads == 16
    && s.kv_heads == 4
    && s.head_dim == 256
    && not (s.max_context_tokens == 0)

unfoldable pub ceil_div : ℕ → ℕ → Text → Result ℕ
ceil_div numerator denominator message = do
  require (not (denominator == 0)) message
  ok (numerator / denominator + (if numerator % denominator == 0 then 0 else 1))

unfoldable pub partition_tokens_for_mode : Qwen35DecodeAttentionMode → Result ℕ
partition_tokens_for_mode split_k_256 = ok 256
partition_tokens_for_mode split_k_512 = ok 512
partition_tokens_for_mode single_block = ok 0
partition_tokens_for_mode auto_select = ok 0
partition_tokens_for_mode _ =
    err (primitive_error (bytes "unsupported online decode attention mode"))

-- The loop of context_bucket_tokens. The bucket doubles in each round, so 64 rounds are enough.
unfoldable pub grow_bucket : ℕ → ℕ → ℕ → ℕ → ℕ
grow_bucket zero max_context context bucket = bucket
grow_bucket (suc rounds) max_context context bucket =
    let next = grow_bucket rounds max_context context (bucket * 2) in
    if ltb bucket context && ltb bucket max_context
    then if ltb (size_max / 2) bucket then max_context else next
    else bucket

unfoldable pub context_bucket_tokens : Qwen35AttentionShape → ℕ → ℕ
context_bucket_tokens s context_tokens =
    let bucket = grow_bucket 64 s.max_context_tokens context_tokens 512 in
    if ltb bucket s.max_context_tokens then bucket else s.max_context_tokens

pub record Qwen35OnlineDecodePlan : Type 0 where
  pub resolved_mode : Qwen35DecodeAttentionMode
  pub partition_tokens : ℕ
  pub split_k_threshold_tokens : ℕ
  pub context_bucket_tokens : ℕ
  pub active_partition_capacity : ℕ

abbrev pub resolve_mode : Qwen35DecodeAttentionMode → Qwen35DecodeAttentionMode
resolve_mode auto_select = split_k_256
resolve_mode single_block = single_block
resolve_mode split_k_256 = split_k_256
resolve_mode split_k_512 = split_k_512
resolve_mode (Qwen35DecodeAttentionMode.unknown n) = Qwen35DecodeAttentionMode.unknown n

abbrev pub plan_of : Qwen35DecodeAttentionMode → ℕ → ℕ → Result Qwen35OnlineDecodePlan
plan_of mode zero bucket = ok (record {
  resolved_mode = mode;
  partition_tokens = 0;
  split_k_threshold_tokens = 0;
  context_bucket_tokens = bucket;
  active_partition_capacity = 1;
})
plan_of mode (suc n) bucket = do
  capacity ← ceil_div bucket (suc n) (bytes "online decode active partition capacity overflow")
  ok (record {
    resolved_mode = mode;
    partition_tokens = suc n;
    split_k_threshold_tokens = suc n;
    context_bucket_tokens = bucket;
    active_partition_capacity = capacity;
  })

unfoldable pub qwen35_online_decode_plan :
    Qwen35AttentionShape → Qwen35DecodeAttentionMode → ℕ → Result Qwen35OnlineDecodePlan
qwen35_online_decode_plan s requested context_tokens = do
  require (not (s.max_context_tokens == 0))
      (bytes "online decode plan maximum context tokens is zero")
  require (not (context_tokens == 0)) (bytes "online decode plan context tokens is zero")
  require (leb context_tokens s.max_context_tokens)
      (bytes "online decode plan context tokens exceed maximum context")
  partition_tokens ← partition_tokens_for_mode (resolve_mode requested)
  require (partition_tokens == 0 || online_decode_model_signature_supported s)
      (bytes "split-K online decode requires the Qwen3.5 model signature")
  plan_of (resolve_mode requested) partition_tokens (context_bucket_tokens s context_tokens)

pub record Qwen35OnlineDecodeWorkspaceLayout : Type 0 where
  pub partial_count : ℕ
  pub max_offset_bytes : ℕ
  pub sum_offset_bytes : ℕ
  pub value_offset_bytes : ℕ
  pub bytes : ℕ

abbrev pub is_auto : Qwen35DecodeAttentionMode → Bool
is_auto auto_select = true
is_auto _ = false

-- What a split into partitions of `partition_tokens` needs.
unfoldable pub split_layout : Qwen35AttentionShape → ℕ → Result Qwen35OnlineDecodeWorkspaceLayout
split_layout s partition_tokens = do
  require (online_decode_model_signature_supported s)
      (bytes "split-K online decode requires the Qwen3.5 model signature")
  max_partitions ←
      ceil_div s.max_context_tokens partition_tokens
        (bytes "online decode maximum partition capacity overflow")
  partial_count ←
      checked_mul s.query_heads max_partitions
        (primitive_error (bytes "online decode partial count overflow"))
  partial_bytes ←
      checked_mul partial_count 4 (primitive_error (bytes "online decode partial bytes overflow"))
  value_offset_bytes ←
      checked_mul 2 partial_bytes (primitive_error (bytes "online decode value offset overflow"))
  values ←
      checked_mul partial_count s.head_dim
        (primitive_error (bytes "online decode partial value count overflow"))
  value_bytes ←
      checked_mul values 4 (primitive_error (bytes "online decode partial value bytes overflow"))
  total ←
      checked_add value_offset_bytes value_bytes
        (primitive_error (bytes "online decode workspace bytes overflow"))
  ok (record {
    partial_count = partial_count;
    max_offset_bytes = 0;
    sum_offset_bytes = partial_bytes;
    value_offset_bytes = value_offset_bytes;
    bytes = total;
  })

-- A single block needs none.
abbrev pub layout_for : Qwen35AttentionShape → ℕ → Result Qwen35OnlineDecodeWorkspaceLayout
layout_for s zero = ok (record {
  partial_count = 0;
  max_offset_bytes = 0;
  sum_offset_bytes = 0;
  value_offset_bytes = 0;
  bytes = 0;
})
layout_for s (suc n) = split_layout s (suc n)

unfoldable pub qwen35_online_decode_workspace_layout :
    Qwen35AttentionShape → Qwen35DecodeAttentionMode → Result Qwen35OnlineDecodeWorkspaceLayout
qwen35_online_decode_workspace_layout s resolved_mode = do
  require (not (is_auto resolved_mode)) (bytes "online decode workspace mode must be resolved")
  partition_tokens ← partition_tokens_for_mode resolved_mode
  layout_for s partition_tokens
