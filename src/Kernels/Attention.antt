-- ===== src/Kernels/Attention.antt =====
-- cpp/kernels/qwen35_attention.cu and .cuh: shapes, policies and sizes of attention.
use raftinfer.Base.{
  ℕ, ◌%◌, Bool, true, false, not, ltb, ◌==◌, Text, bytes, Result, ok, err, Error, primitive_error,
  throw_if, ◌>>=◌, ◌>>◌,
}
use raftinfer.Base.Sizes.{checked_add, checked_mul}
use raftinfer.Session.Policy.{
  Qwen35AttentionImplementation, Qwen35KvCacheDType, Qwen35KvCacheLayout, materialized_reference,
  online_tiled, f32, bf16, token_major, head_major,
}

pub record Qwen35AttentionShape : Type 0 where
  pub tokens : ℕ
  pub query_heads : ℕ
  pub kv_heads : ℕ
  pub head_dim : ℕ
  pub max_context_tokens : ℕ
  pub past_tokens : ℕ

pub record Qwen35AttentionLaunchPolicy : Type 0 where
  pub implementation : Qwen35AttentionImplementation
  pub kv_cache_dtype : Qwen35KvCacheDType
  pub kv_cache_layout : Qwen35KvCacheLayout

-- require
unfoldable pub require : Bool → Text → Result (Unit {0})
require condition message = throw_if (not condition) (primitive_error message)

unfoldable pub current_context_tokens : Qwen35AttentionShape → Result ℕ
current_context_tokens shape =
    checked_add shape.past_tokens shape.tokens
      (primitive_error (bytes "attention context length overflow"))

unfoldable pub hidden_size : Qwen35AttentionShape → Result ℕ
hidden_size shape =
    checked_mul shape.query_heads shape.head_dim
      (primitive_error (bytes "attention hidden size overflow"))

unfoldable pub kv_vector_size : Qwen35AttentionShape → Result ℕ
kv_vector_size shape =
    checked_mul shape.kv_heads shape.head_dim
      (primitive_error (bytes "attention kv vector size overflow"))

abbrev cache_overflow : Error
cache_overflow = primitive_error (bytes "attention cache shape overflow")

-- Twice the elements of a plane of the cache.
unfoldable pub cache_elements : Qwen35AttentionShape → Result ℕ
cache_elements shape = do
  vector ← kv_vector_size shape
  plane ← checked_mul shape.max_context_tokens vector cache_overflow
  checked_mul 2 plane cache_overflow

unfoldable pub validate_shape : Qwen35AttentionShape → Result (Unit {0})
validate_shape shape = do
  require (ltb 0 shape.tokens) (bytes "attention tokens must be positive")
  require (ltb 0 shape.query_heads) (bytes "attention query_heads must be positive")
  require (ltb 0 shape.kv_heads) (bytes "attention kv_heads must be positive")
  require (ltb 0 shape.head_dim) (bytes "attention head_dim must be positive")
  require (ltb 0 shape.max_context_tokens) (bytes "attention max_context_tokens must be positive")
  require (shape.query_heads % shape.kv_heads == 0)
      (bytes "attention query_heads must be divisible by kv_heads")
  current ← current_context_tokens shape
  require (not (ltb shape.max_context_tokens current))
      (bytes "attention context exceeds cache capacity")
  hidden ← hidden_size shape
  output ←
      checked_mul shape.tokens hidden (primitive_error (bytes "attention output shape overflow"))
  cache ← cache_elements shape
  ok tt

unfoldable pub qwen35_attention_workspace_floats : Qwen35AttentionShape → Result ℕ
qwen35_attention_workspace_floats shape = do
  validate_shape shape
  pairs ←
      checked_mul shape.tokens shape.query_heads
        (primitive_error (bytes "attention workspace shape overflow"))
  current ← current_context_tokens shape
  checked_mul pairs current (primitive_error (bytes "attention workspace shape overflow"))

-- The overload without a policy.
unfoldable pub materialized_workspace_bytes : Qwen35AttentionShape → Result ℕ
materialized_workspace_bytes shape = do
  floats ← qwen35_attention_workspace_floats shape
  checked_mul floats 4 (primitive_error (bytes "attention workspace byte size overflow"))

abbrev pub is_known_implementation : Qwen35AttentionImplementation → Bool
is_known_implementation materialized_reference = true
is_known_implementation online_tiled = true
is_known_implementation _ = false

abbrev pub is_known_kv_cache : Qwen35KvCacheDType → Bool
is_known_kv_cache f32 = true
is_known_kv_cache bf16 = true
is_known_kv_cache _ = false

abbrev pub is_known_layout : Qwen35KvCacheLayout → Bool
is_known_layout token_major = true
is_known_layout head_major = true
is_known_layout _ = false

unfoldable pub validate_launch_policy : Qwen35AttentionLaunchPolicy → Result (Unit {0})
validate_launch_policy policy = do
  require (is_known_implementation policy.implementation)
      (bytes "unsupported Qwen3.5 attention implementation")
  require (is_known_kv_cache policy.kv_cache_dtype) (bytes "unsupported Qwen3.5 KV cache dtype")
  require (is_known_layout policy.kv_cache_layout) (bytes "unsupported Qwen3.5 KV cache layout")

unfoldable pub kv_cache_element_bytes : Qwen35KvCacheDType → Result ℕ
kv_cache_element_bytes f32 = ok 4
kv_cache_element_bytes bf16 = ok 2
kv_cache_element_bytes _ = err (primitive_error (bytes "unsupported Qwen3.5 KV cache dtype"))

unfoldable pub qwen35_attention_cache_bytes :
    Qwen35AttentionShape → Qwen35AttentionLaunchPolicy → Result ℕ
qwen35_attention_cache_bytes shape policy = do
  validate_shape shape
  validate_launch_policy policy
  elements ← cache_elements shape
  element ← kv_cache_element_bytes policy.kv_cache_dtype
  checked_mul elements element (primitive_error (bytes "attention cache byte size overflow"))

-- What stands behind the check of the policy; online attention needs no workspace
-- (qwen35_online_attention_workspace_bytes).
unfoldable pub workspace_bytes_of : Qwen35AttentionImplementation → Qwen35AttentionShape → Result ℕ
workspace_bytes_of materialized_reference shape = materialized_workspace_bytes shape
workspace_bytes_of online_tiled shape = do validate_shape shape; ok 0
workspace_bytes_of _ shape =
    err (primitive_error (bytes "unsupported Qwen3.5 attention implementation"))

unfoldable pub qwen35_attention_workspace_bytes :
    Qwen35AttentionShape → Qwen35AttentionLaunchPolicy → Result ℕ
qwen35_attention_workspace_bytes shape policy = do
  validate_launch_policy policy
  workspace_bytes_of policy.implementation shape
