-- ===== src/Api/Policies.antt =====
-- The conversions of cpp/src/c_api.cpp between the codes of cpp/include/raftinfer/c_api.h and the
-- enumerations of an execution policy.
use raftinfer.Base.{
  ℕ, Bool, true, false, not, Option, none, some, ◌==◌, if◌then◌else◌, Text, bytes, Result, ok, err,
  invalid_argument, logic_error, ◌>>=◌, ◌>>◌, throw_if,
}
use raftinfer.Base.Int.{ℤ, pos, negsuc}
use raftinfer.Session.Policy.{
  Qwen35AttentionImplementation, materialized_reference, online_tiled, Qwen35DecodeAttentionMode,
  Qwen35KvCacheDType, f32, bf16, Qwen35KvCacheLayout, token_major, head_major,
  Qwen35ExecutionPolicy, default_policy,
}

-- RaftInferQwen35ExecutionPolicy
pub record PolicyStruct : Type 0 where
  pub struct_size : ℕ
  pub attention : ℕ
  pub kv_cache_dtype : ℕ
  pub kv_cache_layout : ℕ
  pub decode_graph : ℤ
  pub grouped_input_casts : ℤ

-- What the compiler lays out: the sizes of the structures, and where the policy pointer of
-- RaftInferSessionConfig begins (kLegacySessionConfigSize) and ends (kSessionConfigPolicyPointerEnd).
pub record AbiSizes : Type 0 where
  pub policy : ℕ
  pub legacy_session_config : ℕ
  pub policy_pointer_end : ℕ
  pub engine_config : ℕ
  pub owned_buffer : ℕ
  pub diagnostics : ℕ

unfoldable pub to_attention_implementation : ℕ → Result Qwen35AttentionImplementation
to_attention_implementation value =
    if value == 0
    then ok materialized_reference
    else if value == 1
    then ok online_tiled
    else err (invalid_argument (bytes "unknown Qwen3.5 attention implementation"))

unfoldable pub to_kv_cache_dtype : ℕ → Result Qwen35KvCacheDType
to_kv_cache_dtype value =
    if value == 0
    then ok f32
    else if value == 1
    then ok bf16
    else err (invalid_argument (bytes "unknown Qwen3.5 KV cache dtype"))

unfoldable pub to_kv_cache_layout : ℕ → Result Qwen35KvCacheLayout
to_kv_cache_layout value =
    if value == 0
    then ok token_major
    else if value == 1
    then ok head_major
    else err (invalid_argument (bytes "unknown Qwen3.5 KV cache layout"))

unfoldable pub from_attention_implementation : Qwen35AttentionImplementation → Result ℕ
from_attention_implementation materialized_reference = ok 0
from_attention_implementation online_tiled = ok 1
from_attention_implementation (Qwen35AttentionImplementation.unknown n) =
    err (logic_error (bytes "unmapped Qwen3.5 attention implementation"))

unfoldable pub from_kv_cache_dtype : Qwen35KvCacheDType → Result ℕ
from_kv_cache_dtype f32 = ok 0
from_kv_cache_dtype bf16 = ok 1
from_kv_cache_dtype (Qwen35KvCacheDType.unknown n) =
    err (logic_error (bytes "unmapped Qwen3.5 KV cache dtype"))

unfoldable pub from_kv_cache_layout : Qwen35KvCacheLayout → Result ℕ
from_kv_cache_layout token_major = ok 0
from_kv_cache_layout head_major = ok 1
from_kv_cache_layout (Qwen35KvCacheLayout.unknown n) =
    err (logic_error (bytes "unmapped Qwen3.5 KV cache layout"))

unmapped_mode : Result ℕ
unmapped_mode = err (logic_error (bytes "unmapped Qwen3.5 decode attention implementation"))

unfoldable pub from_decode_attention : Qwen35DecodeAttentionMode → Result ℕ
unfolding unmapped_mode
from_decode_attention Qwen35DecodeAttentionMode.single_block = ok 0
from_decode_attention Qwen35DecodeAttentionMode.split_k_256 = ok 1
from_decode_attention Qwen35DecodeAttentionMode.split_k_512 = ok 1
from_decode_attention Qwen35DecodeAttentionMode.auto_select = unmapped_mode
from_decode_attention (Qwen35DecodeAttentionMode.unknown n) = unmapped_mode

unfoldable pub to_bool : ℤ → Text → Result Bool
to_bool (pos value) field_name =
    if value == 0
    then ok false
    else if value == 1
    then ok true
    else err (invalid_argument field_name)
to_bool (negsuc n) field_name = err (invalid_argument field_name)

unfoldable pub to_execution_policy : AbiSizes → Option PolicyStruct → Result Qwen35ExecutionPolicy
to_execution_policy sizes none = ok default_policy
to_execution_policy sizes (some policy) = do
  throw_if (not (policy.struct_size == sizes.policy))
      (invalid_argument (bytes "RaftInferQwen35ExecutionPolicy size mismatch"))
  attention ← to_attention_implementation policy.attention
  kv_cache ← to_kv_cache_dtype policy.kv_cache_dtype
  kv_cache_layout ← to_kv_cache_layout policy.kv_cache_layout
  decode_graph ← to_bool policy.decode_graph (bytes "decode_graph must be 0 or 1")
  casts ← to_bool policy.grouped_input_casts (bytes "grouped_input_casts must be 0 or 1")
  ok (record default_policy {
    attention = attention;
    kv_cache = kv_cache;
    kv_cache_layout = kv_cache_layout;
    decode_graph = decode_graph;
    grouped_input_casts = casts;
  })
