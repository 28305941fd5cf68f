-- ===== src/Session/Policy.antt =====
-- cpp/execution/qwen35_execution_policy.hpp, and qwen35_execution_policy_from_environment of
-- cpp/execution/session.cpp. `unknown` is any other value of an enumeration's type.
use raftinfer.Base.{
  ℕ, Bool, true, Option, none, some, Text, bytes, ◌++◌, Result, ok, err, invalid_argument,
  if◌then◌else◌,
}
use raftinfer.Base.Texts.{text_eq}

pub data Qwen35AttentionImplementation : Type 0 where
  materialized_reference online_tiled : Qwen35AttentionImplementation
  unknown : ℕ → Qwen35AttentionImplementation

pub data Qwen35DecodeAttentionMode : Type 0 where
  auto_select single_block split_k_256 split_k_512 : Qwen35DecodeAttentionMode
  unknown : ℕ → Qwen35DecodeAttentionMode

pub data Qwen35KvCacheDType : Type 0 where
  f32 bf16 : Qwen35KvCacheDType
  unknown : ℕ → Qwen35KvCacheDType

pub data Qwen35KvCacheLayout : Type 0 where
  token_major head_major : Qwen35KvCacheLayout
  unknown : ℕ → Qwen35KvCacheLayout

pub record Qwen35ExecutionPolicy : Type 0 where
  pub attention : Qwen35AttentionImplementation
  pub kv_cache : Qwen35KvCacheDType
  pub kv_cache_layout : Qwen35KvCacheLayout
  pub decode_attention : Qwen35DecodeAttentionMode
  pub decode_graph : Bool
  pub grouped_input_casts : Bool

-- The default member initializers.
abbrev pub default_policy : Qwen35ExecutionPolicy
default_policy = record {
  attention = online_tiled;
  kv_cache = f32;
  kv_cache_layout = token_major;
  decode_attention = auto_select;
  decode_graph = true;
  grouped_input_casts = true;
}

-- The argument is what std::getenv returns for RAFTINFER_QWEN35_DECODE_ATTENTION.
unfoldable pub qwen35_execution_policy_from_environment :
    Option Text → Qwen35ExecutionPolicy → Result Qwen35ExecutionPolicy
qwen35_execution_policy_from_environment none policy = ok policy
qwen35_execution_policy_from_environment (some mode) policy =
    if text_eq mode (bytes "auto")
    then ok (record policy { decode_attention = auto_select })
    else if text_eq mode (bytes "single-block")
    then ok (record policy { decode_attention = single_block })
    else if text_eq mode (bytes "split-k-256")
    then ok (record policy { decode_attention = split_k_256 })
    else if text_eq mode (bytes "split-k-512")
    then ok (record policy { decode_attention = split_k_512 })
    else err (
        invalid_argument (
          bytes "RAFTINFER_QWEN35_DECODE_ATTENTION must be one of: auto, "
          ++ bytes "single-block, split-k-256, split-k-512"))
