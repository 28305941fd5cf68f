-- ===== src/Session/Executor.antt =====
-- What a session uses of the classes around it (cpp/execution/qwen35_executor.hpp,
-- cpp/foundation/device_context.hpp): an executor `E` on an execution context of an owner `O`, a device
-- `D` and its weights `W`. A member function that throws may have changed the executor.
use raftinfer.Base.{ℕ, Bool, List, Result}
use raftinfer.Base.Int.{ℤ}
use raftinfer.Model.Config.{Qwen35Config}
use raftinfer.Session.Policy.{
  Qwen35AttentionImplementation, Qwen35KvCacheDType, Qwen35KvCacheLayout, Qwen35ExecutionPolicy,
}

pub record Qwen35ExecutorResult : Type 0 where
  pub token : ℤ
  pub position : ℕ

pub data Qwen35DecodeAttentionImplementation : Type 0 where
  single_block split_k : Qwen35DecodeAttentionImplementation
  unknown : ℕ → Qwen35DecodeAttentionImplementation

pub record Qwen35DecodeAttentionDiagnostic : Type 0 where
  pub implementation : Qwen35DecodeAttentionImplementation
  pub partition_tokens : ℕ
  pub threshold_tokens : ℕ
  pub last_context_bucket_tokens : ℕ
  pub split_k_graph_captured : Bool

-- Without the plans of the matrix products and the schedules, which no session reads.
pub record Qwen35ExecutionDiagnostics : Type 0 where
  pub attention : Qwen35AttentionImplementation
  pub kv_cache_dtype : Qwen35KvCacheDType
  pub kv_cache_layout : Qwen35KvCacheLayout
  pub decode_graph_captured : Bool
  pub decode_graph_replayed : Bool
  pub attention_workspace_bytes : ℕ
  pub decode_attention : Qwen35DecodeAttentionDiagnostic

-- `prefill` and the others return what the call gives and the executor after it; `decode_greedy` takes
-- the span of output tokens and gives what it holds afterwards as well.
pub record ExecutorOps (E : Type 0) : Type 0 where
  pub prefill : E → List ℤ → Result Qwen35ExecutorResult × E
  pub decode : E → ℤ → Result Qwen35ExecutorResult × E
  pub decode_greedy : E → ℤ → List ℤ → Result Qwen35ExecutorResult × List ℤ × E
  pub reset : E → Result (Unit {0}) × E
  pub diagnostics : E → Qwen35ExecutionDiagnostics

pub record DeviceOps (D W O E : Type 0) : Type 0 where
  pub workspace_bytes : Qwen35Config → ℕ → Qwen35ExecutionPolicy → Result ℕ
  pub create_execution_owner : D → ℕ → Result O
  pub create_executor : O → Qwen35Config → W → ℕ → Qwen35ExecutionPolicy → Result E
