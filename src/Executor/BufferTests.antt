-- ===== src/Executor/BufferTests.antt =====
-- Runs of the policy, the estimate and the buffers of an executor (cpp/execution/qwen35_executor.cu), for a small model
-- and for one with the heads that online attention supports.
use raftinfer.Base.{[], ◌∷◌, ok, ◌≡◌, refl, arith}
use raftinfer.Base.Sizes.{checked_add, checked_mul}
use raftinfer.Model.Config.{Qwen35Config, linear_attention, full_attention}
use raftinfer.Registry.Enums.{DataType}
use raftinfer.Session.Policy.{default_policy}
use raftinfer.Workspace.{IsValid}
use raftinfer.Workspace.Arena.{WorkspaceArena}
use raftinfer.Kernels.Attention
use raftinfer.Kernels.Attention.{
  current_context_tokens, hidden_size, kv_vector_size, cache_elements, validate_shape,
  validate_launch_policy, kv_cache_element_bytes, qwen35_attention_cache_bytes,
  qwen35_attention_workspace_floats, materialized_workspace_bytes, workspace_bytes_of,
  qwen35_attention_workspace_bytes,
}
use raftinfer.Kernels.Argmax.{qwen35_parallel_argmax_workspace_bytes}
use raftinfer.Kernels.Delta
use raftinfer.Kernels.Delta.{
  require_delta_sizes, checked_block_count, workspace_for, qwen35_gated_delta_workspace_bytes,
}
use raftinfer.Executor.Resolve
use raftinfer.Executor.Resolve.{
  require_counts, require_relations, require_blocks, validate_config, validate_execution_policy,
  attention_launch_policy, decode_attention_partition_tokens, online_decode_supported,
  online_supported, select_mode, resolve_online, resolve_materialized, resolve_by,
  resolve_execution_policy, materialized,
}
use raftinfer.Executor.Policies.{IsSettled, resolve_execution_policy-IsSettled}
use raftinfer.Executor.Estimate.{
  align_up, attention_cache_bytes, attention_workspace_bytes, max_attention_workspace,
  linear_qkv_width, widths_of, recurrent_estimate, convolution_estimate, block_estimates,
  matmul_input_estimate, size_estimates, add_all, workspace_estimate,
}
use raftinfer.Executor.Buffers.{Buffers, dtype_size, allocate_buffers}
use raftinfer.Executor.Enough.{allocate_buffers-fits}

abbrev small : Qwen35Config
small = record {
  vocabulary_size = 100;
  hidden_size = 8;
  intermediate_size = 12;
  context_length = 16;
  full_attention_head_count = 2;
  full_attention_kv_head_count = 1;
  full_attention_head_dimension = 4;
  linear_key_head_count = 1;
  linear_value_head_count = 2;
  linear_head_dimension = 4;
  linear_convolution_width = 4;
  rotary_dimension = 2;
  rms_norm_epsilon = 897988541;
  rope_frequency_base = 1259902592;
  blocks =
      (record { index = 0; kind = linear_attention })
      ∷ (record { index = 1; kind = full_attention })
      ∷ [];
}

small_is_resolved :
    resolve_execution_policy small 16 default_policy ≡ ok (materialized default_policy)
unfolding resolve_execution_policy validate_config require_counts require_relations require_blocks
    Resolve.require checked_mul validate_execution_policy resolve_by online_supported
    online_decode_supported
small_is_resolved = refl

resolve_execution_policy-IsSettled_example :
    IsSettled small 16 (materialized default_policy)
    × (resolve_execution_policy small 16 (materialized default_policy)
        ≡ ok (materialized default_policy))
resolve_execution_policy-IsSettled_example =
    resolve_execution_policy-IsSettled small 16 default_policy (materialized default_policy)
      small_is_resolved

small_is_estimated : workspace_estimate small 16 default_policy ≡ ok 4211712
unfolding workspace_estimate widths_of linear_qkv_width attention_cache_bytes
    qwen35_attention_cache_bytes validate_shape Attention.require current_context_tokens hidden_size
    cache_elements kv_vector_size validate_launch_policy kv_cache_element_bytes checked_mul
    checked_add resolve_execution_policy validate_config require_counts require_relations
    require_blocks Resolve.require validate_execution_policy resolve_by online_supported
    online_decode_supported attention_launch_policy size_estimates block_estimates
    recurrent_estimate convolution_estimate matmul_input_estimate max_attention_workspace
    attention_workspace_bytes qwen35_attention_workspace_bytes workspace_bytes_of
    materialized_workspace_bytes qwen35_attention_workspace_floats
    qwen35_gated_delta_workspace_bytes Delta.validate_shape Delta.require require_delta_sizes
    checked_block_count workspace_for qwen35_parallel_argmax_workspace_bytes add_all align_up
small_is_estimated = refl

abbrev small_arena : WorkspaceArena
small_arena = record { base = 65536; layout = record { capacity = 4211712; used = 0 } }

allocate_buffers-fits_example :
    (workspace_estimate small 16 (materialized default_policy) ≡ ok 4211712)
    × ((buffers : Buffers) × (arena' : WorkspaceArena) × (allocate_buffers small 16
            (materialized default_policy)
            4
            DataType.bf16
            (ok tt)
            (ok tt)
            small_arena
          ≡ ok (buffers, arena'))
        × IsValid arena'.layout)
unfolding dtype_size
allocate_buffers-fits_example =
    allocate_buffers-fits small 16 default_policy (materialized default_policy) 4211712
      DataType.bf16 small_arena
      (record { vocabulary = omega arith; hidden = omega arith; intermediate = omega arith })
      (omega arith) refl small_is_resolved small_is_estimated
      (record { within = omega arith; fits = omega arith }) refl (omega arith)
