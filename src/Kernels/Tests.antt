-- ===== src/Kernels/Tests.antt =====
-- Runs of the plans and sizes of cpp/kernels at the heads of the model that is supported.
use raftinfer.Base.{ok, ◌≡◌, refl, arith}
use raftinfer.Base.Sizes.{checked_add, checked_mul}
use raftinfer.Session.Policy.{
  Qwen35KvCacheDType, online_tiled, token_major, auto_select, split_k_256,
}
use raftinfer.Kernels.Attention
use raftinfer.Kernels.Attention.{
  Qwen35AttentionShape, current_context_tokens, hidden_size, kv_vector_size, cache_elements,
  validate_shape, validate_launch_policy, kv_cache_element_bytes, qwen35_attention_cache_bytes,
}
use raftinfer.Kernels.Online.{
  Qwen35OnlineDecodePlan, Qwen35OnlineDecodeWorkspaceLayout,
  online_decode_model_signature_supported, ceil_div, partition_tokens_for_mode, grow_bucket,
  context_bucket_tokens, qwen35_online_decode_plan, split_layout,
  qwen35_online_decode_workspace_layout,
}
use raftinfer.Kernels.Argmax.{qwen35_parallel_argmax_workspace_bytes}
use raftinfer.Kernels.Partitions.{
  Covering, IsLengthOf, partial_of, qwen35_online_decode_plan-Covering,
}

abbrev step : Qwen35AttentionShape
step = record {
  tokens = 1;
  query_heads = 16;
  kv_heads = 4;
  head_dim = 256;
  max_context_tokens = 2000;
  past_tokens = 0;
}

abbrev step_plan : Qwen35OnlineDecodePlan
step_plan = record {
  resolved_mode = split_k_256;
  partition_tokens = 256;
  split_k_threshold_tokens = 256;
  context_bucket_tokens = 1024;
  active_partition_capacity = 4;
}

abbrev step_layout : Qwen35OnlineDecodeWorkspaceLayout
step_layout = record {
  partial_count = 128;
  max_offset_bytes = 0;
  sum_offset_bytes = 512;
  value_offset_bytes = 1024;
  bytes = 132096;
}

is_planned : qwen35_online_decode_plan step auto_select 700 ≡ ok step_plan
unfolding qwen35_online_decode_plan Attention.require partition_tokens_for_mode
    online_decode_model_signature_supported context_bucket_tokens grow_bucket ceil_div
is_planned = refl

is_laid_out : qwen35_online_decode_workspace_layout step split_k_256 ≡ ok step_layout
unfolding qwen35_online_decode_workspace_layout Attention.require partition_tokens_for_mode
    split_layout online_decode_model_signature_supported ceil_div checked_mul checked_add
is_laid_out = refl

qwen35_online_decode_plan-Covering_example :
    IsLengthOf split_k_256 256
    × Covering step 700 step_plan step_layout (partial_of step step_plan 15 3)
qwen35_online_decode_plan-Covering_example =
    qwen35_online_decode_plan-Covering step auto_select 700 15 3 step_plan step_layout (omega arith)
      is_planned is_laid_out (omega arith) (omega arith)

cache_of_step :
    qwen35_attention_cache_bytes step (record {
      implementation = online_tiled;
      kv_cache_dtype = Qwen35KvCacheDType.bf16;
      kv_cache_layout = token_major;
    })
    ≡ ok 8192000
unfolding qwen35_attention_cache_bytes validate_shape Attention.require current_context_tokens
    hidden_size cache_elements kv_vector_size validate_launch_policy kv_cache_element_bytes
    checked_mul checked_add
cache_of_step = refl

one_block_of_argmax : qwen35_parallel_argmax_workspace_bytes 200 ≡ ok 8
unfolding qwen35_parallel_argmax_workspace_bytes Attention.require checked_mul
one_block_of_argmax = refl
