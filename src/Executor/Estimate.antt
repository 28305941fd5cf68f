-- ===== src/Executor/Estimate.antt =====
-- workspace_estimate of cpp/execution/qwen35_executor.cu: the bytes of workspace that an executor asks for.
use raftinfer.Base.{
  ℕ, ◌+◌, ◌-◌, ◌*◌, ◌%◌, ◌^◌, bit_and, List, [], ◌∷◌, Bool, true, false, not, ◌&&◌, leb, ltb, ◌==◌,
  if◌then◌else◌, Text, bytes, Result, ok, err, Error, executor_error, primitive_error, ◌>>=◌, ◌>>◌,
  size_max,
}
use raftinfer.Base.Sizes.{checked_add, checked_mul}
use raftinfer.Model.Config.{
  Qwen35BlockPlan, Qwen35Config, Qwen35BlockKind, linear_attention, full_attention,
}
use raftinfer.Session.Policy.{Qwen35DecodeAttentionMode, Qwen35ExecutionPolicy}
use raftinfer.Kernels.Attention.{
  Qwen35AttentionShape, Qwen35AttentionLaunchPolicy, qwen35_attention_cache_bytes,
  qwen35_attention_workspace_bytes,
}
use raftinfer.Kernels.Online.{is_online, qwen35_online_decode_workspace_layout}
use raftinfer.Kernels.Delta.{GatedDeltaShape, qwen35_gated_delta_workspace_bytes}
use raftinfer.Kernels.Argmax.{qwen35_parallel_argmax_workspace_bytes}
use raftinfer.Executor.Resolve.{
  require, attention_shape, attention_launch_policy, max_prefill, resolve_execution_policy,
}

-- Qwen35Executor::workspace_alignment and kMatmulWorkspaceBudget
abbrev pub workspace_alignment : ℕ
workspace_alignment = 256

abbrev pub matmul_workspace_budget : ℕ
matmul_workspace_budget = 4194304

-- `size_max - mask` is `~mask`.
unfoldable pub align_up : ℕ → ℕ → Result ℕ
align_up value alignment = do
  require (not (alignment == 0) && bit_and alignment (alignment - 1) == 0)
      (bytes "alignment must be a power of two")
  let mask = alignment - 1
  require (leb value (size_max - mask)) (bytes "workspace alignment overflow")
  ok (bit_and (value + mask) (size_max - mask))

-- `catch (const Qwen35PrimitiveError &error) { throw Qwen35ExecutorError(error.what()); }`
abbrev pub as_executor_error : Result ℕ → Result ℕ
as_executor_error (err (primitive_error text)) = err (executor_error text)
as_executor_error (err thrown) = err thrown
as_executor_error (ok n) = ok n

unfoldable pub attention_cache_bytes : Qwen35AttentionShape → Qwen35AttentionLaunchPolicy → Result ℕ
attention_cache_bytes shape policy = as_executor_error (qwen35_attention_cache_bytes shape policy)

unfoldable pub attention_workspace_bytes :
    Qwen35AttentionShape → Qwen35AttentionLaunchPolicy → Result ℕ
attention_workspace_bytes shape policy =
    as_executor_error (qwen35_attention_workspace_bytes shape policy)

-- std::max
abbrev pub max : ℕ → ℕ → ℕ
max a b = if ltb a b then b else a

abbrev pub decode_bytes : Bool → Qwen35AttentionShape → Qwen35DecodeAttentionMode → Result ℕ
decode_bytes true shape mode = do
  layout ← qwen35_online_decode_workspace_layout shape mode
  ok layout.bytes
decode_bytes false shape mode = ok 0

unfoldable pub max_attention_workspace :
    Qwen35Config → ℕ → ℕ → Qwen35AttentionLaunchPolicy → Qwen35DecodeAttentionMode → Result ℕ
max_attention_workspace config tokens max_context policy decode_mode =
    if config.full_attention_head_count == 0
    then ok 0
    else (attention_workspace_bytes
          (attention_shape config max_context tokens (max_context - tokens)) policy
        >>= λ prefill.
            decode_bytes (is_online policy.implementation)
              (attention_shape config max_context 1 (max_context - 1)) decode_mode
            >>= λ decode. ok (max prefill decode))

unfoldable pub linear_qkv_width : Qwen35Config → Result ℕ
linear_qkv_width config = do
  key_width ←
      checked_mul config.linear_key_head_count config.linear_head_dimension
        (executor_error (bytes "linear key width overflow"))
  value_width ←
      checked_mul config.linear_value_head_count config.linear_head_dimension
        (executor_error (bytes "linear value width overflow"))
  two_keys ← checked_mul 2 key_width (executor_error (bytes "linear qkv width overflow"))
  checked_add two_keys value_width (executor_error (bytes "linear qkv width overflow"))

pub record Widths : Type 0 where
  pub qkv : ℕ
  pub gate : ℕ
  pub pack : ℕ
  pub full_q : ℕ
  pub full_kv : ℕ

-- The widths that workspace_estimate and allocate_buffers begin with.
unfoldable pub widths_of : Qwen35Config → Result Widths
widths_of config = do
  qkv ← linear_qkv_width config
  gate ←
      checked_mul config.linear_value_head_count config.linear_head_dimension
        (executor_error (bytes "linear gate width overflow"))
  with_beta ←
      checked_add qkv config.linear_value_head_count
        (executor_error (bytes "linear pack width overflow"))
  with_alpha ←
      checked_add config.linear_value_head_count gate
        (executor_error (bytes "linear pack width overflow"))
  pack ← checked_add with_beta with_alpha (executor_error (bytes "linear pack width overflow"))
  full_q ←
      checked_mul config.full_attention_head_count config.full_attention_head_dimension
        (executor_error (bytes "full query width overflow"))
  full_kv ←
      checked_mul config.full_attention_kv_head_count config.full_attention_head_dimension
        (executor_error (bytes "full KV width overflow"))
  ok (record { qkv = qkv; gate = gate; pack = pack; full_q = full_q; full_kv = full_kv })

abbrev pub delta_shape : Qwen35Config → ℕ → GatedDeltaShape
delta_shape config tokens = record {
  tokens = tokens;
  hidden_size = config.hidden_size;
  key_heads = config.linear_key_head_count;
  value_heads = config.linear_value_head_count;
  key_dim = config.linear_head_dimension;
  value_dim = config.linear_head_dimension;
  conv_width = config.linear_convolution_width;
  epsilon = config.rms_norm_epsilon;
}

-- A size of `tokens` rows of `width` floats, where the product with 4 is not checked.
abbrev pub rows_estimate : ℕ → ℕ → Text → Result ℕ
rows_estimate tokens width message =
    checked_mul tokens (width * 4 % 2 ^ 64) (executor_error message)

abbrev pub recurrent_overflow : Error
recurrent_overflow = executor_error (bytes "linear recurrent state byte size overflow")

unfoldable pub recurrent_estimate : Qwen35Config → Result ℕ
recurrent_estimate config = do
  square ← checked_mul config.linear_head_dimension config.linear_head_dimension recurrent_overflow
  recurrent ← checked_mul config.linear_value_head_count square recurrent_overflow
  checked_mul recurrent 4 recurrent_overflow

unfoldable pub convolution_estimate : Qwen35Config → Widths → Result ℕ
convolution_estimate config widths =
    checked_mul (config.linear_convolution_width - 1) (widths.qkv * 4 % 2 ^ 64)
      (executor_error (bytes "linear convolution state byte size overflow"))

-- The body of the loop over the blocks, in front of the rounds that follow.
abbrev pub block_estimate :
    Qwen35BlockKind → Qwen35Config → Widths → ℕ → List (Result ℕ) → List (Result ℕ)
block_estimate full_attention config widths kv_bytes rest = ok kv_bytes ∷ rest
block_estimate linear_attention config widths kv_bytes rest =
    convolution_estimate config widths ∷ recurrent_estimate config ∷ rest

unfoldable pub block_estimates : Qwen35Config → Widths → ℕ → List Qwen35BlockPlan → List (Result ℕ)
block_estimates config widths kv_bytes [] = []
block_estimates config widths kv_bytes (block ∷ blocks) =
    block_estimate block.kind config widths kv_bytes (block_estimates config widths kv_bytes blocks)

unfoldable pub matmul_input_estimate : Qwen35Config → ℕ → Result ℕ
matmul_input_estimate config tokens = do
  elements ←
      checked_mul tokens (max config.hidden_size config.intermediate_size)
        (executor_error (bytes "matmul input conversion element count overflow"))
  checked_mul elements 2 (executor_error (bytes "matmul input conversion byte size overflow"))

-- The arguments of `add`, in order.
unfoldable pub size_estimates :
    Qwen35Config → ℕ → Qwen35ExecutionPolicy → Widths → ℕ → List (Result ℕ)
size_estimates config max_context policy widths kv_bytes =
    let t = max_prefill max_context in
    let hidden = config.hidden_size in
    let intermediate = config.intermediate_size in
    let heads = config.linear_value_head_count in
    checked_mul max_context 4 (executor_error (bytes "token buffer byte size overflow"))
    ∷ ok 4
    ∷ qwen35_parallel_argmax_workspace_bytes config.vocabulary_size
    ∷ ok 4
    ∷ ok 4
    ∷ checked_mul max_context 4 (executor_error (bytes "decode result buffer byte size overflow"))
    ∷ rows_estimate t hidden (bytes "hidden activation byte size overflow")
    ∷ rows_estimate t hidden (bytes "hidden scratch byte size overflow")
    ∷ rows_estimate t intermediate (bytes "intermediate activation byte size overflow")
    ∷ rows_estimate t intermediate (bytes "intermediate scratch byte size overflow")
    ∷ rows_estimate t widths.pack (bytes "linear packed input byte size overflow")
    ∷ rows_estimate t widths.qkv (bytes "linear qkv byte size overflow")
    ∷ rows_estimate t heads (bytes "linear beta byte size overflow")
    ∷ rows_estimate t heads (bytes "linear alpha byte size overflow")
    ∷ rows_estimate t widths.gate (bytes "linear gate byte size overflow")
    ∷ rows_estimate t (widths.full_q * 2 % 2 ^ 64) (bytes "full query gate byte size overflow")
    ∷ rows_estimate t widths.full_q (bytes "full query byte size overflow")
    ∷ rows_estimate t widths.full_q (bytes "full query norm byte size overflow")
    ∷ rows_estimate t widths.full_kv (bytes "full key byte size overflow")
    ∷ rows_estimate t widths.full_kv (bytes "full key norm byte size overflow")
    ∷ rows_estimate t widths.full_kv (bytes "full value byte size overflow")
    ∷ rows_estimate t hidden (bytes "attention output byte size overflow")
    ∷ rows_estimate t hidden (bytes "mixer projection byte size overflow")
    ∷ checked_mul (config.vocabulary_size * 4 % 2 ^ 64) 1
        (executor_error (bytes "logits byte size overflow"))
    ∷ matmul_input_estimate config t
    ∷ ok matmul_workspace_budget
    ∷ max_attention_workspace config t max_context (attention_launch_policy policy)
        policy.decode_attention
    ∷ qwen35_gated_delta_workspace_bytes (delta_shape config t)
    ∷ block_estimates config widths kv_bytes config.blocks

-- The calls of `add` one after the other.
unfoldable pub add_all : ℕ → List (Result ℕ) → Result ℕ
add_all total [] = ok total
add_all total (size ∷ sizes) = do
  value ← size
  from ← align_up total workspace_alignment
  rounded ← align_up value workspace_alignment
  total' ← checked_add from rounded (executor_error (bytes "Qwen3.5 executor workspace overflow"))
  add_all total' sizes

unfoldable pub workspace_estimate : Qwen35Config → ℕ → Qwen35ExecutionPolicy → Result ℕ
workspace_estimate config max_context requested = do
  policy ← resolve_execution_policy config max_context requested
  widths ← widths_of config
  kv_bytes ←
      attention_cache_bytes (attention_shape config max_context 1 0)
        (attention_launch_policy policy)
  total ← add_all 0 (size_estimates config max_context policy widths kv_bytes)
  align_up total workspace_alignment
