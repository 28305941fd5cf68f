-- ===== src/Executor/Buffers.antt =====
-- allocate_buffers of Qwen35Executor::Impl (cpp/execution/qwen35_executor.cu): the buffers of an executor, taken from
-- the workspace one after the other. The result has their addresses in this order. The allocations of
-- pinned host memory are a parameter: what each cudaHostAlloc returns.
use raftinfer.Base.{
  ℕ, zero, suc, ◌-◌, List, [], ◌∷◌, Text, bytes, if◌then◌else◌, ◌==◌, Result, ok, err, Error,
  executor_error, ◌>>=◌, ◌>>◌, size_max,
}
use raftinfer.Base.Sizes.{checked_mul}
use raftinfer.Model.Config.{
  Qwen35BlockPlan, Qwen35Config, Qwen35BlockKind, linear_attention, full_attention,
}
use raftinfer.Registry.Enums.{DataType}
use raftinfer.Session.Policy.{Qwen35ExecutionPolicy}
use raftinfer.Workspace.Arena
use raftinfer.Workspace.Arena.{WorkspaceArena}
use raftinfer.Kernels.Delta.{qwen35_gated_delta_workspace_bytes}
use raftinfer.Kernels.Argmax.{qwen35_parallel_argmax_workspace_bytes}
use raftinfer.Executor.Resolve.{attention_shape, attention_launch_policy, max_prefill}
use raftinfer.Executor.Estimate.{
  align_up, attention_cache_bytes, attention_workspace_bytes, max, max_attention_workspace, Widths,
  widths_of, delta_shape, workspace_alignment, matmul_workspace_budget,
}

-- What the function does: take a buffer of a size with an alignment, take one unless the size is zero, pin
-- host memory, or compute a size only.
pub data BufferStep : Type 0 where
  buffer : Result ℕ → ℕ → BufferStep
  optional : Result ℕ → ℕ → BufferStep
  pinned : Result (Unit {0}) → BufferStep
  computed : Result ℕ → BufferStep

unfoldable pub dtype_size : DataType → Result ℕ
dtype_size DataType.f32 = ok 4
dtype_size DataType.f16 = ok 2
dtype_size DataType.bf16 = ok 2
dtype_size _ = err (executor_error (bytes "Qwen3.5 executor weights must be F16 or BF16"))

-- allocate
unfoldable pub allocate_aligned : WorkspaceArena → ℕ → ℕ → Result (ℕ × WorkspaceArena)
allocate_aligned arena zero alignment = Arena.allocate arena 1 alignment
allocate_aligned arena (suc n) alignment = do
  rounded ← align_up (suc n) alignment
  Arena.allocate arena rounded alignment

-- `activation_bytes`
unfoldable pub rows_of : ℕ → ℕ → ℕ → Text → Result ℕ
rows_of element_bytes tokens width message = do
  elements ← checked_mul tokens width (executor_error message)
  checked_mul elements element_bytes (executor_error message)

unfoldable pub query_gate_bytes : ℕ → ℕ → ℕ → Result ℕ
query_gate_bytes element_bytes tokens full_q = do
  width ← checked_mul full_q 2 (executor_error (bytes "full query gate width overflow"))
  rows_of element_bytes tokens width (bytes "full query gate byte size overflow")

unfoldable pub matmul_input_bytes : Qwen35Config → ℕ → DataType → Result ℕ
matmul_input_bytes config tokens weight_dtype = do
  elements ←
      checked_mul tokens (max config.hidden_size config.intermediate_size)
        (executor_error (bytes "matmul input conversion element count overflow"))
  size ← dtype_size weight_dtype
  checked_mul elements size (executor_error (bytes "matmul input conversion byte size overflow"))

unfoldable pub convolution_bytes : Qwen35Config → Widths → Result ℕ
convolution_bytes config widths = do
  elements ←
      checked_mul (config.linear_convolution_width - 1) widths.qkv
        (executor_error (bytes "linear convolution state element count overflow"))
  checked_mul elements 4 (executor_error (bytes "linear convolution state byte size overflow"))

abbrev pub count_overflow : Error
count_overflow = executor_error (bytes "linear recurrent state element count overflow")

unfoldable pub recurrent_elements : Qwen35Config → Result ℕ
recurrent_elements config = do
  square ← checked_mul config.linear_head_dimension config.linear_head_dimension count_overflow
  checked_mul config.linear_value_head_count square count_overflow

unfoldable pub recurrent_bytes : Qwen35Config → Result ℕ
recurrent_bytes config = do
  recurrent ← recurrent_elements config
  checked_mul recurrent 4 (executor_error (bytes "linear recurrent state byte size overflow"))

-- The body of the loop over the blocks, in front of the rounds that follow. A block of linear attention computes
-- all its sizes before it takes a buffer.
abbrev pub block_step :
    Qwen35BlockKind → Qwen35Config → Widths → Result ℕ → List BufferStep → List BufferStep
block_step full_attention config widths kv_bytes rest = buffer kv_bytes 4 ∷ rest
block_step linear_attention config widths kv_bytes rest =
    computed (recurrent_elements config)
    ∷ computed (convolution_bytes config widths)
    ∷ computed (recurrent_bytes config)
    ∷ buffer (convolution_bytes config widths) 4
    ∷ buffer (recurrent_bytes config) 4
    ∷ rest

unfoldable pub block_steps :
    Qwen35Config → Widths → Result ℕ → List Qwen35BlockPlan → List BufferStep
block_steps config widths kv_bytes [] = []
block_steps config widths kv_bytes (block ∷ blocks) =
    block_step block.kind config widths kv_bytes (block_steps config widths kv_bytes blocks)

-- What stands in front of the loop, and the loop.
unfoldable pub buffer_steps :
    Qwen35Config
    → ℕ
    → Qwen35ExecutionPolicy
    → ℕ
    → DataType
    → Result (Unit {0})
    → Result (Unit {0})
    → Widths
    → List BufferStep
buffer_steps config max_context policy element_bytes weight_dtype pinned_token pinned_result
      widths =
    let t = max_prefill max_context in
    let rows = rows_of element_bytes t in
    let hidden = config.hidden_size in
    let intermediate = config.intermediate_size in
    let heads = config.linear_value_head_count in
    let launch = attention_launch_policy policy in
    buffer (checked_mul max_context 4 (executor_error (bytes "token buffer byte size overflow"))) 4
    ∷ buffer (ok 4) 4
    ∷ buffer (qwen35_parallel_argmax_workspace_bytes config.vocabulary_size) 4
    ∷ buffer (ok 4) 4
    ∷ buffer (ok 4) 4
    ∷ buffer
        (checked_mul max_context 4
          (executor_error (bytes "decode result buffer byte size overflow")))
        4
    ∷ pinned pinned_token
    ∷ pinned pinned_result
    ∷ buffer (rows hidden (bytes "hidden activation byte size overflow")) 16
    ∷ buffer (rows hidden (bytes "hidden scratch byte size overflow")) 16
    ∷ buffer (rows intermediate (bytes "intermediate activation byte size overflow")) 16
    ∷ buffer (rows intermediate (bytes "intermediate scratch byte size overflow")) 16
    ∷ buffer (rows widths.pack (bytes "linear packed input byte size overflow")) 16
    ∷ buffer (rows widths.qkv (bytes "linear qkv byte size overflow")) 16
    ∷ buffer (rows heads (bytes "linear beta byte size overflow")) 16
    ∷ buffer (rows heads (bytes "linear alpha byte size overflow")) 16
    ∷ buffer (rows widths.gate (bytes "linear gate byte size overflow")) 16
    ∷ buffer (query_gate_bytes element_bytes t widths.full_q) 16
    ∷ buffer (rows widths.full_q (bytes "full query byte size overflow")) 16
    ∷ buffer (rows widths.full_q (bytes "full query norm byte size overflow")) 16
    ∷ buffer (rows widths.full_kv (bytes "full key byte size overflow")) 16
    ∷ buffer (rows widths.full_kv (bytes "full key norm byte size overflow")) 16
    ∷ buffer (rows widths.full_kv (bytes "full value byte size overflow")) 16
    ∷ buffer (rows hidden (bytes "attention output byte size overflow")) 16
    ∷ buffer (rows hidden (bytes "mixer projection byte size overflow")) 16
    ∷ buffer
        (checked_mul config.vocabulary_size element_bytes
          (executor_error (bytes "logits byte size overflow")))
        16
    ∷ buffer (matmul_input_bytes config t weight_dtype) 16
    ∷ buffer (ok matmul_workspace_budget) workspace_alignment
    ∷ computed
        (attention_workspace_bytes (attention_shape config max_context t (max_context - t)) launch)
    ∷ optional (max_attention_workspace config t max_context launch policy.decode_attention) 4
    ∷ buffer (qwen35_gated_delta_workspace_bytes (delta_shape config t)) 4
    ∷ block_steps config widths
        (attention_cache_bytes (attention_shape config max_context 1 0) launch) config.blocks

unfoldable pub run_steps : WorkspaceArena → List BufferStep → Result (List ℕ × WorkspaceArena)
run_steps arena [] = ok ([], arena)
run_steps arena (buffer size alignment ∷ steps) = do
  n ← size
  (address, arena') ← allocate_aligned arena n alignment
  (addresses, arena'') ← run_steps arena' steps
  ok (address ∷ addresses, arena'')
run_steps arena (optional size alignment ∷ steps) = do
  n ← size
  (address, arena') ← if n == 0 then ok (0, arena) else allocate_aligned arena n alignment
  (addresses, arena'') ← run_steps arena' steps
  ok (address ∷ addresses, arena'')
run_steps arena (pinned result ∷ steps) = do result; run_steps arena steps
run_steps arena (computed size ∷ steps) = do n ← size; run_steps arena steps

-- full_state_by_layer_ and linear_state_by_layer_: the slot of each block among the blocks of its kind, and
-- std::numeric_limits<std::size_t>::max() in the other list.
unfoldable pub state_slots : ℕ → ℕ → List Qwen35BlockPlan → List (ℕ × ℕ)
state_slots full linear [] = []
state_slots full linear (block ∷ blocks) = elim block.kind [
  | full_attention ↦ (full, size_max) ∷ state_slots (suc full) linear blocks
  | linear_attention ↦ (size_max, linear) ∷ state_slots full (suc linear) blocks
]

pub record Buffers : Type 0 where
  pub addresses : List ℕ
  pub slots : List (ℕ × ℕ)

unfoldable pub allocate_buffers :
    Qwen35Config
    → ℕ
    → Qwen35ExecutionPolicy
    → ℕ
    → DataType
    → Result (Unit {0})
    → Result (Unit {0})
    → WorkspaceArena
    → Result (Buffers × WorkspaceArena)
allocate_buffers config max_context policy element_bytes weight_dtype pinned_token pinned_result
      arena =
    do
      widths ← widths_of config
      (addresses, arena') ← run_steps arena (
          buffer_steps config max_context policy element_bytes weight_dtype pinned_token
            pinned_result widths)
      ok (record { addresses = addresses; slots = state_slots 0 0 config.blocks }, arena')
