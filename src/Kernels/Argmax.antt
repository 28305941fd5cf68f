-- ===== src/Kernels/Argmax.antt =====
-- cpp/kernels/qwen35_primitives.cu: the workspace of the parallel argmax.
use raftinfer.Base.{ℕ, ◌+◌, ◌/◌, ltb, leb, if◌then◌else◌, bytes, Result, primitive_error, ◌>>◌}
use raftinfer.Base.Sizes.{checked_mul}
use raftinfer.Kernels.Attention.{require}

-- std::min
abbrev pub min : ℕ → ℕ → ℕ
min a b = if ltb b a then b else a

unfoldable pub qwen35_parallel_argmax_workspace_bytes : ℕ → Result ℕ
qwen35_parallel_argmax_workspace_bytes elements = do
  require (ltb 0 elements) (bytes "parallel argmax elements must be positive")
  require (leb elements 2147483647) (bytes "parallel argmax elements exceed int32 output range")
  checked_mul (min 256 ((elements + 255) / 256)) 8
      (primitive_error (bytes "parallel argmax workspace size overflow"))
