-- ===== src/Matmul/Tests.antt =====
-- Runs of cpp/execution/cublaslt_matmul.cu at concrete inputs.
use raftinfer.Base.{true, false, some, bytes, ok, err, matmul_error, ◌≡◌, ◌↔◌, ◌≤◌, refl, arith}
use raftinfer.Base.Sizes.{checked_mul}
use raftinfer.Registry.Enums.{DataType}
use raftinfer.Matmul.{
  CublasLtMatmulConfig, PlanSizes, CublasLtRunBuffers, CublasLtBufferRequirements, row_major,
  require, dtype_size, validate_order, validate_cublaslt_shape, physical_of, physical_shape,
  validate_config, matrix_bytes, plan_sizes, require_aligned, validate_cublaslt_run_buffers,
}
use raftinfer.Matmul.Exact.{IsPlannable, IsPlanOf, plan_sizes-IsPlanOf}
use raftinfer.Matmul.Runs.{InBuffers, validate_run_buffers-InBuffers}

-- Two rows of four numbers by a transposed weight of three rows.
abbrev config : CublasLtMatmulConfig
config = record {
  shape = record { m = 2; n = 3; k = 4; transpose_input = false; transpose_weight = true };
  input_dtype = DataType.bf16;
  weight_dtype = DataType.bf16;
  output_dtype = DataType.f32;
  input_order = row_major;
  weight_order = row_major;
  output_order = row_major;
  workspace_budget_bytes = 0;
}

abbrev plan : PlanSizes
plan = record {
  physical = record {
    input_rows = 2;
    input_cols = 4;
    weight_rows = 3;
    weight_cols = 4;
    output_rows = 2;
    output_cols = 3;
  };
  input_bytes = 16;
  weight_bytes = 24;
  output_bytes = 24;
}

config_is_planned : plan_sizes config ≡ ok plan
unfolding plan_sizes validate_config validate_order require dtype_size physical_shape
    validate_cublaslt_shape physical_of matrix_bytes checked_mul
config_is_planned = refl

plan_sizes-IsPlanOf_example :
    (plan_sizes config ≡ ok plan) ↔ (IsPlannable config × IsPlanOf config plan)
plan_sizes-IsPlanOf_example = plan_sizes-IsPlanOf config plan

abbrev buffers : CublasLtRunBuffers
buffers = record {
  input = some 4096;
  input_bytes = 16;
  weight = some 8192;
  weight_bytes = 24;
  output = some 8224;
  output_bytes = 24;
  workspace = some 256;
  workspace_bytes = 1024;
}

abbrev requirements : CublasLtBufferRequirements
requirements = record {
  input_bytes = 16;
  weight_bytes = 24;
  output_bytes = 24;
  workspace_bytes = 512;
}

buffers_are_accepted : validate_cublaslt_run_buffers buffers requirements ≡ ok tt
unfolding validate_cublaslt_run_buffers require_aligned require
buffers_are_accepted = refl

unaligned_is_refused :
    validate_cublaslt_run_buffers (record buffers { weight = some 8200 }) requirements
    ≡ err (matmul_error (bytes "cuBLASLt matmul weight is not 16-byte aligned"))
unfolding validate_cublaslt_run_buffers require_aligned require
unaligned_is_refused = refl

validate_run_buffers-InBuffers_example :
    InBuffers config buffers 1 2 3 × (512 ≤ buffers.workspace_bytes)
validate_run_buffers-InBuffers_example =
    validate_run_buffers-InBuffers config plan buffers 512 1 2 3 config_is_planned
      buffers_are_accepted (omega arith) (omega arith) (omega arith)
