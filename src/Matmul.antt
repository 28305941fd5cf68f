-- ===== src/Matmul.antt =====
-- The host's part of a plan of a matrix product, cpp/execution/cublaslt_matmul.cu: the checks of a
-- configuration, the extents of the matrices, and the check of the buffers of a run. The calls of cuBLASLt and of
-- CUDA are not modelled.
pub mod Exact
pub mod Runs
pub mod Tests
use raftinfer.Base.{
  ℕ, ◌*◌, ◌%◌, Option, none, some, Bool, true, false, not, ◌&&◌, ◌||◌, leb, ◌==◌, if◌then◌else◌,
  Text, bytes, Result, ok, err, Error, matmul_error, ◌>>=◌, ◌>>◌, throw_if,
}
use raftinfer.Base.Sizes.{checked_mul}
use raftinfer.Registry.Enums.{DataType, data_type_code}

pub data CublasLtMatrixOrder : Type 0 where
  row_major : CublasLtMatrixOrder

pub record CublasLtMatmulShape : Type 0 where
  pub m : ℕ
  pub n : ℕ
  pub k : ℕ
  pub transpose_input : Bool
  pub transpose_weight : Bool

pub record CublasLtMatmulConfig : Type 0 where
  pub shape : CublasLtMatmulShape
  pub input_dtype : DataType
  pub weight_dtype : DataType
  pub output_dtype : DataType
  pub input_order : CublasLtMatrixOrder
  pub weight_order : CublasLtMatrixOrder
  pub output_order : CublasLtMatrixOrder
  pub workspace_budget_bytes : ℕ

-- The matrices as they lie in memory.
pub record PhysicalShape : Type 0 where
  pub input_rows : ℕ
  pub input_cols : ℕ
  pub weight_rows : ℕ
  pub weight_cols : ℕ
  pub output_rows : ℕ
  pub output_cols : ℕ

unfoldable pub require : Bool → Text → Result (Unit {0})
require condition message = throw_if (not condition) (matmul_error message)

unfoldable pub dtype_size : DataType → Result ℕ
dtype_size DataType.f32 = ok 4
dtype_size DataType.f16 = ok 2
dtype_size DataType.bf16 = ok 2
dtype_size _ = err (matmul_error (bytes "cuBLASLt matmul supports only F32, F16, and BF16 tensors"))

abbrev pub is_row_major : CublasLtMatrixOrder → Bool
is_row_major row_major = true

unfoldable pub validate_order : CublasLtMatrixOrder → Result (Unit {0})
validate_order order =
    require (is_row_major order) (bytes "cuBLASLt matmul requires contiguous row-major matrices")

-- std::numeric_limits<std::int32_t>::max()
abbrev pub descriptor_limit : ℕ
descriptor_limit = 2147483647

unfoldable pub validate_cublaslt_shape : CublasLtMatmulShape → Result (Unit {0})
validate_cublaslt_shape shape = do
  require (not (shape.m == 0) && (not (shape.n == 0) && not (shape.k == 0)))
      (bytes "cuBLASLt matmul dimensions must be non-zero")
  require
      (leb shape.m descriptor_limit
        && (leb shape.n descriptor_limit && leb shape.k descriptor_limit))
      (bytes "cuBLASLt matmul dimensions exceed int32 descriptor range")

unfoldable pub physical_of : CublasLtMatmulShape → PhysicalShape
physical_of shape = record {
  input_rows = if shape.transpose_input then shape.k else shape.m;
  input_cols = if shape.transpose_input then shape.m else shape.k;
  weight_rows = if shape.transpose_weight then shape.n else shape.k;
  weight_cols = if shape.transpose_weight then shape.k else shape.n;
  output_rows = shape.m;
  output_cols = shape.n;
}

unfoldable pub physical_shape : CublasLtMatmulShape → Result PhysicalShape
physical_shape shape = do validate_cublaslt_shape shape; ok (physical_of shape)

-- What CublasLtMatmulPlan::create has computed in front of its first call of CUDA.
pub record PlanSizes : Type 0 where
  pub physical : PhysicalShape
  pub input_bytes : ℕ
  pub weight_bytes : ℕ
  pub output_bytes : ℕ

abbrev pub same_dtype : DataType → DataType → Bool
same_dtype a b = data_type_code a == data_type_code b

-- The checks of the types and the orders.
unfoldable pub validate_config : CublasLtMatmulConfig → Result (Unit {0})
validate_config config = do
  validate_order config.input_order
  validate_order config.weight_order
  validate_order config.output_order
  require (same_dtype config.weight_dtype config.input_dtype)
      (bytes "cuBLASLt matmul input and weight dtypes must match")
  require
      (same_dtype config.output_dtype config.input_dtype
        || same_dtype config.output_dtype DataType.f32)
      (bytes "cuBLASLt matmul output must match inputs or be F32")

-- One matrix's number of bytes.
unfoldable pub matrix_bytes : ℕ → ℕ → ℕ → Text → Text → Result ℕ
matrix_bytes rows cols element_bytes count_text size_text = do
  count ← checked_mul rows cols (matmul_error count_text)
  checked_mul count element_bytes (matmul_error size_text)

unfoldable pub plan_sizes : CublasLtMatmulConfig → Result PlanSizes
plan_sizes config = do
  validate_config config
  input_element_bytes ← dtype_size config.input_dtype
  weight_element_bytes ← dtype_size config.weight_dtype
  output_element_bytes ← dtype_size config.output_dtype
  physical ← physical_shape config.shape
  input_bytes ←
      matrix_bytes config.shape.m config.shape.k input_element_bytes
        (bytes "cuBLASLt input element count overflow") (bytes "cuBLASLt input byte size overflow")
  weight_bytes ←
      matrix_bytes config.shape.k config.shape.n weight_element_bytes
        (bytes "cuBLASLt weight element count overflow")
        (bytes "cuBLASLt weight byte size overflow")
  output_bytes ←
      matrix_bytes config.shape.m config.shape.n output_element_bytes
        (bytes "cuBLASLt output element count overflow")
        (bytes "cuBLASLt output byte size overflow")
  ok (record {
    physical = physical;
    input_bytes = input_bytes;
    weight_bytes = weight_bytes;
    output_bytes = output_bytes;
  })

-- An address, or none for a null pointer.
pub record CublasLtRunBuffers : Type 0 where
  pub input : Option ℕ
  pub input_bytes : ℕ
  pub weight : Option ℕ
  pub weight_bytes : ℕ
  pub output : Option ℕ
  pub output_bytes : ℕ
  pub workspace : Option ℕ
  pub workspace_bytes : ℕ

pub record CublasLtBufferRequirements : Type 0 where
  pub input_bytes : ℕ
  pub weight_bytes : ℕ
  pub output_bytes : ℕ
  pub workspace_bytes : ℕ

abbrev pub is_given : Option ℕ → Bool
is_given none = false
is_given (some address) = true

abbrev pub address_of : Option ℕ → ℕ
address_of none = 0
address_of (some address) = address

unfoldable pub require_aligned : Option ℕ → ℕ → Text → Result (Unit {0})
require_aligned pointer alignment message = require (address_of pointer % alignment == 0) message

abbrev pub require_workspace_aligned : Option ℕ → ℕ → Result (Unit {0})
require_workspace_aligned workspace required =
    if required == 0
    then ok tt
    else require_aligned workspace 256 (bytes "cuBLASLt matmul workspace is not 256-byte aligned")

unfoldable pub validate_cublaslt_run_buffers :
    CublasLtRunBuffers → CublasLtBufferRequirements → Result (Unit {0})
validate_cublaslt_run_buffers buffers requirements = do
  require (is_given buffers.input) (bytes "cuBLASLt matmul input pointer is null")
  require (is_given buffers.weight) (bytes "cuBLASLt matmul weight pointer is null")
  require (is_given buffers.output) (bytes "cuBLASLt matmul output pointer is null")
  require (buffers.input_bytes == requirements.input_bytes)
      (bytes "cuBLASLt matmul input byte size mismatch")
  require (buffers.weight_bytes == requirements.weight_bytes)
      (bytes "cuBLASLt matmul weight byte size mismatch")
  require (buffers.output_bytes == requirements.output_bytes)
      (bytes "cuBLASLt matmul output byte size mismatch")
  require (leb requirements.workspace_bytes buffers.workspace_bytes)
      (bytes "cuBLASLt matmul workspace is too small")
  require (requirements.workspace_bytes == 0 || is_given buffers.workspace)
      (bytes "cuBLASLt matmul workspace pointer is null")
  require_aligned buffers.input 16 (bytes "cuBLASLt matmul input is not 16-byte aligned")
  require_aligned buffers.weight 16 (bytes "cuBLASLt matmul weight is not 16-byte aligned")
  require_aligned buffers.output 16 (bytes "cuBLASLt matmul output is not 16-byte aligned")
  require_workspace_aligned buffers.workspace requirements.workspace_bytes
