-- ===== src/Operators.antt =====
-- The check of a tensor's description, cpp/operators/tensor_validation.cpp. An array of the structure is a
-- function of the index, a null pointer is none, and an enumeration of C is its number, since a
-- caller may pass one that has no name.
pub mod Exact
mod Sums
pub mod Tests
use raftinfer.Base.{
  ℕ, zero, suc, ◌+◌, ◌-◌, ◌*◌, ◌/◌, Option, none, some, Bool, true, false, not, ◌&&◌, ◌||◌, ltb,
  leb, ◌==◌, if◌then◌else◌, bytes, Result, ok, err, Error, invalid_argument, throw_if, ◌>>=◌, ◌>>◌,
  size_max,
}
use raftinfer.Base.Sizes.{checked_add, checked_mul}
use raftinfer.Base.Int.{ℤ, above_zero}

-- RaftInferTensorDesc
pub record TensorDesc : Type 0 where
  pub address : Option ℕ
  pub scales : Option ℕ
  pub zero_points : Option ℕ
  pub byte_size : ℕ
  pub shape : ℕ → ℤ
  pub strides : ℕ → ℤ
  pub rank : ℕ
  pub dtype : ℕ
  pub quant : ℕ
  pub memory : ℕ

abbrev pub is_known_dtype : ℕ → Bool
is_known_dtype dtype = dtype == 1 || (dtype == 2 || (dtype == 3 || dtype == 100))

abbrev pub is_known_quant : ℕ → Bool
is_known_quant quant = quant == 0 || quant == 1

abbrev pub is_known_memory : ℕ → Bool
is_known_memory memory = memory == 0 || memory == 1

unfoldable pub element_size : ℕ → Result ℕ
element_size dtype =
    if dtype == 1
    then ok 4
    else if dtype == 2 || dtype == 3
    then ok 2
    else err (invalid_argument (bytes "dtype has no unquantized element size"))

abbrev pub is_null : Option ℕ → Bool
is_null none = true
is_null (some address) = false

-- The loop over the dimensions, `count` of them from `index` on. A number is above zero exactly if its
-- part above zero is.
unfoldable pub require_positive : (ℕ → ℤ) → ℕ → ℕ → Result (Unit {0})
require_positive shape zero index = ok tt
require_positive shape (suc count) index = do
  throw_if (above_zero (shape index) == 0)
      (invalid_argument (bytes "tensor dimensions must be positive"))
  require_positive shape count (suc index)

unfoldable pub validate_common_metadata : TensorDesc → Result (Unit {0})
validate_common_metadata desc = do
  throw_if (is_null desc.address) (invalid_argument (bytes "tensor data is required"))
  throw_if (desc.rank == 0 || ltb 4 desc.rank)
      (invalid_argument (bytes "tensor rank must be between 1 and 4"))
  throw_if (not (is_known_dtype desc.dtype)) (invalid_argument (bytes "unknown tensor dtype"))
  throw_if (not (is_known_quant desc.quant))
      (invalid_argument (bytes "unknown tensor quantization format"))
  throw_if (not (is_known_memory desc.memory))
      (invalid_argument (bytes "unknown tensor memory type"))
  require_positive desc.shape desc.rank 0

-- The message is shut, so that proofs do not compute with it.
unfoldable pub range_overflow : Error
range_overflow = invalid_argument (bytes "tensor byte range overflow")

-- The loop that sums the bytes up to the last element.
unfoldable pub required_bytes : (ℕ → ℤ) → (ℕ → ℤ) → ℕ → ℕ → ℕ → Result ℕ
required_bytes shape strides zero index required = ok required
required_bytes shape strides (suc count) index required = do
  throw_if (above_zero (strides index) == 0)
      (invalid_argument (bytes "unquantized tensor strides must be positive"))
  dim_bytes ← checked_mul (above_zero (shape index) - 1) (above_zero (strides index)) range_overflow
  required' ← checked_add required dim_bytes range_overflow
  required_bytes shape strides count (suc index) required'

unfoldable pub validate_unquantized_tensor : TensorDesc → Result (Unit {0})
validate_unquantized_tensor desc = do
  throw_if (not (desc.quant == 0))
      (invalid_argument (bytes "unquantized dtype requires RAFTINFER_QUANT_NONE"))
  bytes_per_element ← element_size desc.dtype
  required ← required_bytes desc.shape desc.strides desc.rank 0 bytes_per_element
  throw_if (ltb desc.byte_size required)
      (invalid_argument (bytes "tensor byte_size is smaller than shape and strides require"))

unfoldable pub validate_quantized_tensor : TensorDesc → Result (Unit {0})
validate_quantized_tensor desc = do
  throw_if (is_null desc.scales) (invalid_argument (bytes "quantized tensor scales are required"))
  throw_if (desc.byte_size == 0)
      (invalid_argument (bytes "quantized tensor byte_size must be non-zero"))
  throw_if (not (desc.dtype == 100) || not (desc.quant == 1))
      (invalid_argument (bytes "unsupported quantized tensor format"))

unfoldable pub validate_tensor_desc : TensorDesc → Result (Unit {0})
validate_tensor_desc desc =
    validate_common_metadata desc
    >> (if desc.quant == 0
        then validate_unquantized_tensor desc
        else validate_quantized_tensor desc)
