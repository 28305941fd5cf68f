-- ===== src/Kernels/Delta.antt =====
-- cpp/kernels/qwen35_delta.cu and .cuh: the shape of a gated-delta block and its sizes. A `float` is its bits.
use raftinfer.Base.{
  ℕ, ◌-◌, ◌%◌, Bool, not, ◌&&◌, leb, ltb, ◌==◌, Text, bytes, Result, ok, Error, delta_error,
  throw_if, ◌>>=◌, ◌>>◌,
}
use raftinfer.Base.Sizes.{checked_add, checked_mul}
use raftinfer.Model.Fields.{is_finite_float}

pub record GatedDeltaShape : Type 0 where
  pub tokens : ℕ
  pub hidden_size : ℕ
  pub key_heads : ℕ
  pub value_heads : ℕ
  pub key_dim : ℕ
  pub value_dim : ℕ
  pub conv_width : ℕ
  pub epsilon : ℕ

pub record CheckedShape : Type 0 where
  pub key_size : ℕ
  pub value_size : ℕ
  pub conv_dim : ℕ
  pub token_stride : ℕ
  pub convolution_elements : ℕ
  pub recurrent_elements : ℕ
  pub workspace_bytes : ℕ

unfoldable pub require : Bool → Text → Result (Unit {0})
require condition message = throw_if (not condition) (delta_error message)

-- `x >= 0.0F` for a finite x: the sign is not set, or the number is zero.
abbrev pub is_not_negative : ℕ → Bool
is_not_negative n = leb n 2147483648

-- Only whether it throws is used.
unfoldable pub checked_block_count : ℕ → Text → Result (Unit {0})
checked_block_count blocks message = require (leb blocks 2147483647) message

unfoldable pub require_delta_sizes : GatedDeltaShape → Result (Unit {0})
require_delta_sizes s = do
  require (ltb 0 s.tokens) (bytes "gated-delta tokens must be positive")
  require (ltb 0 s.hidden_size) (bytes "gated-delta hidden_size must be positive")
  require (ltb 0 s.key_heads) (bytes "gated-delta key_heads must be positive")
  require (ltb 0 s.value_heads) (bytes "gated-delta value_heads must be positive")
  require (ltb 0 s.key_dim) (bytes "gated-delta key_dim must be positive")
  require (ltb 0 s.value_dim) (bytes "gated-delta value_dim must be positive")
  require (ltb 0 s.conv_width) (bytes "gated-delta conv_width must be positive")
  require (is_finite_float s.epsilon && is_not_negative s.epsilon)
      (bytes "gated-delta epsilon must be finite and non-negative")
  require (s.value_heads % s.key_heads == 0)
      (bytes "gated-delta value_heads must be divisible by key_heads")

abbrev input_overflow : Error
input_overflow = delta_error (bytes "gated-delta input shape overflow")

abbrev workspace_overflow : Error
workspace_overflow = delta_error (bytes "gated-delta workspace shape overflow")

abbrev convolution_overflow : Error
convolution_overflow = delta_error (bytes "gated-delta convolution shape overflow")

-- The convolved inputs and the outputs of all tokens, as floats.
unfoldable pub workspace_for : GatedDeltaShape → ℕ → Result ℕ
workspace_for s conv_dim = do
  per_token ← checked_add conv_dim s.hidden_size workspace_overflow
  workspace_elements ← checked_mul s.tokens per_token workspace_overflow
  checked_mul workspace_elements 4 (delta_error (bytes "gated-delta workspace byte size overflow"))

unfoldable pub validate_shape : GatedDeltaShape → Result CheckedShape
validate_shape s = do
  require_delta_sizes s
  key_size ←
      checked_mul s.key_heads s.key_dim (delta_error (bytes "gated-delta key shape overflow"))
  value_size ←
      checked_mul s.value_heads s.value_dim (delta_error (bytes "gated-delta value shape overflow"))
  require (value_size == s.hidden_size)
      (bytes "gated-delta value_heads * value_dim must equal hidden_size")
  two_key_size ← checked_mul key_size 2 convolution_overflow
  conv_dim ← checked_add two_key_size value_size convolution_overflow
  two_value_heads ← checked_mul s.value_heads 2 input_overflow
  with_heads ← checked_add conv_dim two_value_heads input_overflow
  token_stride ← checked_add with_heads s.hidden_size input_overflow
  input ← checked_mul s.tokens token_stride input_overflow
  output ←
      checked_mul s.tokens s.hidden_size (delta_error (bytes "gated-delta output shape overflow"))
  weight ←
      checked_mul conv_dim s.conv_width
        (delta_error (bytes "gated-delta convolution weight shape overflow"))
  convolution_elements ←
      checked_mul conv_dim (s.conv_width - 1)
        (delta_error (bytes "gated-delta convolution state shape overflow"))
  recurrent_elements ←
      checked_mul value_size s.key_dim
        (delta_error (bytes "gated-delta recurrent state shape overflow"))
  workspace_bytes ← workspace_for s conv_dim
  checked_block_count s.tokens (bytes "gated-delta token count exceeds launch limit")
  checked_block_count conv_dim (bytes "gated-delta convolution grid overflow")
  key_blocks ←
      checked_mul s.key_heads 2 (delta_error (bytes "gated-delta Q/K normalization grid overflow"))
  checked_block_count key_blocks (bytes "gated-delta Q/K normalization grid overflow")
  checked_block_count s.value_heads (bytes "gated-delta recurrent grid overflow")
  ok (record {
    key_size = key_size;
    value_size = value_size;
    conv_dim = conv_dim;
    token_stride = token_stride;
    convolution_elements = convolution_elements;
    recurrent_elements = recurrent_elements;
    workspace_bytes = workspace_bytes;
  })

unfoldable pub qwen35_gated_delta_workspace_bytes : GatedDeltaShape → Result ℕ
qwen35_gated_delta_workspace_bytes s = do checked ← validate_shape s; ok checked.workspace_bytes
