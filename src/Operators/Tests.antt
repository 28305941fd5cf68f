-- ===== src/Operators/Tests.antt =====
-- Runs of the check of a tensor's description.
use raftinfer.Base.{
  ℕ, some, none, zero, suc, ◌≡◌, refl, ◌↔◌, arith, ok, err, bytes, invalid_argument,
}
use raftinfer.Base.Int.{ℤ, pos}
use raftinfer.Base.Sizes.{checked_mul, checked_add}
use raftinfer.Operators.{
  TensorDesc, validate_tensor_desc, validate_common_metadata, require_positive,
  validate_unquantized_tensor, element_size, required_bytes,
}
use raftinfer.Operators.Exact.{IsDescribed, validate_tensor_desc-IsDescribed}

-- Two rows of three floats, the rows 16 bytes apart.
abbrev of_two : ℤ → ℤ → ℕ → ℤ
of_two a b zero = a
of_two a b (suc k) = b

abbrev rows : ℕ → TensorDesc
rows byte_size = record {
  address = some 4096;
  scales = none;
  zero_points = none;
  byte_size = byte_size;
  shape = of_two (pos 2) (pos 3);
  strides = of_two (pos 16) (pos 4);
  rank = 2;
  dtype = 1;
  quant = 0;
  memory = 0;
}

rows_accepted : validate_tensor_desc (rows 28) ≡ ok tt
unfolding validate_tensor_desc validate_common_metadata require_positive validate_unquantized_tensor
    element_size required_bytes checked_mul checked_add
rows_accepted = refl

rows_short :
    validate_tensor_desc (rows 27)
    ≡ err (invalid_argument (bytes "tensor byte_size is smaller than shape and strides require"))
unfolding validate_tensor_desc validate_common_metadata require_positive validate_unquantized_tensor
    element_size required_bytes checked_mul checked_add
rows_short = refl

validate_tensor_desc-IsDescribed_example :
    (validate_tensor_desc (rows 28) ≡ ok tt) ↔ IsDescribed (rows 28)
validate_tensor_desc-IsDescribed_example = validate_tensor_desc-IsDescribed (rows 28) (omega arith)
