-- ===== src/Session/What.antt =====
-- std::exception::what of the exceptions that the code throws. The texts of the standard library's own
-- exceptions are a parameter; that of DispatchError is cpp/registry/operator_registry.cpp's.
use raftinfer.Base.{
  Text, Error, invalid_argument, length_error, out_of_range, logic_error, runtime_error,
  config_error, manifest_error, model_io_error, cuda_weight_error, primitive_error, delta_error,
  matmul_error, executor_error, session_unavailable, session_cuda, dispatch_error, bad_alloc,
  bad_variant_access, bytes, ◌++◌, List, [], ◌∷◌,
}

pub record LibraryTexts : Type 0 where
  pub bad_alloc_text : Text
  pub bad_variant_access_text : Text

rejection_lines : List (Text × Text) → Text
rejection_lines [] = []
rejection_lines (r ∷ rs) = (10 ∷ r.0) ++ bytes ": " ++ r.1 ++ rejection_lines rs

unfoldable pub build_dispatch_message : List (Text × Text) → Text
unfolding rejection_lines
build_dispatch_message rejections = bytes "no matching kernel" ++ rejection_lines rejections

unfoldable pub what : LibraryTexts → Error → Text
what texts (invalid_argument t) = t
what texts (length_error t) = t
what texts (out_of_range t) = t
what texts (logic_error t) = t
what texts (runtime_error t) = t
what texts (Error.parse_error t) = t
what texts (config_error t) = t
what texts (manifest_error t) = t
what texts (model_io_error t) = t
what texts (cuda_weight_error t) = t
what texts (primitive_error t) = t
what texts (delta_error t) = t
what texts (matmul_error t) = t
what texts (executor_error t) = t
what texts (session_unavailable t) = t
what texts (session_cuda t) = t
what texts (dispatch_error rejections) = build_dispatch_message rejections
what texts bad_alloc = texts.bad_alloc_text
what texts bad_variant_access = texts.bad_variant_access_text
