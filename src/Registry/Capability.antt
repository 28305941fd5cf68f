-- ===== src/Registry/Capability.antt =====
-- KernelCapability of cpp/registry/operator_registry.{hpp,cpp} and why one rejects a signature.
use raftinfer.Base.{
  ℕ, suc, List, [], ◌∷◌, ◌++◌, length, Option, none, some, Bool, true, false, not, ◌&&◌, ◌||◌, ◌==◌,
  ltb, if◌then◌else◌, Text, bytes,
}
use raftinfer.Base.Int.{ℤ, ltb_ℤ}
use raftinfer.Base.Texts.{to_string}
use raftinfer.Registry.Enums.{
  OperatorKind, ExecutionRegime, CudaArchitecture, ShapeBucket, KernelProvenance, DataType,
  QuantFormat, operator_kind_code, execution_regime_code, cuda_architecture_code, shape_bucket_code,
  data_type_code, quant_format_code,
}
use raftinfer.Registry.Signature.{TensorSignature, OperatorSignature}

pub record TensorConstraint : Type 0 where
  pub dtype : DataType
  pub quant : QuantFormat
  pub rank : ℕ
  pub alignment : ℕ
  pub min_shape : List ℤ
  pub max_shape : List ℤ

pub record KernelCapability : Type 0 where
  pub name : Text
  pub op : OperatorKind
  pub regime : ExecutionRegime
  pub architecture : CudaArchitecture
  pub shape_bucket : ShapeBucket
  pub provenance : KernelProvenance
  pub inputs : List TensorConstraint
  pub graph_safe : Bool
  pub deterministic : Bool
  pub workspace_bytes : ℕ
  pub priority : ℤ

-- `if (refused) append_reason(reasons, reason);`, as what it adds to the reasons.
unfoldable pub reason_if : Bool → Text → List Text
reason_if true reason = reason ∷ []
reason_if false reason = []

-- The loop over the dimensions, which stops at the first one outside its bounds. It runs behind
-- the test that the three lists have the same length.
abbrev pub outside_bounds : List ℤ → List ℤ → List ℤ → Bool
outside_bounds [] lows highs = false
outside_bounds (d ∷ ds) [] highs = true
outside_bounds (d ∷ ds) (low ∷ lows) [] = true
outside_bounds (d ∷ ds) (low ∷ lows) (high ∷ highs) =
    ltb_ℤ d low || (ltb_ℤ high d || outside_bounds ds lows highs)

unfoldable pub input_prefix : ℕ → Text
input_prefix input_index = bytes "input " ++ to_string input_index ++ bytes " "

unfoldable pub shape_reasons : TensorConstraint → TensorSignature → Text → List Text
shape_reasons constraint input prefix =
    if not (length input.shape == constraint.rank)
      || (not (length constraint.min_shape == constraint.rank)
          || not (length constraint.max_shape == constraint.rank))
    then (prefix ++ bytes "shape rank unsupported") ∷ []
    else reason_if (outside_bounds input.shape constraint.min_shape constraint.max_shape)
        (prefix ++ bytes "shape bounds unsupported")

unfoldable pub input_reasons : TensorConstraint → TensorSignature → Text → List Text
input_reasons constraint input prefix =
    reason_if (not (data_type_code input.dtype == data_type_code constraint.dtype))
      (prefix ++ bytes "dtype unsupported")
    ++ reason_if (not (quant_format_code input.quant == quant_format_code constraint.quant))
        (prefix ++ bytes "quantization unsupported")
    ++ reason_if (not (input.rank == constraint.rank)) (prefix ++ bytes "rank unsupported")
    ++ reason_if (not (input.alignment == constraint.alignment))
        (prefix ++ bytes "alignment unsupported")
    ++ shape_reasons constraint input prefix

-- The loop over the inputs from `input_index` on. It runs behind the test that there are as many
-- of the one as of the other.
unfoldable pub inputs_reasons : List TensorConstraint → List TensorSignature → ℕ → List Text
inputs_reasons [] ts input_index = []
inputs_reasons (c ∷ cs) [] input_index = []
inputs_reasons (c ∷ cs) (t ∷ ts) input_index =
    input_reasons c t (input_prefix input_index) ++ inputs_reasons cs ts (suc input_index)

unfoldable pub count_reasons : KernelCapability → OperatorSignature → List Text
count_reasons c s =
    if not (length s.inputs == length c.inputs)
    then bytes "input count mismatch" ∷ []
    else inputs_reasons c.inputs s.inputs 0

unfoldable pub reasons : KernelCapability → OperatorSignature → List Text
reasons c s =
    reason_if (not (operator_kind_code s.op == operator_kind_code c.op))
      (bytes "operator kind mismatch")
    ++ reason_if (not (execution_regime_code s.regime == execution_regime_code c.regime))
        (bytes "execution regime mismatch")
    ++ reason_if
        (not (cuda_architecture_code s.architecture == cuda_architecture_code c.architecture))
        (bytes "architecture unsupported")
    ++ reason_if (not (shape_bucket_code s.shape_bucket == shape_bucket_code c.shape_bucket))
        (bytes "shape bucket unsupported")
    ++ reason_if (s.graph_capture && not c.graph_safe) (bytes "not graph safe")
    ++ reason_if (s.deterministic && not c.deterministic) (bytes "not deterministic")
    ++ reason_if (ltb s.workspace_bytes c.workspace_bytes) (bytes "workspace capacity insufficient")
    ++ count_reasons c s

-- The loop of join_reasons after its first round: a separator stands before each reason.
abbrev join_rest : Text → List Text → Text
join_rest joined [] = joined
join_rest joined (r ∷ rs) = join_rest (joined ++ bytes "; " ++ r) rs

unfoldable pub join_reasons : List Text → Text
join_reasons [] = []
join_reasons (r ∷ rs) = join_rest r rs

abbrev pub joined_unless_empty : List Text → Option Text
joined_unless_empty [] = none
joined_unless_empty (r ∷ rs) = some (join_reasons (r ∷ rs))

unfoldable pub rejection_reason : KernelCapability → OperatorSignature → Option Text
rejection_reason c s = joined_unless_empty (reasons c s)

abbrev pub matches : KernelCapability → OperatorSignature → Bool
matches c s = elim (rejection_reason c s) [ none ↦ true | some reason ↦ false ]
