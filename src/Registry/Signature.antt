-- ===== src/Registry/Signature.antt =====
-- TensorSignature and OperatorSignature of cpp/registry/operator_registry.hpp with their defaulted
-- `operator==`.
use raftinfer.Base.{
  ℕ, List, [], ◌∷◌, Bool, true, false, ◌&&◌, &&-eq-true, ==_iff, ◌==◌, ◌≡◌, refl, arith,
}
use raftinfer.Base.Int.{ℤ, eqb_ℤ, eqb_ℤ-eq, eqb_ℤ_self}
use raftinfer.Registry.Enums.{
  OperatorKind, ExecutionRegime, CudaArchitecture, ShapeBucket, DataType, QuantFormat,
  operator_kind_code, execution_regime_code, cuda_architecture_code, shape_bucket_code,
  data_type_code, quant_format_code, operator_kind_code-injective, execution_regime_code-injective,
  cuda_architecture_code-injective, shape_bucket_code-injective, data_type_code-injective,
  quant_format_code-injective,
}

pub record TensorSignature : Type 0 where
  pub dtype : DataType
  pub quant : QuantFormat
  pub rank : ℕ
  pub alignment : ℕ
  pub shape : List ℤ

pub record OperatorSignature : Type 0 where
  pub op : OperatorKind
  pub regime : ExecutionRegime
  pub architecture : CudaArchitecture
  pub shape_bucket : ShapeBucket
  pub graph_capture : Bool
  pub deterministic : Bool
  pub workspace_bytes : ℕ
  pub inputs : List TensorSignature

abbrev flag_eq : Bool → Bool → Bool
flag_eq true b = b
flag_eq false true = false
flag_eq false false = true

abbrev shape_eq : List ℤ → List ℤ → Bool
shape_eq [] [] = true
shape_eq [] (e ∷ es) = false
shape_eq (d ∷ ds) [] = false
shape_eq (d ∷ ds) (e ∷ es) = eqb_ℤ d e && shape_eq ds es

abbrev tensor_eq : TensorSignature → TensorSignature → Bool
tensor_eq a b =
    data_type_code a.dtype == data_type_code b.dtype
    && quant_format_code a.quant == quant_format_code b.quant
    && a.rank == b.rank
    && a.alignment == b.alignment
    && shape_eq a.shape b.shape

abbrev tensors_eq : List TensorSignature → List TensorSignature → Bool
tensors_eq [] [] = true
tensors_eq [] (b ∷ us) = false
tensors_eq (a ∷ ts) [] = false
tensors_eq (a ∷ ts) (b ∷ us) = tensor_eq a b && tensors_eq ts us

unfoldable pub signature_eq : OperatorSignature → OperatorSignature → Bool
signature_eq a b =
    operator_kind_code a.op == operator_kind_code b.op
    && execution_regime_code a.regime == execution_regime_code b.regime
    && cuda_architecture_code a.architecture == cuda_architecture_code b.architecture
    && shape_bucket_code a.shape_bucket == shape_bucket_code b.shape_bucket
    && flag_eq a.graph_capture b.graph_capture
    && flag_eq a.deterministic b.deterministic
    && a.workspace_bytes == b.workspace_bytes
    && tensors_eq a.inputs b.inputs

flag_eq-eq : (a b : Bool) → flag_eq a b ≡ true → a ≡ b
flag_eq-eq true true h = refl
flag_eq-eq true false h = cc
flag_eq-eq false true h = cc
flag_eq-eq false false h = refl

flag_eq_self : (a : Bool) → flag_eq a a ≡ true
flag_eq_self true = refl
flag_eq_self false = refl

shape_eq-eq : (s t : List ℤ) → shape_eq s t ≡ true → s ≡ t
shape_eq-eq [] [] h = refl
shape_eq-eq [] (e ∷ es) h = cc
shape_eq-eq (d ∷ ds) [] h = cc
shape_eq-eq (d ∷ ds) (e ∷ es) h = ground (arith, shape_eq-eq ds es, eqb_ℤ-eq d e)

shape_eq_self : (s : List ℤ) → shape_eq s s ≡ true
shape_eq_self [] = refl
shape_eq_self (d ∷ ds) = ground (arith, shape_eq_self ds, eqb_ℤ_self d)

tensor_eq-eq : (a b : TensorSignature) → tensor_eq a b ≡ true → a ≡ b
tensor_eq-eq a b h =
    let p4 = &&-eq-true _ _ h in
    let p3 = &&-eq-true _ _ p4.0 in
    let p2 = &&-eq-true _ _ p3.0 in
    let p1 = &&-eq-true _ _ p2.0 in
    let dtype = data_type_code-injective a.dtype b.dtype ((==_iff _ _).0 p1.0) in
    let quant = quant_format_code-injective a.quant b.quant ((==_iff _ _).0 p1.1) in
    let rank = (==_iff a.rank b.rank).0 p2.1 in
    let alignment = (==_iff a.alignment b.alignment).0 p3.1 in
    let shape = shape_eq-eq a.shape b.shape p4.1 in
    λ i. record {
      dtype = dtype i;
      quant = quant i;
      rank = rank i;
      alignment = alignment i;
      shape = shape i;
    }

tensor_eq_self : (a : TensorSignature) → tensor_eq a a ≡ true
tensor_eq_self a = ground (arith, shape_eq_self a.shape)

tensors_eq-eq : (ts us : List TensorSignature) → tensors_eq ts us ≡ true → ts ≡ us
tensors_eq-eq [] [] h = refl
tensors_eq-eq [] (b ∷ us) h = cc
tensors_eq-eq (a ∷ ts) [] h = cc
tensors_eq-eq (a ∷ ts) (b ∷ us) h = ground (arith, tensors_eq-eq ts us, tensor_eq-eq a b)

tensors_eq_self : (ts : List TensorSignature) → tensors_eq ts ts ≡ true
tensors_eq_self [] = refl
tensors_eq_self (a ∷ ts) = rw (tensor_eq_self a) (tensors_eq_self ts)

pub signature_eq-eq : (a b : OperatorSignature) → signature_eq a b ≡ true → a ≡ b
unfolding signature_eq
signature_eq-eq a b h =
    let p7 = &&-eq-true _ _ h in
    let p6 = &&-eq-true _ _ p7.0 in
    let p5 = &&-eq-true _ _ p6.0 in
    let p4 = &&-eq-true _ _ p5.0 in
    let p3 = &&-eq-true _ _ p4.0 in
    let p2 = &&-eq-true _ _ p3.0 in
    let p1 = &&-eq-true _ _ p2.0 in
    let op = operator_kind_code-injective a.op b.op ((==_iff _ _).0 p1.0) in
    let regime = execution_regime_code-injective a.regime b.regime ((==_iff _ _).0 p1.1) in
    let architecture =
      cuda_architecture_code-injective a.architecture b.architecture ((==_iff _ _).0 p2.1) in
    let bucket = shape_bucket_code-injective a.shape_bucket b.shape_bucket ((==_iff _ _).0 p3.1) in
    let graph = flag_eq-eq a.graph_capture b.graph_capture p4.1 in
    let exact = flag_eq-eq a.deterministic b.deterministic p5.1 in
    let space = (==_iff a.workspace_bytes b.workspace_bytes).0 p6.1 in
    let tensors = tensors_eq-eq a.inputs b.inputs p7.1 in
    λ i. record {
      op = op i;
      regime = regime i;
      architecture = architecture i;
      shape_bucket = bucket i;
      graph_capture = graph i;
      deterministic = exact i;
      workspace_bytes = space i;
      inputs = tensors i;
    }

pub signature_eq_self : (a : OperatorSignature) → signature_eq a a ≡ true
unfolding signature_eq
signature_eq_self a =
    ground
      (arith, flag_eq_self a.graph_capture, flag_eq_self a.deterministic, tensors_eq_self a.inputs)
