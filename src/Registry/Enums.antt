-- ===== src/Registry/Enums.antt =====
-- The enumerations that a kernel is selected by: cpp/registry/operator_registry.hpp and
-- cpp/include/raftinfer/tensor.h. `code` is the number of an enumerator, and two are compared by it.
use raftinfer.Base.{ℕ, ◌≡◌, refl, sym, ap, ◌∙◌, ◌==◌, if◌then◌else◌}

pub data OperatorKind : Type 0 where
  unspecified matmul embedding_lookup rms_norm residual_add partial_rope : OperatorKind
  qk_normalize qk_norm_rope sigmoid_gate swi_glu causal_attention : OperatorKind
  convolution_shift_update recurrent_delta_update delta_output_norm_gate : OperatorKind
  gated_delta_net argmax : OperatorKind

abbrev pub operator_kind_code : OperatorKind → ℕ
operator_kind_code OperatorKind.unspecified = 0
operator_kind_code OperatorKind.matmul = 1
operator_kind_code OperatorKind.embedding_lookup = 2
operator_kind_code OperatorKind.rms_norm = 3
operator_kind_code OperatorKind.residual_add = 4
operator_kind_code OperatorKind.partial_rope = 5
operator_kind_code OperatorKind.qk_normalize = 6
operator_kind_code OperatorKind.qk_norm_rope = 7
operator_kind_code OperatorKind.sigmoid_gate = 8
operator_kind_code OperatorKind.swi_glu = 9
operator_kind_code OperatorKind.causal_attention = 10
operator_kind_code OperatorKind.convolution_shift_update = 11
operator_kind_code OperatorKind.recurrent_delta_update = 12
operator_kind_code OperatorKind.delta_output_norm_gate = 13
operator_kind_code OperatorKind.gated_delta_net = 14
operator_kind_code OperatorKind.argmax = 15

abbrev operator_kind_of : ℕ → OperatorKind
operator_kind_of n =
    if n == 0
    then OperatorKind.unspecified
    else if n == 1
    then OperatorKind.matmul
    else if n == 2
    then OperatorKind.embedding_lookup
    else if n == 3
    then OperatorKind.rms_norm
    else if n == 4
    then OperatorKind.residual_add
    else if n == 5
    then OperatorKind.partial_rope
    else if n == 6
    then OperatorKind.qk_normalize
    else if n == 7
    then OperatorKind.qk_norm_rope
    else if n == 8
    then OperatorKind.sigmoid_gate
    else if n == 9
    then OperatorKind.swi_glu
    else if n == 10
    then OperatorKind.causal_attention
    else if n == 11
    then OperatorKind.convolution_shift_update
    else if n == 12
    then OperatorKind.recurrent_delta_update
    else if n == 13
    then OperatorKind.delta_output_norm_gate
    else if n == 14
    then OperatorKind.gated_delta_net
    else OperatorKind.argmax

operator_kind_of-code : (x : OperatorKind) → operator_kind_of (operator_kind_code x) ≡ x
operator_kind_of-code OperatorKind.unspecified = refl
operator_kind_of-code OperatorKind.matmul = refl
operator_kind_of-code OperatorKind.embedding_lookup = refl
operator_kind_of-code OperatorKind.rms_norm = refl
operator_kind_of-code OperatorKind.residual_add = refl
operator_kind_of-code OperatorKind.partial_rope = refl
operator_kind_of-code OperatorKind.qk_normalize = refl
operator_kind_of-code OperatorKind.qk_norm_rope = refl
operator_kind_of-code OperatorKind.sigmoid_gate = refl
operator_kind_of-code OperatorKind.swi_glu = refl
operator_kind_of-code OperatorKind.causal_attention = refl
operator_kind_of-code OperatorKind.convolution_shift_update = refl
operator_kind_of-code OperatorKind.recurrent_delta_update = refl
operator_kind_of-code OperatorKind.delta_output_norm_gate = refl
operator_kind_of-code OperatorKind.gated_delta_net = refl
operator_kind_of-code OperatorKind.argmax = refl

pub operator_kind_code-injective :
    (x y : OperatorKind) → operator_kind_code x ≡ operator_kind_code y → x ≡ y
operator_kind_code-injective x y h =
    sym (operator_kind_of-code x) ∙ ap operator_kind_of h ∙ operator_kind_of-code y

pub data ExecutionRegime : Type 0 where
  host_dispatch cuda_graph : ExecutionRegime

abbrev pub execution_regime_code : ExecutionRegime → ℕ
execution_regime_code ExecutionRegime.host_dispatch = 0
execution_regime_code ExecutionRegime.cuda_graph = 1

abbrev execution_regime_of : ℕ → ExecutionRegime
execution_regime_of n = if n == 0 then ExecutionRegime.host_dispatch else ExecutionRegime.cuda_graph

execution_regime_of-code : (x : ExecutionRegime) → execution_regime_of (execution_regime_code x) ≡ x
execution_regime_of-code ExecutionRegime.host_dispatch = refl
execution_regime_of-code ExecutionRegime.cuda_graph = refl

pub execution_regime_code-injective :
    (x y : ExecutionRegime) → execution_regime_code x ≡ execution_regime_code y → x ≡ y
execution_regime_code-injective x y h =
    sym (execution_regime_of-code x) ∙ ap execution_regime_of h ∙ execution_regime_of-code y

pub data CudaArchitecture : Type 0 where
  unspecified sm90 sm120a : CudaArchitecture

abbrev pub cuda_architecture_code : CudaArchitecture → ℕ
cuda_architecture_code CudaArchitecture.unspecified = 0
cuda_architecture_code CudaArchitecture.sm90 = 1
cuda_architecture_code CudaArchitecture.sm120a = 2

abbrev cuda_architecture_of : ℕ → CudaArchitecture
cuda_architecture_of n =
    if n == 0
    then CudaArchitecture.unspecified
    else if n == 1
    then CudaArchitecture.sm90
    else CudaArchitecture.sm120a

cuda_architecture_of-code :
    (x : CudaArchitecture) → cuda_architecture_of (cuda_architecture_code x) ≡ x
cuda_architecture_of-code CudaArchitecture.unspecified = refl
cuda_architecture_of-code CudaArchitecture.sm90 = refl
cuda_architecture_of-code CudaArchitecture.sm120a = refl

pub cuda_architecture_code-injective :
    (x y : CudaArchitecture) → cuda_architecture_code x ≡ cuda_architecture_code y → x ≡ y
cuda_architecture_code-injective x y h =
    sym (cuda_architecture_of-code x) ∙ ap cuda_architecture_of h ∙ cuda_architecture_of-code y

pub data ShapeBucket : Type 0 where
  unspecified decode prefill1 prefill2 prefill4 prefill17 tail : ShapeBucket

abbrev pub shape_bucket_code : ShapeBucket → ℕ
shape_bucket_code ShapeBucket.unspecified = 0
shape_bucket_code ShapeBucket.decode = 1
shape_bucket_code ShapeBucket.prefill1 = 2
shape_bucket_code ShapeBucket.prefill2 = 3
shape_bucket_code ShapeBucket.prefill4 = 4
shape_bucket_code ShapeBucket.prefill17 = 5
shape_bucket_code ShapeBucket.tail = 6

abbrev shape_bucket_of : ℕ → ShapeBucket
shape_bucket_of n =
    if n == 0
    then ShapeBucket.unspecified
    else if n == 1
    then ShapeBucket.decode
    else if n == 2
    then ShapeBucket.prefill1
    else if n == 3
    then ShapeBucket.prefill2
    else if n == 4
    then ShapeBucket.prefill4
    else if n == 5
    then ShapeBucket.prefill17
    else ShapeBucket.tail

shape_bucket_of-code : (x : ShapeBucket) → shape_bucket_of (shape_bucket_code x) ≡ x
shape_bucket_of-code ShapeBucket.unspecified = refl
shape_bucket_of-code ShapeBucket.decode = refl
shape_bucket_of-code ShapeBucket.prefill1 = refl
shape_bucket_of-code ShapeBucket.prefill2 = refl
shape_bucket_of-code ShapeBucket.prefill4 = refl
shape_bucket_of-code ShapeBucket.prefill17 = refl
shape_bucket_of-code ShapeBucket.tail = refl

pub shape_bucket_code-injective :
    (x y : ShapeBucket) → shape_bucket_code x ≡ shape_bucket_code y → x ≡ y
shape_bucket_code-injective x y h =
    sym (shape_bucket_of-code x) ∙ ap shape_bucket_of h ∙ shape_bucket_of-code y

pub data KernelProvenance : Type 0 where
  unspecified project_native upstream_bw24 : KernelProvenance

abbrev pub kernel_provenance_code : KernelProvenance → ℕ
kernel_provenance_code KernelProvenance.unspecified = 0
kernel_provenance_code KernelProvenance.project_native = 1
kernel_provenance_code KernelProvenance.upstream_bw24 = 2

abbrev kernel_provenance_of : ℕ → KernelProvenance
kernel_provenance_of n =
    if n == 0
    then KernelProvenance.unspecified
    else if n == 1
    then KernelProvenance.project_native
    else KernelProvenance.upstream_bw24

kernel_provenance_of-code :
    (x : KernelProvenance) → kernel_provenance_of (kernel_provenance_code x) ≡ x
kernel_provenance_of-code KernelProvenance.unspecified = refl
kernel_provenance_of-code KernelProvenance.project_native = refl
kernel_provenance_of-code KernelProvenance.upstream_bw24 = refl

pub kernel_provenance_code-injective :
    (x y : KernelProvenance) → kernel_provenance_code x ≡ kernel_provenance_code y → x ≡ y
kernel_provenance_code-injective x y h =
    sym (kernel_provenance_of-code x) ∙ ap kernel_provenance_of h ∙ kernel_provenance_of-code y

pub data DataType : Type 0 where
  f32 f16 bf16 q4_k : DataType

abbrev pub data_type_code : DataType → ℕ
data_type_code DataType.f32 = 1
data_type_code DataType.f16 = 2
data_type_code DataType.bf16 = 3
data_type_code DataType.q4_k = 100

abbrev data_type_of : ℕ → DataType
data_type_of n =
    if n == 1
    then DataType.f32
    else if n == 2
    then DataType.f16
    else if n == 3
    then DataType.bf16
    else DataType.q4_k

data_type_of-code : (x : DataType) → data_type_of (data_type_code x) ≡ x
data_type_of-code DataType.f32 = refl
data_type_of-code DataType.f16 = refl
data_type_of-code DataType.bf16 = refl
data_type_of-code DataType.q4_k = refl

pub data_type_code-injective : (x y : DataType) → data_type_code x ≡ data_type_code y → x ≡ y
data_type_code-injective x y h = sym (data_type_of-code x) ∙ ap data_type_of h ∙ data_type_of-code y

pub data QuantFormat : Type 0 where
  none q4_k : QuantFormat

abbrev pub quant_format_code : QuantFormat → ℕ
quant_format_code QuantFormat.none = 0
quant_format_code QuantFormat.q4_k = 1

abbrev quant_format_of : ℕ → QuantFormat
quant_format_of n = if n == 0 then QuantFormat.none else QuantFormat.q4_k

quant_format_of-code : (x : QuantFormat) → quant_format_of (quant_format_code x) ≡ x
quant_format_of-code QuantFormat.none = refl
quant_format_of-code QuantFormat.q4_k = refl

pub quant_format_code-injective :
    (x y : QuantFormat) → quant_format_code x ≡ quant_format_code y → x ≡ y
quant_format_code-injective x y h =
    sym (quant_format_of-code x) ∙ ap quant_format_of h ∙ quant_format_of-code y
