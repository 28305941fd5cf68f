-- ===== src/Matmul/Exact.antt =====
-- cpp/execution/cublaslt_matmul.cu: which configurations have a plan, and its sizes.
use raftinfer.Base.{
  ℕ, ◌*◌, ◌≤◌, ◌<◌, Bool, true, false, Text, ok, matmul_error, bytes, if◌then◌else◌, >>=-eq-ok,
  ok-injective, ◌≡◌, ◌≢◌, ◌⊎◌, ◌↔◌, inl, inr, refl, sym, ap, subst, ◌∙◌, arith,
}
use native.Mathlib.Nat.{mul-le-mul, mul_comm}
use raftinfer.Base.Sizes.{checked_mul-eq-ok}
use raftinfer.Registry.Enums.{DataType, data_type_code, data_type_code-injective}
use raftinfer.Matmul.{
  CublasLtMatmulConfig, CublasLtMatmulShape, PlanSizes, require, dtype_size, validate_order,
  descriptor_limit, validate_cublaslt_shape, physical_of, physical_shape, validate_config,
  matrix_bytes, plan_sizes,
}

-- The number of bytes of an element.
abbrev pub element_bytes : DataType → ℕ
element_bytes DataType.f32 = 4
element_bytes DataType.q4_k = 0
element_bytes _ = 2

abbrev pub InRange : ℕ → Type 0
InRange n = (0 < n) × (n ≤ descriptor_limit)

-- What a configuration must be.
pub record IsPlannable (c : CublasLtMatmulConfig) : Type 0 where
  pub weight : c.weight_dtype ≡ c.input_dtype
  pub output : (c.output_dtype ≡ c.input_dtype) ⊎ (c.output_dtype ≡ DataType.f32)
  pub known : c.input_dtype ≢ DataType.q4_k
  pub m : InRange c.shape.m
  pub n : InRange c.shape.n
  pub k : InRange c.shape.k

-- A matrix of `a` rows and `b` columns, as it lies in memory: turned or not.
abbrev pub IsStored : Bool → ℕ → ℕ → ℕ → ℕ → Type 0
IsStored turned a b rows cols =
    ((turned ≡ true) × (rows ≡ b) × (cols ≡ a)) ⊎ ((turned ≡ false) × (rows ≡ a) × (cols ≡ b))

-- The plan's extents: the physical shape, and for each matrix exactly the bytes of its rows and columns.
pub record IsPlanOf (c : CublasLtMatmulConfig) (p : PlanSizes) : Type 0 where
  pub physical : p.physical ≡ physical_of c.shape
  pub input_stored :
      IsStored c.shape.transpose_input c.shape.m c.shape.k p.physical.input_rows
        p.physical.input_cols
  pub weight_stored :
      IsStored c.shape.transpose_weight c.shape.k c.shape.n p.physical.weight_rows
        p.physical.weight_cols
  pub output_stored :
      IsStored false c.shape.m c.shape.n p.physical.output_rows p.physical.output_cols
  pub input :
      p.input_bytes ≡ p.physical.input_rows * p.physical.input_cols * element_bytes c.input_dtype
  pub weight :
      p.weight_bytes
      ≡ p.physical.weight_rows * p.physical.weight_cols * element_bytes c.weight_dtype
  pub output :
      p.output_bytes
      ≡ p.physical.output_rows * p.physical.output_cols * element_bytes c.output_dtype

-- Two dimensions in range and an element of at most four bytes cannot overflow.
matrix_bytes-exact :
    (a b e : ℕ) (t t' : Text)
    → InRange a
    → InRange b
    → e ≤ 4
    → matrix_bytes a b e t t' ≡ ok (a * b * e)
unfolding matrix_bytes
matrix_bytes-exact a b e t t' ra rb small =
    let area : a * b ≤ descriptor_limit * descriptor_limit = mul-le-mul ra.1 rb.1 in
    let size : a * b * e ≤ descriptor_limit * descriptor_limit * 4 = mul-le-mul area small in
    let first = (checked_mul-eq-ok a b (matmul_error t) (a * b)).1 (refl, omega (arith, area)) in
    let second =
      (checked_mul-eq-ok (a * b) e (matmul_error t') (a * b * e)).1 (refl, omega (arith, size)) in
    rw first second

dtype_size-known : (d : DataType) → d ≢ DataType.q4_k → dtype_size d ≡ ok (element_bytes d)
unfolding dtype_size
dtype_size-known DataType.f32 h = refl
dtype_size-known DataType.f16 h = refl
dtype_size-known DataType.bf16 h = refl
dtype_size-known DataType.q4_k h = elim (h refl) [ ]

dtype_size-not_q4_k : (d : DataType) {n : ℕ} → dtype_size d ≡ ok n → d ≢ DataType.q4_k
unfolding dtype_size
dtype_size-not_q4_k DataType.f32 h = cc
dtype_size-not_q4_k DataType.f16 h = cc
dtype_size-not_q4_k DataType.bf16 h = cc
dtype_size-not_q4_k DataType.q4_k h = cc

element_bytes-small : (d : DataType) → element_bytes d ≤ 4
element_bytes-small DataType.f32 = omega arith
element_bytes-small DataType.f16 = omega arith
element_bytes-small DataType.bf16 = omega arith
element_bytes-small DataType.q4_k = omega arith

validate_shape-InRange :
    (s : CublasLtMatmulShape)
    → (validate_cublaslt_shape s ≡ ok tt) ↔ (InRange s.m × InRange s.n × InRange s.k)
unfolding validate_cublaslt_shape require
validate_shape-InRange s = ground arith

output_known :
    (a b : DataType) → (b ≡ a) ⊎ (b ≡ DataType.f32) → a ≢ DataType.q4_k → b ≢ DataType.q4_k
output_known a b (inl same) known = λ h. known (sym same ∙ h)
output_known a b (inr float) known = cc

abbrev Codes : CublasLtMatmulConfig → Type 0
Codes c =
    (data_type_code c.weight_dtype ≡ data_type_code c.input_dtype)
    × ((data_type_code c.output_dtype ≡ data_type_code c.input_dtype)
        ⊎ (data_type_code c.output_dtype ≡ 1))

validate_config-Codes : (c : CublasLtMatmulConfig) → (validate_config c ≡ ok tt) ↔ Codes c
unfolding validate_config validate_order require
validate_config-Codes c = ground arith

-- The sizes by the dimensions of the product.
abbrev exact_plan : CublasLtMatmulConfig → PlanSizes
exact_plan c = record {
  physical = physical_of c.shape;
  input_bytes = c.shape.m * c.shape.k * element_bytes c.input_dtype;
  weight_bytes = c.shape.k * c.shape.n * element_bytes c.weight_dtype;
  output_bytes = c.shape.m * c.shape.n * element_bytes c.output_dtype;
}

output_codes :
    (a b : DataType)
    → (b ≡ a) ⊎ (b ≡ DataType.f32)
    → (data_type_code b ≡ data_type_code a) ⊎ (data_type_code b ≡ 1)
output_codes a b (inl same) = inl (ap data_type_code same)
output_codes a b (inr float) = inr (ap data_type_code float)

codes_output :
    (a b : DataType)
    → (data_type_code b ≡ data_type_code a) ⊎ (data_type_code b ≡ 1)
    → (b ≡ a) ⊎ (b ≡ DataType.f32)
codes_output a b (inl same) = inl (data_type_code-injective b a same)
codes_output a b (inr float) = inr (data_type_code-injective b DataType.f32 float)

plan_sizes-exact_plan :
    (c : CublasLtMatmulConfig) → IsPlannable c → plan_sizes c ≡ ok (exact_plan c)
unfolding plan_sizes physical_shape
plan_sizes-exact_plan c p =
    let weight_known = λ (h : c.weight_dtype ≡ DataType.q4_k). p.known (sym p.weight ∙ h) in
    let checked : validate_config c ≡ ok tt =
      (validate_config-Codes c).1
        (ap data_type_code p.weight, output_codes c.input_dtype c.output_dtype p.output) in
    let input = dtype_size-known c.input_dtype p.known in
    let weight = dtype_size-known c.weight_dtype weight_known in
    let output =
      dtype_size-known c.output_dtype
        (output_known c.input_dtype c.output_dtype p.output p.known) in
    let shaped : validate_cublaslt_shape c.shape ≡ ok tt =
      (validate_shape-InRange c.shape).1 (p.m, p.n, p.k) in
    let a =
      matrix_bytes-exact c.shape.m c.shape.k _ (bytes "cuBLASLt input element count overflow")
        (bytes "cuBLASLt input byte size overflow") p.m p.k (element_bytes-small c.input_dtype) in
    let b =
      matrix_bytes-exact c.shape.k c.shape.n _ (bytes "cuBLASLt weight element count overflow")
        (bytes "cuBLASLt weight byte size overflow") p.k p.n (element_bytes-small c.weight_dtype) in
    let d =
      matrix_bytes-exact c.shape.m c.shape.n _ (bytes "cuBLASLt output element count overflow")
        (bytes "cuBLASLt output byte size overflow") p.m p.n (element_bytes-small c.output_dtype) in
    rw (checked, input, weight, output, shaped, a, b, d) refl

plan_sizes-IsPlannable :
    (c : CublasLtMatmulConfig) (p : PlanSizes) → plan_sizes c ≡ ok p → IsPlannable c
unfolding plan_sizes physical_shape
plan_sizes-IsPlannable c p h =
    let (checked, is_checked, h₁) = >>=-eq-ok (validate_config c) _ h in
    let (input, is_input, h₂) = >>=-eq-ok (dtype_size c.input_dtype) _ h₁ in
    let (weight, is_weight, h₃) = >>=-eq-ok (dtype_size c.weight_dtype) _ h₂ in
    let (output, is_output, h₄) = >>=-eq-ok (dtype_size c.output_dtype) _ h₃ in
    let (physical, is_physical, h₅) = >>=-eq-ok (physical_shape c.shape) _ h₄ in
    let (shaped, is_shaped, _) = >>=-eq-ok (validate_cublaslt_shape c.shape) _ is_physical in
    let (weight_code, output_code) = (validate_config-Codes c).0 is_checked in
    let (m, n, k) = (validate_shape-InRange c.shape).0 is_shaped in
    record {
      weight = data_type_code-injective c.weight_dtype c.input_dtype weight_code;
      output = codes_output c.input_dtype c.output_dtype output_code;
      known = dtype_size-not_q4_k c.input_dtype is_input;
      m = m;
      n = n;
      k = k;
    }

turned : (t : Bool) (a b e : ℕ) → a * b * e ≡ (if t then b else a) * (if t then a else b) * e
turned true a b e = ap (λ n. n * e) (mul_comm a b)
turned false a b e = refl

stored : (t : Bool) (a b : ℕ) → IsStored t a b (if t then b else a) (if t then a else b)
stored true a b = inl (refl, refl, refl)
stored false a b = inr (refl, refl, refl)

exact_plan-IsPlanOf : (c : CublasLtMatmulConfig) → IsPlanOf c (exact_plan c)
unfolding physical_of
exact_plan-IsPlanOf c = record {
  physical = refl;
  input_stored = stored c.shape.transpose_input c.shape.m c.shape.k;
  weight_stored = stored c.shape.transpose_weight c.shape.k c.shape.n;
  output_stored = stored false c.shape.m c.shape.n;
  input = turned c.shape.transpose_input c.shape.m c.shape.k (element_bytes c.input_dtype);
  weight = turned c.shape.transpose_weight c.shape.k c.shape.n (element_bytes c.weight_dtype);
  output = refl;
}

IsPlanOf→exact_plan : (c : CublasLtMatmulConfig) (p : PlanSizes) → IsPlanOf c p → p ≡ exact_plan c
unfolding physical_of
IsPlanOf→exact_plan c p h =
    let e = exact_plan-IsPlanOf c in
    λ i. record {
      physical = h.physical i;
      input_bytes =
          (h.input
              ∙ ap (λ s. s.input_rows * s.input_cols * element_bytes c.input_dtype) h.physical
              ∙ sym e.input)
            i;
      weight_bytes =
          (h.weight
              ∙ ap (λ s. s.weight_rows * s.weight_cols * element_bytes c.weight_dtype) h.physical
              ∙ sym e.weight)
            i;
      output_bytes =
          (h.output
              ∙ ap (λ s. s.output_rows * s.output_cols * element_bytes c.output_dtype) h.physical
              ∙ sym e.output)
            i;
    }

-- The host's part of the creation of a plan returns exactly for the configurations whose input and weight
-- have one type, F32, F16 or BF16, whose output has this type or F32, and whose dimensions are positive and
-- fit an int32; no byte size overflows for them. The plan has the physical shape, whose rows and columns are
-- those of each matrix, exchanged where it is transposed, and each of its byte sizes is that of the rows and
-- columns of the matrix as it lies in memory.
pub plan_sizes-IsPlanOf :
    (c : CublasLtMatmulConfig) (p : PlanSizes)
    → (plan_sizes c ≡ ok p) ↔ (IsPlannable c × IsPlanOf c p)
plan_sizes-IsPlanOf c p = (
  λ h.
      let plannable = plan_sizes-IsPlannable c p h in
      let same : exact_plan c ≡ p = ok-injective (sym (plan_sizes-exact_plan c plannable) ∙ h) in
      (plannable, subst (λ q. IsPlanOf c q) same (exact_plan-IsPlanOf c)),
  λ h. plan_sizes-exact_plan c h.0 ∙ ap (λ q. ok q) (sym (IsPlanOf→exact_plan c p h.1)),
)
