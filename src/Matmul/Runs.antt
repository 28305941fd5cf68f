-- ===== src/Matmul/Runs.antt =====
-- cpp/execution/cublaslt_matmul.cu: where the elements of a run's matrices lie.
use raftinfer.Base.{
  ℕ, ◌+◌, ◌*◌, ◌≤◌, ◌<◌, Bool, true, false, if◌then◌else◌, ok, ◌≡◌, sym, subst, ◌∙◌, arith,
}
use native.Mathlib.Nat.{mul-le-mul, le_refl}
use raftinfer.Matmul.{
  CublasLtMatmulConfig, PlanSizes, CublasLtRunBuffers, CublasLtBufferRequirements, require,
  require_aligned, validate_cublaslt_run_buffers, plan_sizes, physical_of,
}
use raftinfer.Matmul.Exact.{element_bytes, plan_sizes-IsPlanOf}

-- A row-major matrix of `rows` and `cols` in a buffer of `size` bytes: the byte behind the element at a row and
-- a column is still inside.
abbrev pub ends_at : ℕ → ℕ → ℕ → ℕ → ℕ
ends_at cols e row col = (row * cols + col + 1) * e

inside :
    (rows cols e size row col : ℕ)
    → size ≡ rows * cols * e
    → row < rows
    → col < cols
    → ends_at cols e row col ≤ size
inside rows cols e size row col is_size below left =
    let full : (row + 1) * cols ≤ rows * cols = mul-le-mul (omega (arith, below)) (le_refl cols) in
    let before : row * cols + col + 1 ≤ rows * cols = omega (arith, full, left) in
    subst (λ n. (row * cols + col + 1) * e ≤ n) (sym is_size) (mul-le-mul before (le_refl e))

record Accepted (b : CublasLtRunBuffers) (r : CublasLtBufferRequirements) : Type 0 where
  input : b.input_bytes ≡ r.input_bytes
  weight : b.weight_bytes ≡ r.weight_bytes
  output : b.output_bytes ≡ r.output_bytes
  workspace : r.workspace_bytes ≤ b.workspace_bytes

validate_run_buffers-Accepted :
    (b : CublasLtRunBuffers) (r : CublasLtBufferRequirements)
    → validate_cublaslt_run_buffers b r ≡ ok tt
    → Accepted b r
unfolding validate_cublaslt_run_buffers require_aligned require
validate_run_buffers-Accepted b r h = record {
  input = ground (arith, h);
  weight = ground (arith, h);
  output = ground (arith, h);
  workspace = ground (arith, h);
}

-- The requirements that CublasLtMatmulPlan::run hands to the check.
abbrev pub requirements_of : PlanSizes → ℕ → CublasLtBufferRequirements
requirements_of p workspace = record {
  input_bytes = p.input_bytes;
  weight_bytes = p.weight_bytes;
  output_bytes = p.output_bytes;
  workspace_bytes = workspace;
}

-- The byte behind the element (i, j) of a matrix with `cols` columns in memory, which holds it transposed or not.
abbrev pub element_end : Bool → ℕ → ℕ → ℕ → ℕ → ℕ
element_end true cols e i j = ends_at cols e j i
element_end false cols e i j = ends_at cols e i j

stored_inside :
    (t : Bool) (rows cols e size i j : ℕ)
    → size ≡ (if t then cols else rows) * (if t then rows else cols) * e
    → i < rows
    → j < cols
    → element_end t (if t then rows else cols) e i j ≤ size
stored_inside true rows cols e size i j is_size below left =
    inside cols rows e size j i is_size left below
stored_inside false rows cols e size i j is_size below left =
    inside rows cols e size i j is_size below left

-- What the three factors of one term of the product, out(i, j) += input(i, l) * weight(l, j), need.
abbrev pub InBuffers : CublasLtMatmulConfig → CublasLtRunBuffers → ℕ → ℕ → ℕ → Type 0
InBuffers c b i j l =
    (element_end c.shape.transpose_input (physical_of c.shape).input_cols
        (element_bytes c.input_dtype) i l
      ≤ b.input_bytes)
    × (element_end c.shape.transpose_weight (physical_of c.shape).weight_cols
          (element_bytes c.weight_dtype) l j
        ≤ b.weight_bytes)
    × (ends_at (physical_of c.shape).output_cols (element_bytes c.output_dtype) i j
        ≤ b.output_bytes)

-- For a plan that is created and the buffers of a run that the check accepts for it: each element of the input,
-- the weight and the output that the product uses, at the place that the row-major layout of its matrix gives
-- it, transposed or not, ends inside its buffer, and the workspace is as large as the algorithm's.
pub validate_run_buffers-InBuffers :
    (c : CublasLtMatmulConfig) (p : PlanSizes) (b : CublasLtRunBuffers) (workspace i j l : ℕ)
    → plan_sizes c ≡ ok p
    → validate_cublaslt_run_buffers b (requirements_of p workspace) ≡ ok tt
    → i < c.shape.m
    → j < c.shape.n
    → l < c.shape.k
    → InBuffers c b i j l × (workspace ≤ b.workspace_bytes)
unfolding physical_of
validate_run_buffers-InBuffers c p b workspace i j l planned accepted row column inner =
    let (_, plan) = (plan_sizes-IsPlanOf c p).0 planned in
    let run = validate_run_buffers-Accepted b (requirements_of p workspace) accepted in
    let shape = plan.physical in
    let s = c.shape in
    let input =
      subst (λ q. p.input_bytes ≡ q.input_rows * q.input_cols * element_bytes c.input_dtype) shape
        plan.input in
    let weight =
      subst (λ q. p.weight_bytes ≡ q.weight_rows * q.weight_cols * element_bytes c.weight_dtype)
        shape plan.weight in
    let output =
      subst (λ q. p.output_bytes ≡ q.output_rows * q.output_cols * element_bytes c.output_dtype)
        shape plan.output in
    (
      (
        stored_inside s.transpose_input s.m s.k _ _ i l (run.input ∙ input) row inner,
        stored_inside s.transpose_weight s.k s.n _ _ l j (run.weight ∙ weight) inner column,
        inside s.m s.n _ _ i j (run.output ∙ output) row column,
      ),
      run.workspace,
    )
