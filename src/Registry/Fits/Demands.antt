-- ===== src/Registry/Fits/Demands.antt =====
-- What a kernel's capability (cpp/registry/operator_registry.hpp) demands of a signature.
use raftinfer.Base.{ℕ, ◌+◌, ◌≤◌, List, length, get_elem?, some, true, ◌≡◌}
use raftinfer.Base.Int.{ℤ, above_zero, below_zero}
use raftinfer.Registry.Signature.{TensorSignature, OperatorSignature}
use raftinfer.Registry.Capability.{TensorConstraint, KernelCapability}

infix 50 ◌≤ℤ◌
abbrev pub ◌≤ℤ◌ : ℤ → ℤ → Type 0
a ≤ℤ b = above_zero a + below_zero b ≤ above_zero b + below_zero a

abbrev pub InBounds : List ℤ → List ℤ → List ℤ → Type 0
InBounds shape lows highs =
    (dim : ℕ) (d low high : ℤ)
    → get_elem? shape dim ≡ some d
    → get_elem? lows dim ≡ some low
    → get_elem? highs dim ≡ some high
    → (low ≤ℤ d) × (d ≤ℤ high)

abbrev pub FitsInput : TensorConstraint → TensorSignature → Type 0
FitsInput c t =
    (t.dtype ≡ c.dtype)
    × (t.quant ≡ c.quant)
    × (t.rank ≡ c.rank)
    × (t.alignment ≡ c.alignment)
    × (length t.shape ≡ c.rank)
    × (length c.min_shape ≡ c.rank)
    × (length c.max_shape ≡ c.rank)
    × InBounds t.shape c.min_shape c.max_shape

abbrev pub FitsInputs : List TensorConstraint → List TensorSignature → Type 0
FitsInputs cs ts =
    (i : ℕ) (c : TensorConstraint) (t : TensorSignature)
    → get_elem? cs i ≡ some c
    → get_elem? ts i ≡ some t
    → FitsInput c t

-- A kernel made for this operator, regime, architecture and bucket, which is as safe as asked, has
-- scratch space enough, and whose constraints the inputs meet one by one.
abbrev pub Fits : KernelCapability → OperatorSignature → Type 0
Fits c s =
    (s.op ≡ c.op)
    × (s.regime ≡ c.regime)
    × (s.architecture ≡ c.architecture)
    × (s.shape_bucket ≡ c.shape_bucket)
    × (s.graph_capture ≡ true → c.graph_safe ≡ true)
    × (s.deterministic ≡ true → c.deterministic ≡ true)
    × (c.workspace_bytes ≤ s.workspace_bytes)
    × (length s.inputs ≡ length c.inputs)
    × FitsInputs c.inputs s.inputs
