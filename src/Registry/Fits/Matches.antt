-- ===== src/Registry/Fits/Matches.antt =====
-- KernelCapability::matches of cpp/registry/operator_registry.{hpp,cpp}.
use raftinfer.Base.{
  ℕ, ◌≤◌, length, Bool, true, false, not, ◌&&◌, ◌==◌, ltb, ◌≡◌, sym, ap, ◌∙◌, &&-eq-true, &&_true,
  ==_iff, ◌↔◌, arith,
}
use raftinfer.Registry.Enums.{
  operator_kind_code, execution_regime_code, cuda_architecture_code, shape_bucket_code,
  operator_kind_code-injective, execution_regime_code-injective, cuda_architecture_code-injective,
  shape_bucket_code-injective,
}
use raftinfer.Registry.Signature.{OperatorSignature}
use raftinfer.Registry.Capability.{
  KernelCapability, inputs_reasons, count_reasons, reasons, rejection_reason, matches,
}
use raftinfer.Registry.Fits.Demands.{Fits}
use raftinfer.Registry.Fits.Inputs.{
  is_empty, is_empty-append, is_empty-reason_if, inputs_reasons→FitsInputs,
  FitsInputs→inputs_reasons,
}

count_reasons-tests :
    (c : KernelCapability) (s : OperatorSignature)
    → is_empty (count_reasons c s)
      ≡ ((length s.inputs == length c.inputs) && is_empty (inputs_reasons c.inputs s.inputs 0))
unfolding count_reasons
count_reasons-tests c s = ground arith

reasons-tests :
    (c : KernelCapability) (s : OperatorSignature)
    → is_empty (reasons c s) ≡ (
        not (not (operator_kind_code s.op == operator_kind_code c.op))
        && not (not (execution_regime_code s.regime == execution_regime_code c.regime))
        && not
            (not (cuda_architecture_code s.architecture == cuda_architecture_code c.architecture))
        && not (not (shape_bucket_code s.shape_bucket == shape_bucket_code c.shape_bucket))
        && not (s.graph_capture && not c.graph_safe)
        && not (s.deterministic && not c.deterministic)
        && not (ltb s.workspace_bytes c.workspace_bytes)
        && is_empty (count_reasons c s))
unfolding reasons
reasons-tests c s = simp (is_empty-append, is_empty-reason_if)

same_code : (a b : ℕ) → not (not (a == b)) ≡ true → a ≡ b
same_code a b h = ground arith

code_same : (a b : ℕ) → a ≡ b → not (not (a == b)) ≡ true
code_same a b h = ground arith

enough_bytes : (have need : ℕ) → not (ltb have need) ≡ true → need ≤ have
enough_bytes have need h = ground arith

bytes_enough : (have need : ℕ) → need ≤ have → not (ltb have need) ≡ true
bytes_enough have need h = ground arith

safe_enough : (asked has : Bool) → (not (asked && not has) ≡ true) ↔ (asked ≡ true → has ≡ true)
safe_enough true true = ground arith
safe_enough true false = ground arith
safe_enough false has = ground arith

reasons→Fits :
    (c : KernelCapability) (s : OperatorSignature) → is_empty (reasons c s) ≡ true → Fits c s
reasons→Fits c s h =
    let p7 = &&-eq-true _ _ (sym (reasons-tests c s) ∙ h) in
    let p6 = &&-eq-true _ _ p7.0 in
    let p5 = &&-eq-true _ _ p6.0 in
    let p4 = &&-eq-true _ _ p5.0 in
    let p3 = &&-eq-true _ _ p4.0 in
    let p2 = &&-eq-true _ _ p3.0 in
    let p1 = &&-eq-true _ _ p2.0 in
    let inputs = &&-eq-true _ _ (sym (count_reasons-tests c s) ∙ p7.1) in
    (
      operator_kind_code-injective s.op c.op (same_code _ _ p1.0),
      execution_regime_code-injective s.regime c.regime (same_code _ _ p1.1),
      cuda_architecture_code-injective s.architecture c.architecture (same_code _ _ p2.1),
      shape_bucket_code-injective s.shape_bucket c.shape_bucket (same_code _ _ p3.1),
      (safe_enough s.graph_capture c.graph_safe).0 p4.1,
      (safe_enough s.deterministic c.deterministic).0 p5.1,
      enough_bytes _ _ p6.1,
      (==_iff (length s.inputs) (length c.inputs)).0 inputs.0,
      inputs_reasons→FitsInputs c.inputs s.inputs 0 inputs.1,
    )

Fits→reasons :
    (c : KernelCapability) (s : OperatorSignature) → Fits c s → is_empty (reasons c s) ≡ true
Fits→reasons c s (op, regime, architecture, bucket, graph, exact, space, count, inputs) =
    let first =
      &&_true _ _ (code_same _ _ (ap operator_kind_code op))
        (code_same _ _ (ap execution_regime_code regime)) in
    let second =
      &&_true _ _ (&&_true _ _ first (code_same _ _ (ap cuda_architecture_code architecture)))
        (code_same _ _ (ap shape_bucket_code bucket)) in
    let third =
      &&_true _ _ (&&_true _ _ second ((safe_enough s.graph_capture c.graph_safe).1 graph))
        ((safe_enough s.deterministic c.deterministic).1 exact) in
    let last =
      &&_true _ _ ((==_iff (length s.inputs) (length c.inputs)).1 count)
        (FitsInputs→inputs_reasons c.inputs s.inputs 0 inputs) in
    reasons-tests c s
    ∙ &&_true _ _ (&&_true _ _ third (bytes_enough _ _ space)) (count_reasons-tests c s ∙ last)

matches-is_empty :
    (c : KernelCapability) (s : OperatorSignature) → matches c s ≡ is_empty (reasons c s)
unfolding rejection_reason
matches-is_empty c s = ground arith

-- For every capability and every signature: the capability matches the signature (its rejection
-- reason is absent) if and only if the kernel is made for the operator, regime, architecture and
-- shape bucket, is graph safe and deterministic when that is asked, needs no more scratch space
-- than there is, takes as many inputs, and each input has the constraint's type, format, rank,
-- alignment and number of dimensions with each dimension between its two bounds.
pub matches-Fits : (c : KernelCapability) (s : OperatorSignature) → (matches c s ≡ true) ↔ Fits c s
matches-Fits c s = (
  λ h. reasons→Fits c s (sym (matches-is_empty c s) ∙ h),
  λ h. matches-is_empty c s ∙ Fits→reasons c s h,
)
