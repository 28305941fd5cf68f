-- ===== src/Registry/Fits/Inputs.antt =====
-- The loop over the inputs of KernelCapability::rejection_reason, cpp/registry/operator_registry.cpp.
use raftinfer.Base.{
  ℕ, zero, suc, List, [], ◌∷◌, ◌++◌, length, Bool, true, false, not, ◌&&◌, ◌==◌, Text, ◌≡◌, refl,
  ◌↔◌, arith,
}
use raftinfer.Base.Int.{ℤ}
use raftinfer.Registry.Enums.{
  data_type_code, quant_format_code, data_type_code-injective, quant_format_code-injective,
}
use raftinfer.Registry.Signature.{TensorSignature}
use raftinfer.Registry.Capability.{
  TensorConstraint, reason_if, outside_bounds, input_prefix, shape_reasons, input_reasons,
  inputs_reasons,
}
use raftinfer.Registry.Fits.Demands.{InBounds, FitsInput, FitsInputs, ◌≤ℤ◌}

abbrev pub is_empty : List Text → Bool
is_empty [] = true
is_empty (x ∷ xs) = false

pub is_empty-append : (xs ys : List Text) → is_empty (xs ++ ys) ≡ (is_empty xs && is_empty ys)
is_empty-append [] ys = refl
is_empty-append (x ∷ xs) ys = refl

pub is_empty-reason_if : (b : Bool) (r : Text) → is_empty (reason_if b r) ≡ not b
unfolding reason_if
is_empty-reason_if true r = refl
is_empty-reason_if false r = refl

outside_bounds-InBounds :
    (shape lows highs : List ℤ)
    → outside_bounds shape lows highs ≡ false
    → InBounds shape lows highs
outside_bounds-InBounds [] lows highs h dim v low high hv hl hh = cc
outside_bounds-InBounds (d ∷ ds) [] highs h dim v low high hv hl hh = cc
outside_bounds-InBounds (d ∷ ds) (l ∷ ls) [] h dim v low high hv hl hh = cc
outside_bounds-InBounds (d ∷ ds) (l ∷ ls) (u ∷ us) h zero v low high hv hl hh = ground arith
outside_bounds-InBounds (d ∷ ds) (l ∷ ls) (u ∷ us) h (suc dim) v low high hv hl hh =
    outside_bounds-InBounds ds ls us (ground arith) dim v low high hv hl hh

InBounds-outside_bounds :
    (shape lows highs : List ℤ)
    → length lows ≡ length shape
    → length highs ≡ length shape
    → InBounds shape lows highs
    → outside_bounds shape lows highs ≡ false
InBounds-outside_bounds [] lows highs hl hh fits = refl
InBounds-outside_bounds (d ∷ ds) [] highs hl hh fits = absurd (omega arith)
InBounds-outside_bounds (d ∷ ds) (l ∷ ls) [] hl hh fits = absurd (omega arith)
InBounds-outside_bounds (d ∷ ds) (l ∷ ls) (u ∷ us) hl hh fits =
    let here : (l ≤ℤ d) × (d ≤ℤ u) = fits zero d l u refl refl refl in
    let rest : outside_bounds ds ls us ≡ false =
      InBounds-outside_bounds ds ls us (omega arith) (omega arith) (λ dim. fits (suc dim)) in
    ground arith

shape_reasons-InBounds :
    (c : TensorConstraint) (t : TensorSignature) (prefix : Text)
    → (is_empty (shape_reasons c t prefix) ≡ true) ↔ (
        (length t.shape ≡ c.rank)
        × (length c.min_shape ≡ c.rank)
        × (length c.max_shape ≡ c.rank)
        × (outside_bounds t.shape c.min_shape c.max_shape ≡ false))
unfolding shape_reasons reason_if
shape_reasons-InBounds c t prefix = ground arith

input_reasons-tests :
    (c : TensorConstraint) (t : TensorSignature) (prefix : Text)
    → is_empty (input_reasons c t prefix) ≡ (
        not (not (data_type_code t.dtype == data_type_code c.dtype))
        && not (not (quant_format_code t.quant == quant_format_code c.quant))
        && not (not (t.rank == c.rank))
        && not (not (t.alignment == c.alignment))
        && is_empty (shape_reasons c t prefix))
unfolding input_reasons
input_reasons-tests c t prefix = simp (is_empty-append, is_empty-reason_if)

input_reasons→FitsInput :
    (c : TensorConstraint) (t : TensorSignature) (prefix : Text)
    → is_empty (input_reasons c t prefix) ≡ true
    → FitsInput c t
input_reasons→FitsInput c t prefix h = ground (
  arith,
  input_reasons-tests c t prefix,
  data_type_code-injective t.dtype c.dtype,
  quant_format_code-injective t.quant c.quant,
  shape_reasons-InBounds c t prefix,
  outside_bounds-InBounds t.shape c.min_shape c.max_shape,
)

FitsInput→input_reasons :
    (c : TensorConstraint) (t : TensorSignature) (prefix : Text)
    → FitsInput c t
    → is_empty (input_reasons c t prefix) ≡ true
FitsInput→input_reasons c t prefix h = ground (
  arith,
  input_reasons-tests c t prefix,
  shape_reasons-InBounds c t prefix,
  InBounds-outside_bounds t.shape c.min_shape c.max_shape,
)

pub inputs_reasons→FitsInputs :
    (cs : List TensorConstraint) (ts : List TensorSignature) (k : ℕ)
    → is_empty (inputs_reasons cs ts k) ≡ true
    → FitsInputs cs ts
unfolding inputs_reasons
inputs_reasons→FitsInputs [] ts k h i c t hc ht = cc
inputs_reasons→FitsInputs (c ∷ cs) [] k h i c' t hc ht = cc
inputs_reasons→FitsInputs (c ∷ cs) (t ∷ ts) k h zero c' t' hc ht = ground (
  arith,
  is_empty-append (input_reasons c t (input_prefix k)) (inputs_reasons cs ts (suc k)),
  input_reasons→FitsInput c' t' (input_prefix k),
)
inputs_reasons→FitsInputs (c ∷ cs) (t ∷ ts) k h (suc i) c' t' hc ht =
    let rest : is_empty (inputs_reasons cs ts (suc k)) ≡ true = ground (
      arith,
      is_empty-append (input_reasons c t (input_prefix k)) (inputs_reasons cs ts (suc k)),
    ) in
    inputs_reasons→FitsInputs cs ts (suc k) rest i c' t' hc ht

pub FitsInputs→inputs_reasons :
    (cs : List TensorConstraint) (ts : List TensorSignature) (k : ℕ)
    → FitsInputs cs ts
    → is_empty (inputs_reasons cs ts k) ≡ true
unfolding inputs_reasons
FitsInputs→inputs_reasons [] ts k h = refl
FitsInputs→inputs_reasons (c ∷ cs) [] k h = refl
FitsInputs→inputs_reasons (c ∷ cs) (t ∷ ts) k h =
    rw (is_empty-append (input_reasons c t (input_prefix k)) (inputs_reasons cs ts (suc k))) rw
      (FitsInput→input_reasons c t (input_prefix k) (h zero c t refl refl))
      (FitsInputs→inputs_reasons cs ts (suc k) (λ i. h (suc i)))
