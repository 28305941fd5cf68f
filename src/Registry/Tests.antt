-- ===== src/Registry/Tests.antt =====
-- Runs of the operator registry, cpp/registry/operator_registry.cpp, on a registry of two kernels.
use raftinfer.Base.{
  ℕ, zero, suc, [], ◌∷◌, get_elem?, some, Bool, true, false, bytes, Error, ok, err, ◌≡◌, ◌≢◌, ◌↔◌,
  ◌⊎◌, refl,
}
use raftinfer.Base.Int.{pos}
use raftinfer.Base.Texts.{text_eq}
use raftinfer.Registry.Enums.{
  OperatorKind, ExecutionRegime, CudaArchitecture, ShapeBucket, KernelProvenance, DataType,
  QuantFormat,
}
use raftinfer.Registry.Signature.{TensorSignature, OperatorSignature}
use raftinfer.Registry.Capability.{
  TensorConstraint, KernelCapability, reason_if, input_prefix, shape_reasons, input_reasons,
  inputs_reasons, count_reasons, reasons, join_reasons, rejection_reason, matches,
}
use raftinfer.Registry.Fits.Demands.{Fits}
use raftinfer.Registry.Fits.Matches.{matches-Fits}
use raftinfer.Registry.Dispatch.{
  KernelRegistration, OperatorRegistry, empty_registry, text_contains, register_kernel, beats, scan,
  find_cached, resolve, build_dispatch_message,
}
use raftinfer.Registry.Resolve.{Registered, IsValid, Refused, Resolved, resolve-Winner}
use raftinfer.Registry.Agree.{
  place_of, without_cache, resolve-without_cache, SameKernels, resolve-SameKernels,
}
use raftinfer.Registry.Register.{
  appended, empty_registry-IsValid, register_kernel-IsValid, register_kernel-accepts,
}

abbrev row_constraint : TensorConstraint
row_constraint = record {
  dtype = DataType.bf16;
  quant = QuantFormat.none;
  rank = 1;
  alignment = 16;
  min_shape = pos 1 ∷ [];
  max_shape = pos 4096 ∷ [];
}

abbrev row : ℕ → TensorSignature
row size = record {
  dtype = DataType.bf16;
  quant = QuantFormat.none;
  rank = 1;
  alignment = 16;
  shape = pos size ∷ [];
}

abbrev plain : KernelCapability
plain = record {
  name = bytes "plain";
  op = OperatorKind.rms_norm;
  regime = ExecutionRegime.cuda_graph;
  architecture = CudaArchitecture.sm120a;
  shape_bucket = ShapeBucket.decode;
  provenance = KernelProvenance.project_native;
  inputs = row_constraint ∷ [];
  graph_safe = true;
  deterministic = true;
  workspace_bytes = 64;
  priority = pos 1;
}

abbrev fast : KernelCapability
fast = record plain { name = bytes "fast"; priority = pos 2; deterministic = false }

abbrev asked : Bool → ℕ → OperatorSignature
asked deterministic size = record {
  op = OperatorKind.rms_norm;
  regime = ExecutionRegime.cuda_graph;
  architecture = CudaArchitecture.sm120a;
  shape_bucket = ShapeBucket.decode;
  graph_capture = true;
  deterministic = deterministic;
  workspace_bytes = 128;
  inputs = row size ∷ [];
}

abbrev one_kernel : OperatorRegistry
one_kernel = appended empty_registry plain

abbrev two_kernels : OperatorRegistry
two_kernels = appended one_kernel fast

plain_is_registered : register_kernel empty_registry plain ≡ ok (0, one_kernel)
unfolding register_kernel text_contains
plain_is_registered = refl

fast_is_registered : register_kernel one_kernel fast ≡ ok (1, two_kernels)
unfolding register_kernel text_contains text_eq bytes
fast_is_registered = refl

plain_twice :
    register_kernel two_kernels plain
    ≡ err (Error.invalid_argument (bytes "duplicate kernel registration: plain"))
unfolding register_kernel text_contains text_eq bytes
plain_twice = refl

fast_wins : place_of (resolve two_kernels (asked false 8)) ≡ ok 1
unfolding resolve find_cached scan rejection_reason reasons reason_if count_reasons inputs_reasons
    input_reasons shape_reasons beats
fast_wins = refl

plain_when_deterministic : place_of (resolve two_kernels (asked true 8)) ≡ ok 0
unfolding resolve find_cached scan rejection_reason reasons reason_if count_reasons inputs_reasons
    input_reasons shape_reasons beats
plain_when_deterministic = refl

too_wide :
    place_of (resolve two_kernels (asked true 5000))
    ≡ err (
        Error.dispatch_error (
          (bytes "plain", bytes "input 0 shape bounds unsupported")
          ∷ (bytes "fast", bytes "not deterministic; input 0 shape bounds unsupported")
          ∷ []))
unfolding resolve find_cached scan rejection_reason reasons reason_if count_reasons inputs_reasons
    input_reasons shape_reasons beats join_reasons input_prefix bytes
too_wide = refl

one_message :
    build_dispatch_message ((bytes "plain", bytes "not graph safe") ∷ [])
    ≡ bytes "no matching kernel\nplain: not graph safe"
unfolding build_dispatch_message bytes
one_message = refl

one_kernel-IsValid : IsValid one_kernel
one_kernel-IsValid =
    (register_kernel-IsValid empty_registry one_kernel plain 0 empty_registry-IsValid
      plain_is_registered).0

two_kernels-IsValid : IsValid two_kernels
two_kernels-IsValid =
    (register_kernel-IsValid one_kernel two_kernels fast 1 one_kernel-IsValid fast_is_registered).0

matches-Fits_example : (matches plain (asked true 8) ≡ true) ↔ Fits plain (asked true 8)
matches-Fits_example = matches-Fits plain (asked true 8)

resolve-Winner_example : Refused two_kernels (asked false 8) ⊎ Resolved two_kernels (asked false 8)
resolve-Winner_example = resolve-Winner two_kernels (asked false 8) two_kernels-IsValid

resolve-without_cache_example :
    place_of (resolve two_kernels (asked false 8))
    ≡ place_of (resolve (without_cache two_kernels) (asked false 8))
resolve-without_cache_example =
    resolve-without_cache two_kernels (asked false 8) two_kernels-IsValid

register_kernel-IsValid_example :
    IsValid two_kernels
    × (two_kernels.cache ≡ [])
    × (get_elem? two_kernels.registrations 1
        ≡ some (record { name = fast.name; capability = fast }))
    × ((i : ℕ) (k : KernelRegistration)
        → get_elem? one_kernel.registrations i ≡ some k
        → get_elem? two_kernels.registrations i ≡ some k)
register_kernel-IsValid_example =
    register_kernel-IsValid one_kernel two_kernels fast 1 one_kernel-IsValid fast_is_registered

register_kernel-accepts_example :
    ((place : ℕ) × (r' : OperatorRegistry) × (register_kernel one_kernel fast ≡ ok (place, r'))) ↔ (
      Registered (record { name = fast.name; capability = fast })
      × ((i : ℕ) (k : KernelRegistration)
          → get_elem? one_kernel.registrations i ≡ some k
          → k.name ≢ fast.name))
register_kernel-accepts_example = register_kernel-accepts one_kernel fast one_kernel-IsValid

-- The two kernels registered the other way round.
abbrev swapped_kernels : OperatorRegistry
swapped_kernels = appended (appended empty_registry fast) plain

fast_first : register_kernel empty_registry fast ≡ ok (0, appended empty_registry fast)
unfolding register_kernel text_contains
fast_first = refl

plain_second : register_kernel (appended empty_registry fast) plain ≡ ok (1, swapped_kernels)
unfolding register_kernel text_contains text_eq bytes
plain_second = refl

swapped_kernels-IsValid : IsValid swapped_kernels
swapped_kernels-IsValid =
    (register_kernel-IsValid (appended empty_registry fast) swapped_kernels plain 1
      (register_kernel-IsValid empty_registry (appended empty_registry fast) fast 0
        empty_registry-IsValid fast_first).0
      plain_second).0

SameKernels-swap : (a b : KernelRegistration) → SameKernels (a ∷ b ∷ []) (b ∷ a ∷ [])
SameKernels-swap a b k = (other_place a b k, other_place b a k)
  where
    other_place :
        (a b k : KernelRegistration)
        → (i : ℕ) × (get_elem? (a ∷ b ∷ []) i ≡ some k)
        → (j : ℕ) × (get_elem? (b ∷ a ∷ []) j ≡ some k)
    other_place a b k (zero, at) = (1, at)
    other_place a b k (suc zero, at) = (0, at)
    other_place a b k (suc (suc i), at) = cc at

fast_answer :
    resolve two_kernels (asked false 8)
    ≡ ok (1, record two_kernels { cache = (asked false 8, 1) ∷ [] })
unfolding resolve find_cached scan rejection_reason reasons reason_if count_reasons inputs_reasons
    input_reasons shape_reasons beats
fast_answer = refl

resolve-SameKernels_example :
    (j : ℕ) × (t' : OperatorRegistry) × (resolve swapped_kernels (asked false 8) ≡ ok (j, t'))
    × (get_elem? swapped_kernels.registrations j ≡ get_elem? two_kernels.registrations 1)
resolve-SameKernels_example =
    resolve-SameKernels two_kernels swapped_kernels
      (record two_kernels { cache = (asked false 8, 1) ∷ [] }) (asked false 8) 1 two_kernels-IsValid
      swapped_kernels-IsValid
      (SameKernels-swap (record { name = plain.name; capability = plain })
        (record { name = fast.name; capability = fast }))
      fast_answer
