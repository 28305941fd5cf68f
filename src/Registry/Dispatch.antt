-- ===== src/Registry/Dispatch.antt =====
-- OperatorRegistry of cpp/registry/operator_registry.{hpp,cpp}. A registration is known by its
-- place in the deque, which push_back leaves as it is; the cache holds places, and its hash table
-- is an association list searched with the signatures' `operator==`.
use raftinfer.Base.{
  ℕ, suc, List, [], ◌∷◌, ◌++◌, length, Option, none, some, Bool, false, not, ◌&&◌, ◌||◌, ◌==◌,
  if◌then◌else◌, Text, bytes, Error, Result, ok, err, ◌>>◌, throw_if,
}
use raftinfer.Base.Int.{ltb_ℤ, eqb_ℤ}
use raftinfer.Base.Texts.{text_eq, text_lt}
use raftinfer.Registry.Enums.{
  OperatorKind, CudaArchitecture, ShapeBucket, KernelProvenance, operator_kind_code,
  cuda_architecture_code, shape_bucket_code, kernel_provenance_code,
}
use raftinfer.Registry.Signature.{OperatorSignature, signature_eq}
use raftinfer.Registry.Capability.{KernelCapability, rejection_reason}

pub record KernelRegistration : Type 0 where
  pub name : Text
  pub capability : KernelCapability

pub record OperatorRegistry : Type 0 where
  pub registrations : List KernelRegistration
  pub names : List Text
  pub cache : List (OperatorSignature × ℕ)

abbrev pub empty_registry : OperatorRegistry
empty_registry = record { registrations = []; names = []; cache = [] }

unfoldable pub text_contains : List Text → Text → Bool
text_contains [] name = false
text_contains (x ∷ xs) name = text_eq x name || text_contains xs name

abbrev pub capability_guards : KernelCapability → Result (Unit {0})
capability_guards c =
    throw_if (operator_kind_code c.op == operator_kind_code OperatorKind.unspecified)
      (Error.invalid_argument (bytes "kernel capability operator kind is unspecified"))
    >> (throw_if
          (cuda_architecture_code c.architecture
            == cuda_architecture_code CudaArchitecture.unspecified)
          (Error.invalid_argument (bytes "kernel capability architecture is unspecified"))
        >> (throw_if
              (not (
                cuda_architecture_code c.architecture
                == cuda_architecture_code CudaArchitecture.sm120a))
              (Error.invalid_argument (bytes "kernel capability architecture must be sm_120a"))
            >> (throw_if
                  (shape_bucket_code c.shape_bucket == shape_bucket_code ShapeBucket.unspecified)
                  (Error.invalid_argument (bytes "kernel capability shape bucket is unspecified"))
                >> throw_if
                    (kernel_provenance_code c.provenance
                      == kernel_provenance_code KernelProvenance.unspecified)
                    (Error.invalid_argument
                      (bytes "kernel capability provenance is unspecified")))))

-- The place of the new registration, and the registry with it; an error leaves the registry as it was.
unfoldable pub register_kernel : OperatorRegistry → KernelCapability → Result (ℕ × OperatorRegistry)
register_kernel r c =
    capability_guards c
    >> (throw_if (text_contains r.names c.name)
          (Error.invalid_argument (bytes "duplicate kernel registration: " ++ c.name))
        >> ok (
          length r.registrations,
          record {
            registrations = r.registrations ++ record { name = c.name; capability = c } ∷ [];
            names = c.name ∷ r.names;
            cache = [];
          },
        ))

-- The best registration of the loop so far and its place.
abbrev pub Best : Type 0
Best = Option (ℕ × KernelRegistration)

-- The test by which a registration takes the place of the best so far.
unfoldable pub beats : KernelRegistration → KernelRegistration → Bool
beats k best =
    ltb_ℤ best.capability.priority k.capability.priority
    || (eqb_ℤ k.capability.priority best.capability.priority && text_lt k.name best.name)

abbrev pub better_of : Best → ℕ → KernelRegistration → Best
better_of none i k = some (i, k)
better_of (some best) i k = if beats k best.1 then some (i, k) else some best

-- The loop of resolve from place `i` on, with the best and the rejections so far.
unfoldable pub scan :
    OperatorSignature
    → List KernelRegistration
    → ℕ
    → Best
    → List (Text × Text)
    → Best × List (Text × Text)
scan s [] i best rejections = (best, rejections)
scan s (k ∷ ks) i best rejections = elim (rejection_reason k.capability s) [
  | some reason ↦ scan s ks (suc i) best (rejections ++ (k.name, reason) ∷ [])
  | none ↦ scan s ks (suc i) (better_of best i k) rejections
]

unfoldable pub find_cached : List (OperatorSignature × ℕ) → OperatorSignature → Option ℕ
find_cached [] s = none
find_cached (entry ∷ entries) s =
    if signature_eq entry.0 s then some entry.1 else find_cached entries s

abbrev pub resolve_uncached : OperatorRegistry → OperatorSignature → Result (ℕ × OperatorRegistry)
resolve_uncached r s =
    let scanned = scan s r.registrations 0 none [] in
    elim scanned.0 [
      | none ↦ err (Error.dispatch_error scanned.1)
      | some best ↦ ok (best.0, record r { cache = (s, best.0) ∷ r.cache })
    ]

-- The place of the kernel, and the registry with the answer in its cache; an error leaves the
-- registry as it was.
unfoldable pub resolve : OperatorRegistry → OperatorSignature → Result (ℕ × OperatorRegistry)
resolve r s = elim (find_cached r.cache s) [
  | some place ↦ ok (place, r)
  | none ↦ resolve_uncached r s
]

abbrev rejection_lines : List (Text × Text) → Text
rejection_lines [] = []
rejection_lines (rejection ∷ rest) =
    bytes "\n" ++ rejection.0 ++ bytes ": " ++ rejection.1 ++ rejection_lines rest

-- What `what()` of a DispatchError says.
unfoldable pub build_dispatch_message : List (Text × Text) → Text
build_dispatch_message rejections = bytes "no matching kernel" ++ rejection_lines rejections
