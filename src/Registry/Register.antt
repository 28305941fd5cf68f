-- ===== src/Registry/Register.antt =====
-- OperatorRegistry::register_kernel of cpp/registry/operator_registry.cpp.
use raftinfer.Base.{
  ℕ, zero, suc, List, [], ◌∷◌, ◌++◌, All, length, get_elem?, get_elem?-append, ◌==◌, some, true,
  false, Bool-cases, Text, ok, ◌≡◌, ◌≢◌, ◌↔◌, ◌⊎◌, inl, inr, ap, refl, subst, arith,
}
use raftinfer.Base.Texts.{text_eq, text_eq_self, text_eq-eq}
use raftinfer.Registry.Enums.{
  OperatorKind, CudaArchitecture, ShapeBucket, KernelProvenance, operator_kind_code,
  cuda_architecture_code, cuda_architecture_code-injective, operator_kind_code-injective,
  shape_bucket_code-injective, kernel_provenance_code-injective, shape_bucket_code,
  kernel_provenance_code,
}
use raftinfer.Registry.Capability.{KernelCapability}
use raftinfer.Registry.Dispatch.{
  KernelRegistration, OperatorRegistry, empty_registry, text_contains, capability_guards,
  register_kernel,
}
use raftinfer.Registry.Winner.{DistinctNames}
use raftinfer.Registry.Resolve.{Registered, IsValid}

abbrev pub appended : OperatorRegistry → KernelCapability → OperatorRegistry
appended r c = record {
  registrations = r.registrations ++ record { name = c.name; capability = c } ∷ [];
  names = c.name ∷ r.names;
  cache = [];
}

register_kernel-eq-ok :
    (r r' : OperatorRegistry) (c : KernelCapability) (place : ℕ)
    → register_kernel r c ≡ ok (place, r')
    → (capability_guards c ≡ ok tt)
      × (text_contains r.names c.name ≡ false)
      × (place ≡ length r.registrations)
      × (appended r c ≡ r')
unfolding register_kernel
register_kernel-eq-ok r r' c place h = ground arith

guards-Registered :
    (c : KernelCapability)
    → capability_guards c ≡ ok tt
    → Registered (record { name = c.name; capability = c })
guards-Registered c h =
    let tests : ((operator_kind_code c.op == 0) ≡ false)
        × ((shape_bucket_code c.shape_bucket == 0) ≡ false)
        × ((kernel_provenance_code c.provenance == 0) ≡ false)
        × (cuda_architecture_code c.architecture ≡ cuda_architecture_code CudaArchitecture.sm120a) =
      ground arith in
    (
      refl,
      λ e. ground (arith, ap operator_kind_code e),
      cuda_architecture_code-injective c.architecture CudaArchitecture.sm120a tests.3,
      λ e. ground (arith, ap shape_bucket_code e),
      λ e. ground (arith, ap kernel_provenance_code e),
    )

get_elem?-last :
    {A : Type 0} (xs : List A) (a : A) (i : ℕ) {b : A}
    → get_elem? (xs ++ a ∷ []) i ≡ some b
    → (get_elem? xs i ≡ some b) ⊎ ((i ≡ length xs) × (a ≡ b))
get_elem?-last [] a zero h = inr (refl, cc h)
get_elem?-last [] a (suc i) h = cc
get_elem?-last (x ∷ xs) a zero h = inl h
get_elem?-last (x ∷ xs) a (suc i) h = ground (arith, get_elem?-last xs a i h)

get_elem?_last : {A : Type 0} (xs : List A) (a : A) → get_elem? (xs ++ a ∷ []) (length xs) ≡ some a
get_elem?_last [] a = refl
get_elem?_last (x ∷ xs) a = get_elem?_last xs a

text_contains-cons :
    (names : List Text) (x name : Text)
    → text_contains names name ≡ true
    → text_contains (x ∷ names) name ≡ true
unfolding text_contains
text_contains-cons names x name h = ground arith

text_contains_head : (names : List Text) (name : Text) → text_contains (name ∷ names) name ≡ true
unfolding text_contains
text_contains_head names name = ground (arith, text_eq_self name)

appended-DistinctNames :
    (r : OperatorRegistry) (c : KernelCapability)
    → IsValid r
    → text_contains r.names c.name ≡ false
    → DistinctNames (appended r c).registrations
appended-DistinctNames r c valid fresh i j a b at at' same =
    let new : KernelRegistration = record { name = c.name; capability = c } in
    ground (
      arith,
      get_elem?-last r.registrations new i at,
      get_elem?-last r.registrations new j at',
      valid.distinct i j a b,
      valid.named i a,
      valid.named j b,
    )

All-append-one :
    {A : Type 0} (P : A → Type 0) (xs : List A) (a : A) → All P xs → P a → All P (xs ++ a ∷ [])
All-append-one P [] a all here = (here, tt)
All-append-one P (x ∷ xs) a all here = (all.0, All-append-one P xs a all.1 here)

appended-known :
    (r : OperatorRegistry) (c : KernelCapability) (name : Text)
    → IsValid r
    → text_contains (c.name ∷ r.names) name ≡ true
    → (i : ℕ) × (k : KernelRegistration) × (get_elem? (appended r c).registrations i ≡ some k)
      × (k.name ≡ name)
unfolding text_contains
appended-known r c name valid h =
    let new : KernelRegistration = record { name = c.name; capability = c } in
    elim (Bool-cases (text_eq c.name name)) [
      | inl same ↦ (
        length r.registrations,
        new,
        get_elem?_last r.registrations new,
        text_eq-eq c.name name same,
      )
      | inr other ↦
          let (i, k, at, named) = valid.known name (ground arith) in
          (i, k, get_elem?-append r.registrations (new ∷ []) i at, named)
    ]

appended-IsValid :
    (r : OperatorRegistry) (c : KernelCapability)
    → IsValid r
    → Registered (record { name = c.name; capability = c })
    → text_contains r.names c.name ≡ false
    → IsValid (appended r c)
appended-IsValid r c valid good fresh =
    let new : KernelRegistration = record { name = c.name; capability = c } in
    record {
      registered = All-append-one Registered r.registrations new valid.registered good;
      distinct = appended-DistinctNames r c valid fresh;
      named = λ i k at. ground (
        arith,
        get_elem?-last r.registrations new i at,
        text_contains-cons r.names c.name k.name,
        valid.named i k,
        text_contains_head r.names c.name,
      );
      known = λ name. appended-known r c name valid;
      cached = tt;
    }

-- A registry starts with no kernels.
pub empty_registry-IsValid : IsValid empty_registry
unfolding text_contains
empty_registry-IsValid = record {
  registered = tt;
  distinct = λ i j a b at. cc at;
  named = λ i k at. cc at;
  known = λ name h. cc h;
  cached = tt;
}

-- When register_kernel returns a place on a valid registry: the new registry is valid, its cache is
-- empty, the new kernel stands at that place under its own name, and every kernel that was there
-- keeps its place.
pub register_kernel-IsValid :
    (r r' : OperatorRegistry) (c : KernelCapability) (place : ℕ)
    → IsValid r
    → register_kernel r c ≡ ok (place, r')
    → IsValid r'
      × (r'.cache ≡ [])
      × (get_elem? r'.registrations place ≡ some (record { name = c.name; capability = c }))
      × ((i : ℕ) (k : KernelRegistration)
          → get_elem? r.registrations i ≡ some k
          → get_elem? r'.registrations i ≡ some k)
register_kernel-IsValid r r' c place valid h =
    let new : KernelRegistration = record { name = c.name; capability = c } in
    let (guards, fresh, at, result) = register_kernel-eq-ok r r' c place h in
    subst
      (λ t.
        IsValid t
        × (t.cache ≡ [])
        × (get_elem? t.registrations place ≡ some new)
        × ((i : ℕ) (k : KernelRegistration)
            → get_elem? r.registrations i ≡ some k
            → get_elem? t.registrations i ≡ some k))
      result
      (
        appended-IsValid r c valid (guards-Registered c guards) fresh,
        refl,
        ground (arith, get_elem?_last r.registrations new),
        λ i k there. get_elem?-append r.registrations (new ∷ []) i there,
      )

Registered-guards :
    (c : KernelCapability)
    → Registered (record { name = c.name; capability = c })
    → capability_guards c ≡ ok tt
Registered-guards c (same, kind, architecture, bucket, provenance) = ground (
  arith,
  ap cuda_architecture_code architecture,
  operator_kind_code-injective c.op OperatorKind.unspecified,
  shape_bucket_code-injective c.shape_bucket ShapeBucket.unspecified,
  kernel_provenance_code-injective c.provenance KernelProvenance.unspecified,
)

-- On a valid registry register_kernel returns a place if and only if the capability names an
-- operator, the sm_120a architecture, a shape bucket and a provenance, and no registration has its
-- name.
pub register_kernel-accepts :
    (r : OperatorRegistry) (c : KernelCapability)
    → IsValid r
    → ((place : ℕ) × (r' : OperatorRegistry) × (register_kernel r c ≡ ok (place, r'))) ↔ (
        Registered (record { name = c.name; capability = c })
        × ((i : ℕ) (k : KernelRegistration)
            → get_elem? r.registrations i ≡ some k
            → k.name ≢ c.name))
unfolding register_kernel
register_kernel-accepts r c valid = (
  λ (place, r', h).
      let (guards, fresh, at, result) = register_kernel-eq-ok r r' c place h in
      (guards-Registered c guards, λ i k there same. ground (arith, valid.named i k there)),
  λ (good, unused). elim (Bool-cases (text_contains r.names c.name)) [
    | inl taken ↦
        let (i, k, there, same) = valid.known c.name taken in absurd (unused i k there same)
    | inr fresh ↦ (length r.registrations, appended r c, ground (arith, Registered-guards c good))
  ],
)
