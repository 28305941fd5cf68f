-- ===== src/Registry/Resolve.antt =====
-- OperatorRegistry::resolve of cpp/registry/operator_registry.cpp over whole registries.
use raftinfer.Base.{
  ℕ, List, [], ◌∷◌, All, get_elem?, none, some, true, false, Bool-cases, Option-cases, Text, Error,
  ok, err, ◌≡◌, ◌≢◌, ◌⊎◌, inl, inr, subst, refl, arith,
}
use raftinfer.Registry.Enums.{OperatorKind, CudaArchitecture, ShapeBucket, KernelProvenance}
use raftinfer.Registry.Signature.{OperatorSignature, signature_eq, signature_eq-eq}
use raftinfer.Registry.Capability.{matches}
use raftinfer.Registry.Dispatch.{
  KernelRegistration, OperatorRegistry, text_contains, scan, find_cached, resolve,
}
use raftinfer.Registry.Winner.{DistinctNames, Winner, First, Winner-First}
use raftinfer.Registry.Scan.{Found, scan-Found, scan-rejections, rejections_of}

abbrev pub Registered : KernelRegistration → Type 0
Registered k =
    (k.name ≡ k.capability.name)
    × (k.capability.op ≢ OperatorKind.unspecified)
    × (k.capability.architecture ≡ CudaArchitecture.sm120a)
    × (k.capability.shape_bucket ≢ ShapeBucket.unspecified)
    × (k.capability.provenance ≢ KernelProvenance.unspecified)

-- Names are unique and the set of names has them and no other, each registration passed the guards, and the
-- cache holds winners only.
pub record IsValid (r : OperatorRegistry) : Type 0 where
  pub registered : All Registered r.registrations
  pub distinct : DistinctNames r.registrations
  pub named :
      (i : ℕ) (k : KernelRegistration)
      → get_elem? r.registrations i ≡ some k
      → text_contains r.names k.name ≡ true
  pub known :
      (name : Text)
      → text_contains r.names name ≡ true
      → (i : ℕ) × (k : KernelRegistration) × (get_elem? r.registrations i ≡ some k)
        × (k.name ≡ name)
  pub cached : All (λ entry. Winner r.registrations entry.0 entry.1) r.cache

find_cached-Winner :
    (ks : List KernelRegistration) (entries : List (OperatorSignature × ℕ)) (s : OperatorSignature)
    (place : ℕ)
    → All (λ entry. Winner ks entry.0 entry.1) entries
    → find_cached entries s ≡ some place
    → Winner ks s place
unfolding find_cached
find_cached-Winner ks [] s place all h = cc
find_cached-Winner ks (entry ∷ entries) s place all h = elim (Bool-cases (signature_eq entry.0 s)) [
  | inl same ↦
      let at : some entry.1 ≡ some place = ground arith in
      let place_same : entry.1 ≡ place = cc at in
      subst (λ t. Winner ks t place) (signature_eq-eq entry.0 s same)
        (subst (λ i. Winner ks entry.0 i) place_same all.0)
  | inr other ↦ find_cached-Winner ks entries s place all.1 (ground arith)
]

-- Nothing matches, and the answer is an error that names each kernel with its reason.
abbrev pub Refused : OperatorRegistry → OperatorSignature → Type 0
Refused r s =
    ((j : ℕ) (k : KernelRegistration)
      → get_elem? r.registrations j ≡ some k
      → matches k.capability s ≡ false)
    × (resolve r s ≡ err (Error.dispatch_error (rejections_of s r.registrations)))

-- The answer is the winner, the kernels stay, the registry is valid again, and the winner comes first in the
-- order of priorities and names.
abbrev pub Resolved : OperatorRegistry → OperatorSignature → Type 0
Resolved r s =
    (place : ℕ) × (r' : OperatorRegistry) × (resolve r s ≡ ok (place, r'))
    × Winner r.registrations s place
    × (r'.registrations ≡ r.registrations)
    × IsValid r'
    × First r.registrations s place

resolve_found :
    (r : OperatorRegistry) (s : OperatorSignature) (place : ℕ)
    → IsValid r
    → find_cached r.cache s ≡ some place
    → Resolved r s
unfolding resolve
resolve_found r s place valid hit =
    let wins = find_cached-Winner r.registrations r.cache s place valid.cached hit in
    (place, r, ground arith, wins, refl, valid, Winner-First r.registrations s place wins)

resolve_scanned :
    (r : OperatorRegistry) (s : OperatorSignature)
    → IsValid r
    → find_cached r.cache s ≡ none
    → Refused r s ⊎ Resolved r s
unfolding resolve Found
resolve_scanned r s valid missed =
    let found : Found r.registrations s valid.distinct (scan s r.registrations 0 none []).0 =
      scan-Found r.registrations s valid.distinct in
    elim (Option-cases (scan s r.registrations 0 none []).0) [
      | inl nothing ↦ inl (
        subst (Found r.registrations s valid.distinct) nothing found,
        ground (arith, scan-rejections s r.registrations 0 none []),
      )
      | inr ((place, k), best) ↦
          let wins : Winner r.registrations s place =
            subst (Found r.registrations s valid.distinct) best found in
          inr (
            place,
            record r { cache = (s, place) ∷ r.cache },
            ground arith,
            wins,
            refl,
            record {
              registered = valid.registered;
              distinct = valid.distinct;
              named = valid.named;
              known = valid.known;
              cached = (wins, valid.cached);
            },
            Winner-First r.registrations s place wins,
          )
    ]

-- In a valid registry, for every signature: either no registration matches it and resolve throws
-- the error that lists each registration with the reason of its refusal, or resolve returns the
-- place of a registration that matches and beats (by a higher priority, or by the smaller name at
-- the same priority) each other one that does, and leaves the same registrations in a valid registry.
pub resolve-Winner :
    (r : OperatorRegistry) (s : OperatorSignature) → IsValid r → Refused r s ⊎ Resolved r s
resolve-Winner r s valid = elim (Option-cases (find_cached r.cache s)) [
  | inl missed ↦ resolve_scanned r s valid missed
  | inr (place, hit) ↦ inr (resolve_found r s place valid hit)
]
