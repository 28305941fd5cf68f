-- ===== src/Registry/Agree.antt =====
-- Neither the cache nor the order of registration decides which kernel OperatorRegistry::resolve of
-- cpp/registry/operator_registry.cpp finds.
use raftinfer.Base.{
  ℕ, List, [], get_elem?, some, Result, ok, err, ◌≡◌, ◌↔◌, inl, inr, sym, ◌∙◌, ap, arith,
}
use raftinfer.Registry.Signature.{OperatorSignature}
use raftinfer.Registry.Dispatch.{KernelRegistration, OperatorRegistry, resolve}
use raftinfer.Registry.Winner.{Winner, Winner-unique, beats_asym}
use raftinfer.Registry.Resolve.{IsValid, resolve-Winner}

abbrev pub place_of : Result (ℕ × OperatorRegistry) → Result ℕ
place_of (err e) = err e
place_of (ok answer) = ok answer.0

abbrev pub without_cache : OperatorRegistry → OperatorRegistry
without_cache r = record r { cache = [] }

without_cache-IsValid : (r : OperatorRegistry) → IsValid r → IsValid (without_cache r)
without_cache-IsValid r valid = record {
  registered = valid.registered;
  distinct = valid.distinct;
  named = valid.named;
  known = valid.known;
  cached = tt;
}

-- In a valid registry, for every signature, resolve answers the same place, or the same error, as
-- it does with an empty cache.
pub resolve-without_cache :
    (r : OperatorRegistry) (s : OperatorSignature)
    → IsValid r
    → place_of (resolve r s) ≡ place_of (resolve (without_cache r) s)
resolve-without_cache r s valid = elim (resolve-Winner r s valid) [
  | inl (nothing, thrown) ↦
      elim (resolve-Winner (without_cache r) s (without_cache-IsValid r valid)) [
        | inl (nothing', thrown') ↦ ap place_of (thrown ∙ sym thrown')
        | inr (place, r', same, (k, at, hit, beaten), kept, again, first) ↦
            absurd (ground (arith, nothing place k at))
      ]
  | inr (place, r', answer, (k, at, hit, beaten), kept, again, first) ↦
      elim (resolve-Winner (without_cache r) s (without_cache-IsValid r valid)) [
        | inl (nothing, thrown) ↦ absurd (ground (arith, nothing place k at))
        | inr (place', r'', answer', wins, kept', again', first') ↦
            let same : place ≡ place' =
              Winner-unique r.registrations s place place' (k, at, hit, beaten) wins in
            ap place_of answer ∙ ap ok same ∙ sym (ap place_of answer')
      ]
]

abbrev pub SameKernels : List KernelRegistration → List KernelRegistration → Type 0
SameKernels ks ls =
    (k : KernelRegistration)
    → ((i : ℕ) × (get_elem? ks i ≡ some k)) ↔ ((j : ℕ) × (get_elem? ls j ≡ some k))

Winner-SameKernels :
    (ks ls : List KernelRegistration) (s : OperatorSignature) (i j : ℕ)
    → SameKernels ks ls
    → Winner ks s i
    → Winner ls s j
    → get_elem? ls j ≡ get_elem? ks i
Winner-SameKernels ks ls s i j same (k, at, hit, beaten) (l, at', hit', beaten') =
    let (i', there) = (same l).1 (j, at') in
    let (j', there') = (same k).0 (i, at) in
    ground (arith, beaten i' l, beaten' j' k, beats_asym k l)

-- In two valid registries with the same registrations, in whatever order they were made and with
-- whatever in the caches: when resolve returns a place in the one, it returns a place in the other
-- too, and the same registration stands at both.
pub resolve-SameKernels :
    (r t r' : OperatorRegistry) (s : OperatorSignature) (i : ℕ)
    → IsValid r
    → IsValid t
    → SameKernels r.registrations t.registrations
    → resolve r s ≡ ok (i, r')
    → (j : ℕ) × (t' : OperatorRegistry) × (resolve t s ≡ ok (j, t'))
      × (get_elem? t.registrations j ≡ get_elem? r.registrations i)
resolve-SameKernels r t r' s i valid valid' same h = elim (resolve-Winner r s valid) [
  | inl (nothing, thrown) ↦ absurd (cc (sym thrown ∙ h))
  | inr (place, r'', answer, wins, kept, again, first) ↦
      let here : place ≡ i = cc (sym answer ∙ h) in
      elim (resolve-Winner t s valid') [
        | inl (nothing, thrown) ↦
            let (j, there) = (same wins.0).0 (place, wins.1) in
            absurd (ground (arith, nothing j wins.0 there, wins.2))
        | inr (j, t', answer', wins', kept', again', first') ↦ (
          j,
          t',
          answer',
          Winner-SameKernels r.registrations t.registrations s place j same wins wins'
              ∙ ap (get_elem? r.registrations) here,
        )
      ]
]
