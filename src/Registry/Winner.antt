-- ===== src/Registry/Winner.antt =====
-- The order in which OperatorRegistry::resolve of cpp/registry/operator_registry.cpp prefers
-- kernels, and the kernel it is to find.
use raftinfer.Base.{
  ℕ, List, get_elem?, some, true, false, ◌≡◌, ◌≢◌, ◌⊎◌, inl, inr, Bool, Bool-cases, ◌&&◌, ◌||◌,
  refl, sym, ◌∙◌, arith,
}
use raftinfer.Base.Texts.{text_lt, text_lt_trans, text_lt_irrefl, text_lt_total}
use raftinfer.Base.Int.{ltb_ℤ, eqb_ℤ, eqb_ℤ-eq}
use raftinfer.Registry.Signature.{OperatorSignature}
use raftinfer.Registry.Capability.{matches}
use raftinfer.Registry.Dispatch.{KernelRegistration, beats}

-- The kernel at `place` matches the signature and beats each other one that does.
abbrev pub Winner : List KernelRegistration → OperatorSignature → ℕ → Type 0
Winner ks s place =
    (k : KernelRegistration) × (get_elem? ks place ≡ some k)
    × (matches k.capability s ≡ true)
    × ((j : ℕ) (other : KernelRegistration)
        → get_elem? ks j ≡ some other
        → matches other.capability s ≡ true
        → (j ≡ place) ⊎ (beats k other ≡ true))

abbrev pub DistinctNames : List KernelRegistration → Type 0
DistinctNames ks =
    (i j : ℕ) (a b : KernelRegistration)
    → get_elem? ks i ≡ some a
    → get_elem? ks j ≡ some b
    → a.name ≡ b.name
    → i ≡ j

pub beats_trans :
    (a b c : KernelRegistration) → beats a b ≡ true → beats b c ≡ true → beats a c ≡ true
unfolding beats
beats_trans a b c h k = ground (arith, text_lt_trans a.name b.name c.name)

beats_irrefl : (a : KernelRegistration) → beats a a ≡ false
unfolding beats
beats_irrefl a = ground (arith, text_lt_irrefl a.name)

pub beats_asym : (a b : KernelRegistration) → beats a b ≡ true → beats b a ≡ true → false ≡ true
beats_asym a b h k = sym (beats_irrefl a) ∙ beats_trans a b a h k

pub beats_total :
    (a b : KernelRegistration) → a.name ≢ b.name → beats a b ≡ false → beats b a ≡ true
unfolding beats
beats_total a b differ h = ground (arith, text_lt_total a.name b.name)

pub Winner-unique :
    (ks : List KernelRegistration) (s : OperatorSignature) (i j : ℕ)
    → Winner ks s i
    → Winner ks s j
    → i ≡ j
Winner-unique ks s i j (a, ai, am, beaten) (b, bj, bm, beaten') =
    ground (arith, beaten j b, beaten' i a, beats_asym a b)

-- The higher priority, or the smaller name at the same priority.
abbrev pub IsPreferred : KernelRegistration → KernelRegistration → Type 0
IsPreferred k other =
    (ltb_ℤ other.capability.priority k.capability.priority ≡ true)
    ⊎ ((k.capability.priority ≡ other.capability.priority) × (text_lt k.name other.name ≡ true))

later_test : (a b c : Bool) → (a || (b && c)) ≡ true → a ≡ false → (b ≡ true) × (c ≡ true)
later_test true b c h k = cc k
later_test false true c h k = (refl, h)
later_test false false c h k = cc h

beats-IsPreferred : (k other : KernelRegistration) → beats k other ≡ true → IsPreferred k other
unfolding beats
beats-IsPreferred k other h =
    elim (Bool-cases (ltb_ℤ other.capability.priority k.capability.priority)) [
      | inl higher ↦ inl higher
      | inr rest ↦
          let (same, smaller) =
            later_test (ltb_ℤ other.capability.priority k.capability.priority)
              (eqb_ℤ k.capability.priority other.capability.priority) (text_lt k.name other.name) h
              rest in
          inr (eqb_ℤ-eq k.capability.priority other.capability.priority same, smaller)
    ]

-- The kernel at `place` is preferred to each other one that matches.
abbrev pub First : List KernelRegistration → OperatorSignature → ℕ → Type 0
First ks s place =
    (k : KernelRegistration) × (get_elem? ks place ≡ some k)
    × ((j : ℕ) (other : KernelRegistration)
        → get_elem? ks j ≡ some other
        → matches other.capability s ≡ true
        → (j ≡ place) ⊎ IsPreferred k other)

pub Winner-First :
    (ks : List KernelRegistration) (s : OperatorSignature) (place : ℕ)
    → Winner ks s place
    → First ks s place
Winner-First ks s place (k, at, hit, beaten) = (
  k,
  at,
  λ j other there fits. elim (beaten j other there fits) [
    | inl same ↦ inl same
    | inr wins ↦ inr (beats-IsPreferred k other wins)
  ],
)
