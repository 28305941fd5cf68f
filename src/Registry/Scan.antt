-- ===== src/Registry/Scan.antt =====
-- The loop of OperatorRegistry::resolve of cpp/registry/operator_registry.cpp.
use raftinfer.Base.{
  ℕ, zero, suc, ◌+◌, ◌<◌, List, [], ◌∷◌, ◌++◌, get_elem?, get_elem?-lt, length, none, some, true,
  false, if◌then◌else◌, Bool-cases, Option-cases, Text, ◌≡◌, ◌≢◌, ◌⊎◌, inl, inr, sym, subst, arith,
}
use mathlib.Core.List.{append-nil, append_assoc}
use raftinfer.Registry.Signature.{OperatorSignature}
use raftinfer.Registry.Capability.{rejection_reason, matches}
use raftinfer.Registry.Dispatch.{KernelRegistration, beats, Best, better_of, scan}
use raftinfer.Registry.Winner.{DistinctNames, beats_trans, beats_total, Winner}

-- `best` is the best among the places below `n`.
abbrev BestBelow : List KernelRegistration → OperatorSignature → ℕ → Best → Type 0
BestBelow all s n none =
    (j : ℕ) (other : KernelRegistration)
    → j < n
    → get_elem? all j ≡ some other
    → matches other.capability s ≡ false
BestBelow all s n (some (i, k)) =
    (i < n)
    × (get_elem? all i ≡ some k)
    × (matches k.capability s ≡ true)
    × ((j : ℕ) (other : KernelRegistration)
        → j < n
        → get_elem? all j ≡ some other
        → matches other.capability s ≡ true
        → (j ≡ i) ⊎ (beats k other ≡ true))

scan-fits :
    (s : OperatorSignature) (k : KernelRegistration) (ks : List KernelRegistration) (n : ℕ)
    (best : Best) (rejections : List (Text × Text))
    → rejection_reason k.capability s ≡ none
    → scan s (k ∷ ks) n best rejections ≡ scan s ks (suc n) (better_of best n k) rejections
unfolding scan
scan-fits s k ks n best rejections fits = ground arith

scan-refused :
    (s : OperatorSignature) (k : KernelRegistration) (ks : List KernelRegistration) (n : ℕ)
    (best : Best) (rejections : List (Text × Text)) {reason : Text}
    → rejection_reason k.capability s ≡ some reason
    → scan s (k ∷ ks) n best rejections
      ≡ scan s ks (suc n) best (rejections ++ (k.name, reason) ∷ [])
unfolding scan
scan-refused s k ks n best rejections refused = ground arith

-- The kernels that refuse a signature, in their order, each with its reason.
unfoldable pub rejections_of : OperatorSignature → List KernelRegistration → List (Text × Text)
rejections_of s [] = []
rejections_of s (k ∷ ks) = elim (rejection_reason k.capability s) [
  | some reason ↦ (k.name, reason) ∷ rejections_of s ks
  | none ↦ rejections_of s ks
]

pub scan-rejections :
    (s : OperatorSignature) (ks : List KernelRegistration) (n : ℕ) (best : Best)
    (rejections : List (Text × Text))
    → (scan s ks n best rejections).1 ≡ rejections ++ rejections_of s ks
unfolding scan rejections_of
scan-rejections s [] n best rejections = sym (append-nil rejections)
scan-rejections s (k ∷ ks) n best rejections =
    elim (Option-cases (rejection_reason k.capability s)) [
      | inl fits ↦ ground (arith, scan-rejections s ks (suc n) (better_of best n k) rejections)
      | inr (reason, refused) ↦
          let rejections' = rejections ++ (k.name, reason) ∷ [] in
          ground (
            arith,
            scan-rejections s ks (suc n) best rejections',
            append_assoc rejections ((k.name, reason) ∷ []) (rejections_of s ks),
          )
    ]

module _ (all : List KernelRegistration) (s : OperatorSignature)
    (distinct : DistinctNames all) where
  -- A kernel that does not match leaves the best as it is.
  BestBelow-skip :
      (n : ℕ) (best : Best) (k : KernelRegistration)
      → get_elem? all n ≡ some k
      → matches k.capability s ≡ false
      → BestBelow all s n best
      → BestBelow all s (suc n) best
  BestBelow-skip n none k here missed below = λ j other lt at. ground (arith, below j other)
  BestBelow-skip n (some (i, b)) k here missed (lower, bi, bm, beaten) =
      (omega arith, bi, bm, λ j other lt at m. ground (arith, beaten j other))

  BestBelow-better_of :
      (n : ℕ) (best : Best) (k : KernelRegistration)
      → get_elem? all n ≡ some k
      → matches k.capability s ≡ true
      → BestBelow all s n best
      → BestBelow all s (suc n) (better_of best n k)
  BestBelow-better_of n none k here hit below =
      (omega arith, here, hit, λ j other lt at m. ground (arith, below j other))
  BestBelow-better_of n (some (i, b)) k here hit (lower, bi, bm, beaten) =
      let differ : k.name ≢ b.name = λ same. omega (arith, distinct n i k b here bi same) in
      elim (Bool-cases (beats k b)) [
        | inl wins ↦
            subst (λ flag. BestBelow all s (suc n) (if flag then some (n, k) else some (i, b)))
              (sym wins)
              (
                omega arith,
                here,
                hit,
                λ j other lt at m. ground (arith, beaten j other, beats_trans k b other),
              )
        | inr loses ↦
            subst (λ flag. BestBelow all s (suc n) (if flag then some (n, k) else some (i, b)))
              (sym loses)
              (
                omega arith,
                bi,
                bm,
                λ j other lt at m. ground (arith, beaten j other, beats_total k b differ loses),
              )
      ]

  -- The loop from place `n` on ends with the best of all places, and none only if there was none.
  pub scan-BestBelow :
      (ks : List KernelRegistration) (n : ℕ) (best : Best) (rejections : List (Text × Text))
      → ((m : ℕ) → get_elem? ks m ≡ get_elem? all (n + m))
      → BestBelow all s n best
      → (last : ℕ) → last ≡ n + length ks
      → BestBelow all s last (scan s ks n best rejections).0
  unfolding scan
  scan-BestBelow [] n best rejections rest below last end =
      subst (λ j. BestBelow all s j best) (omega arith) below
  scan-BestBelow (k ∷ ks) n best rejections rest below last end =
      let here : get_elem? all n ≡ some k = ground (arith, rest zero) in
      let later : (m : ℕ) → get_elem? ks m ≡ get_elem? all (suc n + m) =
        λ m. ground (arith, rest (suc m)) in
      elim (Option-cases (rejection_reason k.capability s)) [
        | inl fits ↦
            subst (λ found. BestBelow all s last found.0)
              (sym (scan-fits s k ks n best rejections fits))
              (scan-BestBelow ks (suc n) (better_of best n k) rejections later
                (BestBelow-better_of n best k here (ground arith) below) last (omega arith))
        | inr (reason, refused) ↦
            let rejections' = rejections ++ (k.name, reason) ∷ [] in
            subst (λ found. BestBelow all s last found.0)
              (sym (scan-refused s k ks n best rejections refused))
              (scan-BestBelow ks (suc n) best rejections' later
                (BestBelow-skip n best k here (ground arith) below) last (omega arith))
      ]

  -- What the loop finds over the whole registry.
  unfoldable pub Found : Best → Type 0
  Found none =
      (j : ℕ) (other : KernelRegistration)
      → get_elem? all j ≡ some other
      → matches other.capability s ≡ false
  Found (some (place, k)) = Winner all s place

  BestBelow-Found : (best : Best) → BestBelow all s (length all) best → Found best
  unfolding Found
  BestBelow-Found none below = λ j other at. below j other (get_elem?-lt all j at) at
  BestBelow-Found (some (place, k)) (lower, at, hit, beaten) =
      (k, at, hit, λ j other at'. beaten j other (get_elem?-lt all j at') at')

  pub scan-Found : Found (scan s all 0 none []).0
  scan-Found = BestBelow-Found (scan s all 0 none []).0 (
      scan-BestBelow all 0 none [] (λ m. ground arith) (λ j other lt. absurd (omega arith))
        (length all) (omega arith))
