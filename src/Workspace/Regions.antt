-- ===== src/Workspace/Regions.antt =====
-- cpp/execution/workspace_layout.hpp: the buffers that a history of calls has placed.
use mathlib.Core.Path.{subst₂}
use raftinfer.Base.{
  ℕ, ◌+◌, ◌≤◌, ◌<◌, ◌≡◌, refl, List, [], ◌∷◌, All, All-map, arith, size_max, ok, >>=-eq-ok,
}
use raftinfer.Workspace.{WorkspaceLayout, IsValid, allocate, allocate_all}
use raftinfer.Workspace.Bounds.{Placement, allocate-Placement}

-- The address `x` is one of the bytes of the region (offset, size).
abbrev pub Holds : ℕ × ℕ → ℕ → Type 0
Holds r x = (r.0 ≤ x) × (x < r.0 + r.1)

abbrev pub Disjoint : ℕ × ℕ → ℕ × ℕ → Type 0
Disjoint r s = (x : ℕ) → Holds r x → Holds s x → ⊥

abbrev pub PairwiseDisjoint : List (ℕ × ℕ) → Type 0
PairwiseDisjoint [] = Unit
PairwiseDisjoint (r ∷ rs) = All (Disjoint r) rs × PairwiseDisjoint rs

abbrev pub Between : ℕ → ℕ → ℕ × ℕ → Type 0
Between lo hi r = (lo ≤ r.0) × (r.0 + r.1 ≤ hi)

-- Both numbers of each request fit `std::size_t`.
abbrev pub InRange : List (ℕ × ℕ) → Type 0
InRange = All (λ q. (q.0 ≤ size_max) × (q.1 ≤ size_max))

pub record Regions (w : WorkspaceLayout) (regions : List (ℕ × ℕ)) (w' : WorkspaceLayout)
    : Type 0 where
  pub inside : All (Between w.used w.capacity) regions
  pub disjoint : PairwiseDisjoint regions
  pub valid : IsValid w'
  pub same_capacity : w'.capacity ≡ w.capacity

-- One more region in front of those that were placed behind it.
Regions-cons :
    {w w' w'' : WorkspaceLayout} {n alignment offset : ℕ} (regions : List (ℕ × ℕ))
    → Placement w n alignment offset w'
    → Regions w' regions w''
    → Regions w ((offset, n) ∷ regions) w''
Regions-cons {w} {w'} {w''} {n} {alignment} {offset} regions p rest = record {
  inside = (
    (p.above, p.room),
    All-map (λ r b. ground (arith, p.after, p.above, b.0, b.1)) regions rest.inside,
  );
  disjoint = (
    All-map {P = Between w'.used w'.capacity}
        (λ r b x a c. ground (arith, p.after, a.0, a.1, b.0, c.0)) regions rest.inside,
    rest.disjoint,
  );
  valid = rest.valid;
  same_capacity = ground (arith, rest.same_capacity, p.after);
}

-- Whatever sizes and alignments are asked for, the buffers of the calls that return lie behind what
-- was used before and inside the capacity, and no two of them share a byte.
pub allocate_all-Regions :
    (w : WorkspaceLayout) (requests regions : List (ℕ × ℕ)) (w' : WorkspaceLayout)
    → IsValid w
    → InRange requests
    → allocate_all w requests ≡ ok (regions, w')
    → Regions w regions w'
unfolding allocate_all
allocate_all-Regions w [] regions w' valid range h =
    let no_regions : [] ≡ regions = cc in
    let same : w ≡ w' = cc in
    subst₂ (Regions w) no_regions same
      (record { inside = tt; disjoint = tt; valid = valid; same_capacity = refl })
allocate_all-Regions w ((n, alignment) ∷ rest) regions w' valid range h =
    let ((offset, next), first, h₁) = >>=-eq-ok (allocate w n alignment) _ h in
    let ((others, last), tail, h₂) = >>=-eq-ok (allocate_all next rest) _ h₁ in
    let p = allocate-Placement w n alignment offset next valid range.0.0 range.0.1 first in
    let all : (offset, n) ∷ others ≡ regions = cc h₂ in
    let end : last ≡ w' = cc h₂ in
    subst₂ (Regions w) all end
      (Regions-cons others p (allocate_all-Regions next rest others last p.valid range.1 tail))
