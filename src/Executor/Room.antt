-- ===== src/Executor/Room.antt =====
-- cpp/execution/qwen35_executor.cu: buffers that are taken one after the other fit a workspace of the size that
-- `add_all` makes of their sizes.
use raftinfer.Base.{
  ℕ, zero, suc, ◌+◌, ◌-◌, ◌%◌, ◌^◌, ◌≤◌, ◌<◌, bit_and, true, false, leb, not, ◌&&◌, ◌==◌, ok,
  throw_if->>-eq-ok, size_max, ◌≡◌, ◌⊎◌, inl, inr, refl, sym, ap, ◌∙◌, arith,
}
use native.Mathlib.Nat.{one-le-pow, mod-eq_of_lt}
use raftinfer.Base.Bits.{bit_and_pred-pow}
use raftinfer.Workspace.{WorkspaceLayout, IsValid}
use raftinfer.Workspace
use raftinfer.Workspace.Place.{round_up, le-round_up, mask-round_up, pow-le}
use raftinfer.Workspace.Bounds.{placed, allocate_fits, placed-IsValid}
use raftinfer.Workspace.Arena
use raftinfer.Workspace.Arena.{WorkspaceArena}
use raftinfer.Executor.Resolve.{require}
use raftinfer.Executor.Estimate.{align_up}
use raftinfer.Executor.Buffers.{allocate_aligned}

mask_plain :
    (k value : ℕ)
    → k < 64
    → value + (2 ^ k - 1) ≤ size_max
    → bit_and (value + (2 ^ k - 1)) (size_max - (2 ^ k - 1)) ≡ round_up value (2 ^ k)
mask_plain k value word fits =
    let in_word : (value + (2 ^ k - 1)) % 2 ^ 64 ≡ value + (2 ^ k - 1) =
      mod-eq_of_lt (omega (arith, fits)) in
    ap (λ v. bit_and v (size_max - (2 ^ k - 1))) (sym in_word)
    ∙ mask-round_up k value (omega (arith, word)) fits

power_test : (k : ℕ) → (not (2 ^ k == 0) && bit_and (2 ^ k) (2 ^ k - 1) == 0) ≡ true
power_test k = ground (arith, one-le-pow k 2 (omega arith), bit_and_pred-pow k)

-- Where `align_up` returns, it returns the next multiple.
pub align_up-round_up :
    (k value n : ℕ)
    → k < 64
    → align_up value (2 ^ k) ≡ ok n
    → (n ≡ round_up value (2 ^ k)) × (value + (2 ^ k - 1) ≤ size_max)
unfolding align_up require
align_up-round_up k value n word h =
    let (_, h₁) =
      throw_if->>-eq-ok (not (not (2 ^ k == 0) && bit_and (2 ^ k) (2 ^ k - 1) == 0)) _ _ h in
    let (room, last) = throw_if->>-eq-ok (not (leb value (size_max - (2 ^ k - 1)))) _ _ h₁ in
    let small : 2 ^ k ≤ 2 ^ 64 = pow-le k (omega (arith, word)) in
    let fits : value + (2 ^ k - 1) ≤ size_max = ground (arith, room, small) in
    let same : bit_and (value + (2 ^ k - 1)) (size_max - (2 ^ k - 1)) ≡ n = ground (arith, last) in
    (sym same ∙ mask_plain k value word fits, fits)

align_up_fits :
    (k value : ℕ)
    → k < 64
    → value + (2 ^ k - 1) ≤ size_max
    → align_up value (2 ^ k) ≡ ok (round_up value (2 ^ k))
unfolding align_up require
align_up_fits k value word fits =
    let room : leb value (size_max - (2 ^ k - 1)) ≡ true = ground (arith, fits) in
    rw (power_test k, room) (ap ok (mask_plain k value word fits))

-- The alignments of the buffers: 4, 16 and 256.
abbrev pub IsAlignment : ℕ → Type 0
IsAlignment alignment = (k : ℕ) × (alignment ≡ 2 ^ k) × ((k ≡ 2) ⊎ ((k ≡ 4) ⊎ (k ≡ 8)))

-- A buffer behind `used` bytes ends no later than the sum that `add` makes.
ends_within :
    (k used total n value : ℕ)
    → (k ≡ 2) ⊎ ((k ≡ 4) ⊎ (k ≡ 8))
    → used ≤ total
    → n ≤ value
    → round_up used (2 ^ k) + round_up n (2 ^ k) ≤ round_up total 256 + round_up value 256
ends_within k used total n value (inl two) h g = rw two (omega (arith, h, g))
ends_within k used total n value (inr (inl four)) h g = rw four (omega (arith, h, g))
ends_within k used total n value (inr (inr eight)) h g = rw eight (omega (arith, h, g))

-- What a buffer leaves behind: a valid workspace of the same capacity, and no more used than `bound`.
pub record Taken (arena : WorkspaceArena) (bound : ℕ) (arena' : WorkspaceArena) : Type 0 where
  pub valid : IsValid arena'.layout
  pub capacity : arena'.layout.capacity ≡ arena.layout.capacity
  pub used : arena'.layout.used ≤ bound

module _ (k total value : ℕ) (numeral : (k ≡ 2) ⊎ ((k ≡ 4) ⊎ (k ≡ 8))) where
  small_power : 2 ^ k ≤ 256
  small_power = elim numeral [
    | inl two ↦ rw two (omega arith)
    | inr more ↦ elim more [ inl four ↦ rw four (omega arith) | inr eight ↦ rw eight (omega arith) ]
  ]

  pub allocate_aligned_fits :
      (arena : WorkspaceArena) (n : ℕ)
      → IsValid arena.layout
      → 0 < n
      → n ≤ value
      → value + 255 ≤ size_max
      → arena.layout.used ≤ total
      → round_up total 256 + round_up value 256 ≤ arena.layout.capacity
      → (address : ℕ) × (arena' : WorkspaceArena) × (allocate_aligned arena n (2 ^ k)
          ≡ ok (address, arena'))
        × Taken arena (round_up total 256 + round_up value 256) arena'
  unfolding allocate_aligned Arena.allocate
  allocate_aligned_fits arena zero valid some_bytes below short behind room =
      absurd (omega (arith, some_bytes))
  allocate_aligned_fits arena (suc n) valid some_bytes below short behind room =
      let word : k < 64 = ground (arith, numeral) in
      let power = small_power in
      let w = arena.layout in
      let size = round_up (suc n) (2 ^ k) in
      let offset = round_up w.used (2 ^ k) in
      let rounded : align_up (suc n) (2 ^ k) ≡ ok size =
        align_up_fits k (suc n) word (omega (arith, power, below, short)) in
      let ends : offset + size ≤ round_up total 256 + round_up value 256 =
        ends_within k w.used total (suc n) value numeral behind below in
      let large : suc n ≤ size = le-round_up (suc n) (2 ^ k) (one-le-pow k 2 (omega arith)) in
      let inside : offset + size ≤ w.capacity = omega (arith, ends, room) in
      let fits : size ≤ size_max = omega (arith, inside, valid.fits) in
      let taken : Workspace.allocate w size (2 ^ k) ≡ ok (offset, placed w offset size) =
        allocate_fits w size k valid fits word inside in
      let some_size : (size == 0) ≡ false = ground (arith, large) in
      (
        arena.base + offset,
        record arena { layout = placed w offset size },
        rw (rounded, taken) refl,
        record {
          valid = placed-IsValid w size k valid fits word inside;
          capacity = rw some_size refl;
          used = rw some_size ends;
        },
      )
