-- ===== src/Workspace/Bounds.antt =====
-- cpp/execution/workspace_layout.hpp: one call of `allocate`.
use native.Mathlib.Nat.{one-le-pow, pow-le-pow_right, mul-mod_left}
use raftinfer.Base.{
  Text, leb, Bool-cases, dec_lt, inl, inr, ◌%◌, ℕ, ◌+◌, ◌-◌, ◌^◌, ◌≤◌, ◌<◌, ◌≡◌, refl, sym, subst,
  arith, size_max, ok, err, bytes, length_error, ◌==◌, if◌then◌else◌, ltb,
}
use raftinfer.Base.Bits.{bit_and_pred-eq-zero, bit_and_pred-pow}
use raftinfer.Workspace.{WorkspaceLayout, IsValid, allocate}
use raftinfer.Workspace.Place.{
  round_up, mask-round_up, pow-le, round_up_beyond, round_up-lt, le-round_up,
}

-- The layout after a buffer of `n` bytes has been placed at `offset`.
abbrev pub placed : WorkspaceLayout → ℕ → ℕ → WorkspaceLayout
placed w offset n = if n == 0 then w else record w { used = offset + n }

-- Which bound the call reports.
abbrev pub refusal : WorkspaceLayout → ℕ → ℕ → Text
refusal w n alignment =
    if ltb (size_max - (alignment - 1)) w.used
    then bytes "workspace offset overflow"
    else if ltb (size_max - n) (round_up w.used alignment)
    then bytes "workspace allocation overflow"
    else bytes "workspace capacity exceeded"

module _ (w : WorkspaceLayout) (n k : ℕ) (valid : IsValid w) (small : n ≤ size_max)
    (word : k < 64) where
  pub allocate_fits :
      round_up w.used (2 ^ k) + n ≤ w.capacity
      → allocate w n (2 ^ k) ≡ ok (round_up w.used (2 ^ k), placed w (round_up w.used (2 ^ k)) n)
  unfolding allocate
  allocate_fits room = ground (
    arith,
    valid.fits,
    one-le-pow k 2 (omega arith),
    bit_and_pred-pow k,
    mask-round_up k w.used (omega arith),
    round_up_beyond k w.used (omega arith),
  )

  pub allocate_full :
      w.capacity < round_up w.used (2 ^ k) + n
      → allocate w n (2 ^ k) ≡ err (length_error (refusal w n (2 ^ k)))
  unfolding allocate
  allocate_full over = ground (
    arith,
    valid.fits,
    one-le-pow k 2 (omega arith),
    bit_and_pred-pow k,
    pow-le k (omega arith),
    mask-round_up k w.used (omega arith),
    round_up_beyond k w.used (omega arith),
  )

  -- In a valid layout, for a size in range and an alignment 2^k that fits the word, the call returns the
  -- next multiple of 2^k and marks the buffer as used exactly if it ends inside the capacity; if not, it
  -- throws a length error that names the first bound that is broken.
  allocate_pow : allocate w n (2 ^ k) ≡ (
      if leb (round_up w.used (2 ^ k) + n) w.capacity
      then ok (round_up w.used (2 ^ k), placed w (round_up w.used (2 ^ k)) n)
      else err (length_error (refusal w n (2 ^ k))))
  allocate_pow = elim (Bool-cases (leb (round_up w.used (2 ^ k) + n) w.capacity)) [
    | inl room ↦ rw room (allocate_fits (ground arith))
    | inr over ↦ rw over (allocate_full (ground arith))
  ]

  -- A layout with a buffer placed in it is valid again.
  pub placed-IsValid :
      round_up w.used (2 ^ k) + n ≤ w.capacity → IsValid (placed w (round_up w.used (2 ^ k)) n)
  placed-IsValid room = ground (arith, valid.within, valid.fits)

allocate-power :
    (w : WorkspaceLayout) (n alignment : ℕ) {r : ℕ × WorkspaceLayout}
    → allocate w n alignment ≡ ok r
    → (k : ℕ) × (alignment ≡ 2 ^ k)
unfolding allocate
allocate-power w n alignment h = bit_and_pred-eq-zero alignment (ground arith) (ground arith)

exponent-lt : (k alignment : ℕ) → alignment ≡ 2 ^ k → alignment ≤ size_max → k < 64
exponent-lt k alignment e small = elim (dec_lt k 64) [
  | yes below ↦ below
  | no above ↦
      absurd (omega (arith, pow-le-pow_right {n = 2} (omega arith) {i = 64} {j = k} (omega arith)))
]

-- What a call that returns `offset` and the layout `w'` has done.
pub record Placement (w : WorkspaceLayout) (n alignment offset : ℕ) (w' : WorkspaceLayout)
    : Type 0 where
  pub power : (k : ℕ) × (k < 64) × (alignment ≡ 2 ^ k)
  pub aligned : offset % alignment ≡ 0
  pub above : w.used ≤ offset
  pub close : offset < w.used + alignment
  pub room : offset + n ≤ w.capacity
  pub after : w' ≡ placed w offset n
  pub valid : IsValid w'

allocate_pow-Placement :
    (w : WorkspaceLayout) (n k offset : ℕ) (w' : WorkspaceLayout)
    → IsValid w
    → n ≤ size_max
    → k < 64
    → allocate w n (2 ^ k) ≡ ok (offset, w')
    → Placement w n (2 ^ k) offset w'
allocate_pow-Placement w n k offset w' valid small word h =
    elim (dec_lt w.capacity (round_up w.used (2 ^ k) + n)) [
      | yes over ↦ cc (allocate_full w n k valid small word over)
      | no room ↦
          let fits = allocate_fits w n k valid small word (omega arith) in
          let here : offset ≡ round_up w.used (2 ^ k) = cc fits in
          let pos = one-le-pow k 2 (omega arith) in
          record {
            power = (k, word, refl);
            aligned = rw here (mul-mod_left _ (2 ^ k));
            above = omega (arith, le-round_up w.used (2 ^ k) pos);
            close = omega (arith, round_up-lt w.used (2 ^ k) pos);
            room = omega arith;
            after = cc (fits, here);
            valid = subst IsValid (cc fits) (placed-IsValid w n k valid small word (omega arith));
          }
    ]

-- A call that returns has been given a power of two, and has placed the buffer at the first multiple
-- of it behind what was used, inside the capacity; it marks as used exactly what ends there.
pub allocate-Placement :
    (w : WorkspaceLayout) (n alignment offset : ℕ) (w' : WorkspaceLayout)
    → IsValid w
    → n ≤ size_max
    → alignment ≤ size_max
    → allocate w n alignment ≡ ok (offset, w')
    → Placement w n alignment offset w'
allocate-Placement w n alignment offset w' valid small word h =
    let (k, e) = allocate-power w n alignment h in
    subst (λ a. allocate w n a ≡ ok (offset, w') → Placement w n a offset w') (sym e)
      (allocate_pow-Placement w n k offset w' valid small (exponent-lt k alignment e word)) h
