-- ===== src/Workspace/Place.antt =====
-- cpp/execution/workspace_layout.hpp: the offset that `allocate` computes by masks, as arithmetic.
use native.Mathlib.Nat.{
  add-zero, add-suc, pow-suc, one-le-pow, pow-le-pow_right, mod-eq_of_lt, lt-div-mul-add,
  div-mul-le_self, le-div_iff_mul-le,
}
use raftinfer.Base.{
  ℕ, zero, suc, ◌+◌, ◌-◌, ◌*◌, ◌/◌, ◌%◌, ◌^◌, ◌≤◌, ◌<◌, ◌≡◌, ◌∙◌, bit_and, arith, size_max, ap,
}
use raftinfer.Base.Bits.{bit_and_round_down}

-- The least multiple of `alignment` that is not below `used`.
abbrev pub round_up : ℕ → ℕ → ℕ
round_up used alignment = (used + (alignment - 1)) / alignment * alignment

pub pow-add : (a b : ℕ) → 2 ^ (a + b) ≡ 2 ^ a * 2 ^ b
pow-add a zero = rw add-zero (omega arith)
pow-add a (suc b) = rw add-suc (
    omega (
      arith,
      pow-suc 2 (a + b),
      pow-suc 2 b,
      ap (λ (t : ℕ). t * 2) (pow-add a b),
      ap (λ (t : ℕ). 2 ^ a * t) (pow-suc 2 b),
    ))

-- A power of two up to 2^64 divides the word's range.
pub word_multiple : (k : ℕ) → k ≤ 64 → 2 ^ 64 ≡ 2 ^ (64 - k) * 2 ^ k
word_multiple k h = ap (λ (t : ℕ). 2 ^ t) e ∙ pow-add (64 - k) k
  where
    e : 64 ≡ (64 - k) + k
    e = omega arith

pub pow-le : (k : ℕ) → k ≤ 64 → 2 ^ k ≤ 2 ^ 64
pow-le k h = pow-le-pow_right {n = 2} (omega arith) {i = k} {j = 64} h

pub mask-round_up :
    (k used : ℕ)
    → k ≤ 64
    → used + (2 ^ k - 1) ≤ size_max
    → bit_and ((used + (2 ^ k - 1)) % 2 ^ 64) (size_max - (2 ^ k - 1)) ≡ round_up used (2 ^ k)
mask-round_up k used h fits =
    rw (mod-eq_of_lt in_word, complement) (bit_and_round_down k 64 (used + (2 ^ k - 1)) h in_word)
  where
    in_word : used + (2 ^ k - 1) < 2 ^ 64
    in_word = omega arith

    complement : size_max - (2 ^ k - 1) ≡ 2 ^ 64 - 2 ^ k
    complement = omega (arith, one-le-pow k 2 (omega arith))

pub le-round_up : (used alignment : ℕ) → 0 < alignment → used ≤ round_up used alignment
le-round_up used alignment h = omega (arith, lt-div-mul-add {a = used + (alignment - 1)} h)

pub round_up-lt : (used alignment : ℕ) → 0 < alignment → round_up used alignment < used + alignment
round_up-lt used alignment h = omega (arith, div-mul-le_self (used + (alignment - 1)) alignment)

-- Past the last multiple of the alignment below 2^64, rounding up leaves the word.
pub round_up_beyond :
    (k used : ℕ) → k ≤ 64 → size_max < used + (2 ^ k - 1) → size_max < round_up used (2 ^ k)
round_up_beyond k used h beyond = omega (arith, word_multiple k h, mul-le_mono, quotient)
  where
    pos : 0 < 2 ^ k
    pos = one-le-pow k 2 (omega arith)

    quotient : 2 ^ (64 - k) ≤ (used + (2 ^ k - 1)) / 2 ^ k
    quotient = (le-div_iff_mul-le pos).1 (omega (arith, word_multiple k h))

    mul-le_mono : 2 ^ (64 - k) * 2 ^ k ≤ (used + (2 ^ k - 1)) / 2 ^ k * 2 ^ k
    mul-le_mono = grind (arith, quotient)
