-- ===== src/Base/Words.antt =====
-- The ranges of the unsigned types, and the overflow tests that the checked operations share.
use Prim.Native.Nat.{ℕ, ◌-◌, ◌*◌, ◌/◌, ◌^◌, ◌≤◌, ◌<◌}
use native.Mathlib.Nat.{div-lt_iff_lt-mul, le-div_iff_mul-le}
use native.Mathlib.Omega.{arith}

-- std::numeric_limits<std::size_t>::max(), and of std::uint64_t
abbrev pub size_max : ℕ
size_max = 2 ^ 64 - 1

-- std::numeric_limits<std::uint32_t>::max()
abbrev pub u32_max : ℕ
u32_max = 2 ^ 32 - 1

-- `right > max / left` tests that the product passes `max`.
pub div-lt→lt-mul : (limit a b : ℕ) → 0 < a → limit / a < b → limit < a * b
div-lt→lt-mul limit a b h d = omega (arith, (div-lt_iff_lt-mul {x = limit} {y = b} h).0 d)

pub le-div→mul-le : (limit a b : ℕ) → 0 < a → b ≤ limit / a → a * b ≤ limit
le-div→mul-le limit a b h d = omega (arith, (le-div_iff_mul-le {x = b} {y = limit} h).0 d)
