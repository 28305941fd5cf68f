-- ===== src/State/Checked.antt =====
-- The checked size arithmetic of cpp/execution/qwen35_state.cpp.
use native.Mathlib.Nat.{mod-eq_of_lt}
use raftinfer.Base.{
  ℕ, zero, suc, ◌+◌, ◌-◌, ◌*◌, ◌/◌, ◌%◌, ◌^◌, ◌≤◌, ◌≡◌, not, ◌&&◌, arith, size_max, u32_max,
  div-lt→lt-mul, le-div→mul-le, Error, Result, ok, err, bytes, length_error, invalid_argument,
  throw_if, ◌>>◌, ltb, leb, ◌==◌, if◌then◌else◌, Text, dec_lt,
}

abbrev pub size_overflow : Error
size_overflow = length_error (bytes "Qwen3.5 state layout size overflow")

unfoldable pub checked_mul : ℕ → ℕ → Result ℕ
checked_mul lhs rhs = do
  throw_if (not (lhs == 0) && ltb (size_max / lhs) rhs) size_overflow
  ok (lhs * rhs % 2 ^ 64)

unfoldable pub checked_add : ℕ → ℕ → Result ℕ
checked_add lhs rhs = do
  throw_if (ltb (size_max - lhs) rhs) size_overflow
  ok ((lhs + rhs) % 2 ^ 64)

unfoldable pub checked_u32 : ℕ → Result ℕ
checked_u32 value = do throw_if (ltb u32_max value) size_overflow; ok (value % 2 ^ 32)

unfoldable pub require_nonzero : ℕ → Text → Result (Unit {0})
require_nonzero value name = throw_if (value == 0) (invalid_argument name)

unfoldable pub checked_bytes : ℕ → Result ℕ
checked_bytes floats = checked_mul floats 4

-- `exact limit n` is the true value of an operation where it fits, and the exception where it does not.
abbrev pub exact : ℕ → ℕ → Result ℕ
exact limit n = if leb n limit then ok n else err size_overflow

-- `checked_mul` returns the true product where that fits `std::size_t`, and otherwise throws the
-- overflow error.
pub checked_mul-exact : (a b : ℕ) → checked_mul a b ≡ exact size_max (a * b)
unfolding checked_mul
checked_mul-exact zero b = ground arith
checked_mul-exact (suc a) b = elim (dec_lt (size_max / suc a) b) [
  | yes over ↦ ground (arith, div-lt→lt-mul size_max (suc a) b)
  | no fits ↦
      ground (arith, le-div→mul-le size_max (suc a) b, mod-eq_of_lt {n = suc a * b} {m = 2 ^ 64})
]

-- `checked_add` of a size returns the true sum where that fits `std::size_t`, and otherwise throws the
-- overflow error.
pub checked_add-exact : (a b : ℕ) → a ≤ size_max → checked_add a b ≡ exact size_max (a + b)
unfolding checked_add
checked_add-exact a b h = ground arith

pub checked_u32-exact : (n : ℕ) → checked_u32 n ≡ exact u32_max n
unfolding checked_u32
checked_u32-exact n = ground arith
