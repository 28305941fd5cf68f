-- ===== src/Base/Sizes.antt =====
-- The checked sum and product of std::size_t, with the exception as an argument: checked_add and
-- checked_mul of cpp/operators/tensor_validation.cpp, cpp/execution/qwen35_executor.cu and cpp/kernels,
-- which differ in the type of the exception only.
use Prim.Native.Nat.{ℕ, zero, suc, ◌+◌, ◌-◌, ◌*◌, ◌/◌, ◌≤◌}
use mathlib.Core.Path.{◌≡◌}
use mathlib.Core.Logic.{◌↔◌}
use mathlib.Core.Bool.{◌&&◌, not}
use native.Mathlib.Omega.{arith}
use raftinfer.Base.Tests.{ltb, ◌==◌, if◌then◌else◌}
use raftinfer.Base.Errors.{Error, Result, ok, err}
use raftinfer.Base.Words.{size_max, le-div→mul-le, div-lt→lt-mul}

unfoldable pub checked_add : ℕ → ℕ → Error → Result ℕ
checked_add lhs rhs thrown = if ltb (size_max - lhs) rhs then err thrown else ok (lhs + rhs)

unfoldable pub checked_mul : ℕ → ℕ → Error → Result ℕ
checked_mul lhs rhs thrown =
    if not (lhs == 0) && ltb (size_max / lhs) rhs then err thrown else ok (lhs * rhs)

pub checked_add-eq-ok :
    (a b : ℕ) (e : Error) (n : ℕ)
    → a ≤ size_max
    → (checked_add a b e ≡ ok n) ↔ ((n ≡ a + b) × (a + b ≤ size_max))
unfolding checked_add
checked_add-eq-ok a b e n h = ground arith

pub checked_mul-eq-ok :
    (a b : ℕ) (e : Error) (n : ℕ) → (checked_mul a b e ≡ ok n) ↔ ((n ≡ a * b) × (a * b ≤ size_max))
unfolding checked_mul
checked_mul-eq-ok zero b e n = ground arith
checked_mul-eq-ok (suc a) b e n =
    ground (arith, le-div→mul-le size_max (suc a) b, div-lt→lt-mul size_max (suc a) b)
