-- ===== src/Base/Int.antt =====
-- Signed integers over the native numbers; `negsuc n` is -(n + 1).
use Prim.Native.Nat.{ℕ, suc, ◌+◌}
use mathlib.Core.Path.{◌≡◌, ap}
use mathlib.Core.Bool.{Bool, true}
use native.Mathlib.Omega.{arith}
use raftinfer.Base.Tests.{ltb, ◌==◌}

pub data ℤ : Type 0 where
  pos : ℕ → ℤ
  negsuc : ℕ → ℤ

abbrev pub above_zero : ℤ → ℕ
above_zero (pos n) = n
above_zero (negsuc n) = 0

abbrev pub below_zero : ℤ → ℕ
below_zero (pos n) = 0
below_zero (negsuc n) = suc n

abbrev pub ltb_ℤ : ℤ → ℤ → Bool
ltb_ℤ a b = ltb (above_zero a + below_zero b) (above_zero b + below_zero a)

abbrev pub eqb_ℤ : ℤ → ℤ → Bool
eqb_ℤ a b = above_zero a + below_zero b == above_zero b + below_zero a

pub eqb_ℤ-eq : (a b : ℤ) → eqb_ℤ a b ≡ true → a ≡ b
eqb_ℤ-eq (pos n) (pos m) h = ap pos (ground arith)
eqb_ℤ-eq (pos n) (negsuc m) h = absurd (ground arith)
eqb_ℤ-eq (negsuc n) (pos m) h = absurd (ground arith)
eqb_ℤ-eq (negsuc n) (negsuc m) h = ap negsuc (ground arith)

pub eqb_ℤ_self : (a : ℤ) → eqb_ℤ a a ≡ true
eqb_ℤ_self a = ground arith
