-- ===== src/Base/Bits.antt =====
-- `&` on words as arithmetic: the mask `~(2^k - 1)` rounds down to a multiple of 2^k, and the
-- test `(a & (a - 1)) == 0` singles out the powers of two.
use Prim.Native.Nat.{
  ℕ, zero, suc, ◌+◌, ◌-◌, ◌*◌, ◌/◌, ◌%◌, ◌^◌, ◌≤◌, ◌<◌, min, digits, bit_and, bit_and-bitwise,
}
use mathlib.Core.Path.{◌≡◌, refl, sym, ap₂, subst}
use mathlib.Core.WellFounded.{Acc, WellFounded, induction}
use native.Mathlib.Nat.{le_refl, pow-suc, pow-succ', one-le-pow, div-div-eq-div-mul}
use native.Mathlib.Decide.{dec_lt}
use native.Mathlib.Omega.{arith}

Acc-lt : (bound n : ℕ) → n < bound → Acc ◌<◌ n
Acc-lt zero n h = absurd (omega arith)
Acc-lt (suc bound) n h = Acc.intro n (λ m m<n. Acc-lt bound m (omega arith))

unfoldable pub lt_wf : WellFounded ◌<◌
unfolding Acc-lt
lt_wf = record { apply = λ n. Acc-lt (suc n) n (omega arith) }

-- The digits of the left operand bound the recursion behind `bit_and`; more fuel changes nothing.
fuel_irrelevant :
    (m n a b : ℕ) → a ≤ m → a ≤ n → digits (λ y. 0) min m a b ≡ digits (λ y. 0) min n a b
fuel_irrelevant zero zero a b p q = refl
fuel_irrelevant zero (suc n) zero b p q = refl
fuel_irrelevant zero (suc n) (suc a) b p q = absurd (omega arith)
fuel_irrelevant (suc m) zero zero b p q = refl
fuel_irrelevant (suc m) zero (suc a) b p q = absurd (omega arith)
fuel_irrelevant (suc m) (suc n) zero b p q = refl
fuel_irrelevant (suc m) (suc n) (suc a) b p q =
    rw (fuel_irrelevant m n (suc a / 2) (b / 2) (omega arith) (omega arith))

pub bit_and_low : (a b : ℕ) → bit_and a b ≡ bit_and (a / 2) (b / 2) * 2 + min (a % 2) (b % 2)
bit_and_low zero b = simp bit_and-bitwise (omega arith)
bit_and_low (suc a) b =
    simp bit_and-bitwise
      (omega (arith, fuel_irrelevant a (suc a / 2) (suc a / 2) (b / 2) (omega arith) (le_refl _)))

pub bit_and_self : (a : ℕ) → bit_and a a ≡ a
bit_and_self a = induction lt_wf {C = λ k. bit_and k k ≡ k} a half
  where
    half : (n : ℕ) → ((m : ℕ) → m < n → bit_and m m ≡ m) → bit_and n n ≡ n
    half zero ih = refl
    half (suc n) ih = omega (arith, bit_and_low (suc n) (suc n), ih (suc n / 2) (omega arith))

-- A mask of width `n + 1` with its `k + 1` low bits clear, halved.
half_mask : (k n : ℕ) → k ≤ n → (2 ^ suc n - 2 ^ suc k) / 2 ≡ 2 ^ n - 2 ^ k
half_mask k n h = omega (arith, pow-suc 2 n, pow-suc 2 k)

half_ones : (n : ℕ) → (2 ^ suc n - 1) / 2 ≡ 2 ^ n - 1
half_ones n = omega (arith, pow-suc 2 n, one-le-pow n 2 (omega arith))

-- All ones of width `n` keep what fits.
bit_and_ones : (n x : ℕ) → x < 2 ^ n → bit_and x (2 ^ n - 1) ≡ x
bit_and_ones zero zero h = refl
bit_and_ones zero (suc x) h = absurd (omega arith)
bit_and_ones (suc n) x h =
    rw
      (
        bit_and_low x (2 ^ suc n - 1),
        half_ones n,
        bit_and_ones n (x / 2) (omega (arith, pow-suc 2 n)),
      )
      (omega (arith, pow-suc 2 n, one-le-pow n 2 (omega arith)))

round_half : (k x : ℕ) → x / 2 ^ suc k * 2 ^ suc k ≡ x / 2 / 2 ^ k * 2 ^ k * 2
round_half k x = rw (pow-succ' 2 k, ← div-div-eq-div-mul x 2 (2 ^ k)) (omega arith)

-- A word of width `n` masked by `~(2^k - 1)` is rounded down to a multiple of 2^k.
pub bit_and_round_down :
    (k n x : ℕ) → k ≤ n → x < 2 ^ n → bit_and x (2 ^ n - 2 ^ k) ≡ x / 2 ^ k * 2 ^ k
bit_and_round_down zero n x h fits = rw (bit_and_ones n x fits) (omega arith)
bit_and_round_down (suc k) zero x h fits = absurd (omega arith)
bit_and_round_down (suc k) (suc n) x h fits =
    rw
      (
        bit_and_low x (2 ^ suc n - 2 ^ suc k),
        half_mask k n (omega arith),
        bit_and_round_down k n (x / 2) (omega arith) (omega (arith, pow-suc 2 n)),
      )
      (omega (arith, pow-suc 2 n, pow-suc 2 k, round_half k x))

-- `a & (a - 1)` clears the lowest one: what is left is zero only at a power of two.
abbrev PowerTest : ℕ → Type 0
PowerTest n = 0 < n → bit_and n (n - 1) ≡ 0 → (k : ℕ) × (n ≡ 2 ^ k)

PowerTest-double : (m : ℕ) → PowerTest m → PowerTest (2 * m)
PowerTest-double m ih pos clear = (suc smaller.0, omega (arith, smaller.1, pow-suc 2 smaller.0))
  where
    halves : bit_and (2 * m / 2) ((2 * m - 1) / 2) ≡ bit_and m (m - 1)
    halves = ap₂ bit_and (omega arith) (omega arith)

    smaller : (k : ℕ) × (m ≡ 2 ^ k)
    smaller = ih (omega arith) (omega (arith, halves, bit_and_low (2 * m) (2 * m - 1)))

PowerTest-odd : (m : ℕ) → PowerTest (2 * m + 1)
PowerTest-odd zero pos clear = (0, refl)
PowerTest-odd (suc m) pos clear = absurd (omega (arith, low, halves, bit_and_self (suc m)))
  where
    low :
        bit_and (2 * suc m + 1) (2 * suc m + 1 - 1)
        ≡ bit_and ((2 * suc m + 1) / 2) ((2 * suc m + 1 - 1) / 2) * 2
          + min ((2 * suc m + 1) % 2) ((2 * suc m + 1 - 1) % 2)
    low = bit_and_low (2 * suc m + 1) (2 * suc m + 1 - 1)

    halves : bit_and ((2 * suc m + 1) / 2) ((2 * suc m + 1 - 1) / 2) ≡ bit_and (suc m) (suc m)
    halves = ap₂ bit_and (omega arith) (omega arith)

pub bit_and_pred-eq-zero : (a : ℕ) → 0 < a → bit_and a (a - 1) ≡ 0 → (k : ℕ) × (a ≡ 2 ^ k)
bit_and_pred-eq-zero a = induction lt_wf {C = PowerTest} a λ n ih pos clear.
    elim (dec_lt (n % 2) 1) [
      | yes even ↦
          let e : n ≡ 2 * (n / 2) = omega arith in
          subst PowerTest (sym e) (PowerTest-double (n / 2) (ih (n / 2) (omega arith))) pos clear
      | no odd ↦
          let e : n ≡ 2 * (n / 2) + 1 = omega arith in
          subst PowerTest (sym e) (PowerTest-odd (n / 2)) pos clear
    ]

-- And a power of two passes the test.
pub bit_and_pred-pow : (k : ℕ) → bit_and (2 ^ k) (2 ^ k - 1) ≡ 0
bit_and_pred-pow zero = refl
bit_and_pred-pow (suc k) =
    rw (bit_and_low (2 ^ suc k) (2 ^ suc k - 1), half_ones k, half_pow)
      (omega (arith, bit_and_pred-pow k, pow-suc 2 k))
  where
    half_pow : 2 ^ suc k / 2 ≡ 2 ^ k
    half_pow = omega (arith, pow-suc 2 k)
