-- ===== src/Executor/Covered.antt =====
-- cpp/execution/qwen35_executor.cu: each buffer is covered by the size that workspace_estimate adds up for it.
use raftinfer.Base.{
  ℕ, ◌*◌, ◌%◌, ◌^◌, ◌≤◌, ◌<◌, Result, ok, Error, ◌>>=◌, ok-injective, size_max, ◌≡◌, refl, sym,
  subst, arith,
}
use native.Mathlib.Nat.{mul-pos, mod-eq_of_lt, le_refl, mul_assoc}
use raftinfer.Base.Sizes.{checked_mul, checked_mul-eq-ok}
use raftinfer.Executor.Served.{Covers}

-- A product that returns is the product.
pub product_is : (a b : ℕ) (e : Error) {n : ℕ} → checked_mul a b e ≡ ok n → n ≡ a * b
product_is a b e {n} h = ((checked_mul-eq-ok a b e n).0 h).0

pub product_fits : (a b : ℕ) (e : Error) {n : ℕ} → checked_mul a b e ≡ ok n → a * b ≤ size_max
product_fits a b e {n} h = ((checked_mul-eq-ok a b e n).0 h).1

pub product_returns : (a b : ℕ) (e : Error) → a * b ≤ size_max → checked_mul a b e ≡ ok (a * b)
product_returns a b e h = (checked_mul-eq-ok a b e (a * b)).1 (refl, h)

-- A size that is the same on both sides, and not zero.
pub same-Covers : (r : Result ℕ) → ((v : ℕ) → r ≡ ok v → 0 < v) → Covers r r
same-Covers r positive v h = (v, h, positive v h, le_refl v)

pub product-Covers :
    (a b : ℕ) (e : Error) → 0 < a → 0 < b → Covers (checked_mul a b e) (checked_mul a b e)
product-Covers a b e some_a some_b =
    same-Covers (checked_mul a b e)
      λ v h. subst (λ n. 0 < n) (sym (product_is a b e h)) (mul-pos some_a some_b)

pub ok-Covers : (n : ℕ) → 0 < n → Covers (ok n) (ok n)
ok-Covers n h = same-Covers (ok n) λ v e. subst (λ k. 0 < k) (ok-injective e) h

-- Rows of floats: the one side multiplies by 4 first, without a check, the other last.
module _ (tokens width : ℕ) (e e₁ e₂ : Error) (some_tokens : 0 < tokens) (some_width : 0 < width)
    (small : width ≤ 2 ^ 40) where
  pub rows-Covers :
      Covers
        (checked_mul tokens (width * 4 % 2 ^ 64) e)
        (checked_mul tokens width e₁ >>= λ n. checked_mul n 4 e₂)
  rows-Covers v h =
      let unwrapped : width * 4 % 2 ^ 64 ≡ width * 4 = mod-eq_of_lt (omega (arith, small)) in
      let plain : checked_mul tokens (width * 4) e ≡ ok v =
        subst (λ n. checked_mul tokens n e ≡ ok v) unwrapped h in
      let is_v : v ≡ tokens * (width * 4) = product_is tokens (width * 4) e plain in
      let fits = product_fits tokens (width * 4) e plain in
      let bytes_of : tokens * (width * 4) ≡ tokens * width * 4 = sym (mul_assoc tokens width 4) in
      let some : 0 < tokens * width = mul-pos some_tokens some_width in
      let first : checked_mul tokens width e₁ ≡ ok (tokens * width) =
        product_returns tokens width e₁ (omega (arith, fits, bytes_of)) in
      let second : checked_mul (tokens * width) 4 e₂ ≡ ok (tokens * width * 4) =
        product_returns (tokens * width) 4 e₂ (omega (arith, fits, bytes_of)) in
      (tokens * width * 4, rw first second, omega (arith, some), omega (arith, is_v, bytes_of))
