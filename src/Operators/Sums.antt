-- ===== src/Operators/Sums.antt =====
-- cpp/operators/tensor_validation.cpp: the loops over the dimensions.
use raftinfer.Base.{
  ℕ, zero, suc, ◌+◌, ◌-◌, ◌*◌, ◌≤◌, ◌<◌, false, ◌==◌, ok, ◌>>=◌, size_max, ◌≡◌, ◌↔◌, refl, ap,
  arith, >>=-eq-ok, throw_if->>-eq-ok,
}
use raftinfer.Base.Sizes.{checked_add, checked_mul, checked_add-eq-ok, checked_mul-eq-ok}
use raftinfer.Base.Int.{ℤ, above_zero}
use raftinfer.Operators.{require_positive, range_overflow, required_bytes}

-- Where the element at the indices `at` begins, over `count` dimensions from `index` on.
abbrev pub offset_from : (ℕ → ℤ) → (ℕ → ℕ) → ℕ → ℕ → ℕ
offset_from strides at zero index = 0
offset_from strides at (suc count) index =
    at index * above_zero (strides index) + offset_from strides at count (suc index)

-- The indices of an element.
abbrev pub InShape : (ℕ → ℤ) → (ℕ → ℕ) → ℕ → ℕ → Type 0
InShape shape at zero index = Unit
InShape shape at (suc count) index =
    (at index < above_zero (shape index)) × InShape shape at count (suc index)

abbrev pub Positive : (ℕ → ℤ) → ℕ → ℕ → Type 0
Positive numbers zero index = Unit
Positive numbers (suc count) index =
    (0 < above_zero (numbers index)) × Positive numbers count (suc index)

abbrev pub last_index : (ℕ → ℤ) → ℕ → ℕ
last_index shape index = above_zero (shape index) - 1

pub last_index-InShape :
    (shape : ℕ → ℤ) (count index : ℕ)
    → Positive shape count index
    → InShape shape (last_index shape) count index
last_index-InShape shape zero index h = tt
last_index-InShape shape (suc count) index h =
    (omega (arith, h.0), last_index-InShape shape count (suc index) h.1)

pub offset_from-last :
    (shape strides : ℕ → ℤ) (at : ℕ → ℕ) (count index : ℕ)
    → InShape shape at count index
    → offset_from strides at count index ≤ offset_from strides (last_index shape) count index
offset_from-last shape strides at zero index h = omega arith
offset_from-last shape strides at (suc count) index h =
    let here : at index ≤ last_index shape index = omega (arith, h.0) in
    let stride = above_zero (strides index) in
    let wider : at index * stride ≤ last_index shape index * stride = grind arith in
    omega (arith, wider, offset_from-last shape strides at count (suc index) h.1)

pub require_positive-Positive :
    (shape : ℕ → ℤ) (count index : ℕ)
    → (require_positive shape count index ≡ ok tt) ↔ Positive shape count index
unfolding require_positive
require_positive-Positive shape zero index = (λ h. tt, λ h. refl)
require_positive-Positive shape (suc count) index =
    let (forth, back) = require_positive-Positive shape count (suc index) in
    (
      λ h.
          let (nonzero, rest) = throw_if->>-eq-ok (above_zero (shape index) == 0) _ _ h in
          (ground (arith, nonzero), forth rest),
      λ h.
          let nonzero : (above_zero (shape index) == 0) ≡ false = ground (arith, h.0) in
          rw nonzero (back h.1),
    )

pub required_bytes-eq-ok :
    (shape strides : ℕ → ℤ) (count index required n : ℕ)
    → required ≤ size_max
    → (required_bytes shape strides count index required ≡ ok n) ↔ (
        Positive strides count index
        × (n ≡ required + offset_from strides (last_index shape) count index)
        × (required + offset_from strides (last_index shape) count index ≤ size_max))
unfolding required_bytes
required_bytes-eq-ok shape strides zero index required n bound =
    (λ h. (tt, ground (arith, h), omega (arith, bound)), λ h. ap ok (omega (arith, h.1)))
required_bytes-eq-ok shape strides (suc count) index required n bound =
    let stride = above_zero (strides index) in
    let extent = last_index shape index in
    let dim = extent * stride in
    let rest_of = λ (r : ℕ). required_bytes shape strides count (suc index) r in
    let add_of = λ (d : ℕ). checked_add required d range_overflow >>= rest_of in
    (
      λ h.
          let (nonzero, more) = throw_if->>-eq-ok (stride == 0) _ _ h in
          let (d, multiplied, added) =
            >>=-eq-ok (checked_mul extent stride range_overflow) add_of more in
          let (same, fits) = (checked_mul-eq-ok extent stride range_overflow d).0 multiplied in
          let (r, sum, last) = >>=-eq-ok (checked_add required d range_overflow) rest_of added in
          let (r_same, r_fits) = (checked_add-eq-ok required d range_overflow r bound).0 sum in
          let (positive, total, within) =
            (required_bytes-eq-ok shape strides count (suc index) r n
                (omega (arith, r_same, r_fits))).0
              last in
          (
            (ground (arith, nonzero), positive),
            omega (arith, total, r_same, same),
            omega (arith, within, r_same, same),
          ),
      λ h.
          let positive = h.0 in
          let nonzero : (stride == 0) ≡ false = ground (arith, positive.0) in
          let within = h.2 in
          let multiplied : checked_mul extent stride range_overflow ≡ ok dim =
            (checked_mul-eq-ok extent stride range_overflow dim).1 (refl, omega (arith, within)) in
          let sum : checked_add required dim range_overflow ≡ ok (required + dim) =
            (checked_add-eq-ok required dim range_overflow (required + dim) bound).1
              (refl, omega (arith, within)) in
          let last : rest_of (required + dim) ≡ ok n =
            (required_bytes-eq-ok shape strides count (suc index) (required + dim) n
                (omega (arith, within))).1
              (positive.1, omega (arith, h.1), omega (arith, within)) in
          rw (nonzero, multiplied, sum) last,
    )
