-- ===== src/Base/Errors.antt =====
-- C++ exceptions as values. A `std::string` is the list of its bytes; a literal is `bytes "..."`.
use Prim.Native.Nat.{ℕ}
use Prim.Native.Char.{code}
use Prim.Native.String.{String}
use mathlib.Core.Path.{◌≡◌, refl}
use mathlib.Core.Logic.{◌⊎◌, inl, inr}
use mathlib.Core.Bool.{Bool, true, false}
use mathlib.Core.List.{List, [], ◌∷◌}

abbrev pub Text : Type 0
Text = List ℕ

-- Shut, so that a message is one unknown to the tactics.
unfoldable pub bytes : String → Text
bytes String.[] = []
bytes (String.◌∷◌ c s) = code c ∷ bytes s

-- The exception types that the code throws or tells apart, each with its message.
pub data Error : Type 0 where
  invalid_argument length_error out_of_range logic_error runtime_error : Text → Error
  parse_error config_error manifest_error : Text → Error
  model_io_error cuda_weight_error primitive_error delta_error matmul_error : Text → Error
  executor_error session_unavailable session_cuda : Text → Error
  dispatch_error : List (Text × Text) → Error
  bad_alloc bad_variant_access : Error

pub data Result {ℓ} (A : Type ℓ) : Type ℓ where
  ok : A → Result A
  err : Error → Result A

-- The rest of a block runs only behind a part that has returned. (`abbrev`: it computes everywhere.)
module _ {ℓ κ} {A : Type ℓ} {B : Type κ} where
  infixl 6 ◌>>=◌
  abbrev pub ◌>>=◌ : Result A → (A → Result B) → Result B
  err thrown >>= rest = err thrown
  ok value >>= rest = rest value

  -- A bind that returns: both parts returned.
  pub >>=-eq-ok :
      (m : Result A) (rest : A → Result B) {b : B}
      → (m >>= rest) ≡ ok b
      → (value : A) × (m ≡ ok value) × (rest value ≡ ok b)
  >>=-eq-ok (err thrown) rest h = cc
  >>=-eq-ok (ok value) rest h = (value, refl, h)

module _ {ℓ} {B : Type ℓ} where
  infixl 6 ◌>>◌
  abbrev pub ◌>>◌ : Result (Unit {0}) → Result B → Result B
  first >> rest = first >>= λ done. rest

-- `if (failed) throw e;`
abbrev pub throw_if : Bool → Error → Result (Unit {0})
throw_if true e = err e
throw_if false e = ok tt

pub throw_if-eq-ok : (b : Bool) (e : Error) {u : Unit {0}} → throw_if b e ≡ ok u → b ≡ false
throw_if-eq-ok true e h = cc
throw_if-eq-ok false e h = refl

-- A guarded block that returns: the guard was false, and the rest returned.
pub throw_if->>-eq-ok {ℓ} :
    {B : Type ℓ} (b : Bool) (e : Error) (k : Result B) {r : B}
    → (throw_if b e >> k) ≡ ok r
    → (b ≡ false) × (k ≡ ok r)
throw_if->>-eq-ok true e k h = cc
throw_if->>-eq-ok false e k h = (refl, h)

-- A call throws or returns.
pub Result-cases {ℓ} :
    {A : Type ℓ} (r : Result A)
    → ((thrown : Error) × (r ≡ err thrown)) ⊎ ((value : A) × (r ≡ ok value))
Result-cases (err thrown) = inl (thrown, refl)
Result-cases (ok value) = inr (value, refl)

pub ok-injective {ℓ} : {A : Type ℓ} {a b : A} → ok a ≡ ok b → a ≡ b
ok-injective h = cc
