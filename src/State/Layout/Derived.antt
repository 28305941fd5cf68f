-- ===== src/State/Layout/Derived.antt =====
-- Qwen35StateLayout::create (cpp/execution/qwen35_state.cpp) on a configuration that
-- derive_qwen35_config (cpp/model/qwen35_config.cpp) has made.
use raftinfer.Base.{
  ℕ, zero, suc, ◌+◌, ◌≤◌, ◌<◌, ◌≡◌, sym, subst, refl, List, [], ◌∷◌, length, Bool, true, false,
  arith, ap, u32_max, Text, Error, length_error, invalid_argument, bytes, Result, ok, err, ◌>>=◌,
  ◌>>◌, throw_if, ltb, if◌then◌else◌,
}
use raftinfer.Gguf.Types.{Catalog}
use raftinfer.Model.Config.{Qwen35BlockPlan, Qwen35Config}
use raftinfer.Model.Derive.{interval_blocks, interval_kind, derive_qwen35_config}
use raftinfer.Model.Derive.Checked.{IsWellFormed, IsDerived, derive_qwen35_config-IsDerived}
use raftinfer.State.Checked.{checked_mul, checked_add, checked_u32, checked_bytes, require_nonzero}
use raftinfer.State.Layout.{
  inc32, is_linear, no_blocks, qkv_channel_count, convolution_floats, recurrent_floats,
  full_kv_floats, layer_bytes, count_layers, require_dimensions, create,
}

-- A call that returns, or throws a length error.
abbrev pub returns_or_too_long {ℓ} : {A : Type ℓ} → Result A → Bool
returns_or_too_long (ok value) = true
returns_or_too_long (err (length_error text)) = true
returns_or_too_long (err _) = false

>>=-returns {ℓ κ} :
    {A : Type ℓ} {B : Type κ} (m : Result A) (rest : A → Result B)
    → returns_or_too_long m ≡ true
    → ((value : A) → returns_or_too_long (rest value) ≡ true)
    → returns_or_too_long (m >>= rest) ≡ true
>>=-returns (ok value) rest h later = later value
>>=-returns (err (length_error text)) rest h later = refl
>>=-returns (err _) rest h later = cc h

checked_mul-returns : (a b : ℕ) → returns_or_too_long (checked_mul a b) ≡ true
unfolding checked_mul
checked_mul-returns a b = ground arith

checked_add-returns : (a b : ℕ) → returns_or_too_long (checked_add a b) ≡ true
unfolding checked_add
checked_add-returns a b = ground arith

checked_u32-returns : (n : ℕ) → returns_or_too_long (checked_u32 n) ≡ true
unfolding checked_u32
checked_u32-returns n = ground arith

qkv_channel_count-returns : (k v d : ℕ) → returns_or_too_long (qkv_channel_count k v d) ≡ true
unfolding qkv_channel_count
qkv_channel_count-returns k v d = >>=-returns _ _ (checked_mul-returns 2 k) (λ two.
    >>=-returns _ _ (checked_mul-returns two d) (λ keys.
      >>=-returns _ _ (checked_mul-returns v d)
        (λ values. >>=-returns _ _ (checked_add-returns keys values) checked_u32-returns)))

recurrent_floats-returns : (v d : ℕ) → returns_or_too_long (recurrent_floats v d) ≡ true
unfolding recurrent_floats
recurrent_floats-returns v d =
    >>=-returns _ _ (checked_mul-returns d d) (λ square. checked_mul-returns v square)

convolution_floats-returns : (q w : ℕ) → returns_or_too_long (convolution_floats q w) ≡ true
unfolding convolution_floats
convolution_floats-returns q w = checked_mul-returns q _

full_kv_floats-returns : (c h d : ℕ) → returns_or_too_long (full_kv_floats c h d) ≡ true
unfolding full_kv_floats
full_kv_floats-returns c h d = >>=-returns _ _ (checked_mul-returns 2 c) (λ positions.
    >>=-returns _ _ (checked_mul-returns h d) (λ width. checked_mul-returns positions width))

layer_bytes-returns : (n f : ℕ) → returns_or_too_long (layer_bytes n f) ≡ true
unfolding layer_bytes checked_bytes
layer_bytes-returns n f =
    >>=-returns _ _ (checked_mul-returns n f) (λ all. checked_mul-returns all 4)

count_layers-interval_blocks :
    (interval index count linear full : ℕ)
    → index + count ≤ u32_max
    → returns_or_too_long (count_layers index (interval_blocks interval index count) linear full)
      ≡ true
unfolding count_layers interval_blocks
count_layers-interval_blocks interval index zero linear full h = refl
count_layers-interval_blocks interval index (suc count) linear full h =
    let next : inc32 index ≡ index + 1 = omega arith in
    let kind = interval_kind interval index in
    ground (
      arith,
      next,
      count_layers-interval_blocks interval (index + 1) count
          (if is_linear kind then inc32 linear else linear)
          (if is_linear kind then full else inc32 full) (omega arith),
    )

throw_length-returns {ℓ} :
    {B : Type ℓ} (b : Bool) (text : Text) (k : Result B)
    → (b ≡ false → returns_or_too_long k ≡ true)
    → returns_or_too_long (throw_if b (length_error text) >> k) ≡ true
throw_length-returns true text k h = refl
throw_length-returns false text k h = h refl

throw_skipped-returns {ℓ} :
    {B : Type ℓ} (b : Bool) (e : Error) (k : Result B)
    → b ≡ false
    → returns_or_too_long k ≡ true
    → returns_or_too_long (throw_if b e >> k) ≡ true
throw_skipped-returns true e k skipped h = cc skipped
throw_skipped-returns false e k skipped h = h

require_dimensions-IsWellFormed :
    (c : Qwen35Config) (context : ℕ)
    → IsWellFormed c
    → 0 < context
    → require_dimensions context c.linear_convolution_width c.linear_value_head_count
        c.linear_key_head_count c.linear_head_dimension c.full_attention_kv_head_count
        c.full_attention_head_dimension
      ≡ ok tt
unfolding require_dimensions require_nonzero
require_dimensions-IsWellFormed c context well positive = ground (
  arith, well.width, well.key_heads, well.value_heads, well.state, well.kv_heads,
  well.head_dimension,
)

has_blocks : (blocks : List Qwen35BlockPlan) → 0 < length blocks → no_blocks blocks ≡ false
unfolding no_blocks
has_blocks [] h = absurd (omega arith)
has_blocks (b ∷ bs) h = refl

planned-count_layers :
    (catalog : Catalog) (c : Qwen35Config)
    → IsDerived catalog c
    → length c.blocks ≤ u32_max
    → returns_or_too_long (count_layers 0 c.blocks 0 0) ≡ true
planned-count_layers catalog c derived fits =
    subst (λ blocks. returns_or_too_long (count_layers 0 blocks 0 0) ≡ true) (sym derived.blocks)
      (count_layers-interval_blocks derived.interval 0 (length c.blocks) 0 0 (omega arith))

create-returns :
    (catalog : Catalog) (c : Qwen35Config) (context : ℕ)
    → IsDerived catalog c
    → 0 < context
    → returns_or_too_long (create c context) ≡ true
unfolding create
create-returns catalog c context derived positive =
    >>=-returns _ _
      (ap (returns_or_too_long {A = Unit {0}})
        (require_dimensions-IsWellFormed c context derived.relations positive))
      (λ u.
        throw_length-returns (ltb u32_max (length c.blocks)) (bytes "Qwen3.5 block count overflow")
          _
          (λ fits.
            throw_skipped-returns (no_blocks c.blocks)
              (invalid_argument (bytes "Qwen3.5 state layout requires blocks")) _
              (has_blocks c.blocks derived.some_blocks)
              (>>=-returns _ _ (planned-count_layers catalog c derived (ground (arith, fits)))
                (λ counts. >>=-returns _ _ (qkv_channel_count-returns _ _ _) (λ qkv.
                  >>=-returns _ _ (convolution_floats-returns _ _) (λ convolution.
                    >>=-returns _ _ (recurrent_floats-returns _ _) (λ recurrent.
                      >>=-returns _ _ (full_kv_floats-returns _ _ _) (λ kv.
                        >>=-returns _ _ (layer_bytes-returns _ _) (λ convolution_bytes.
                          >>=-returns _ _ (layer_bytes-returns _ _) (λ recurrent_bytes.
                            >>=-returns _ _ (layer_bytes-returns _ _) (λ kv_bytes.
                              >>=-returns _ _ (checked_add-returns _ _) (λ sum.
                                >>=-returns _ _ (checked_add-returns _ _)
                                  (λ total. refl)))))))))))))

-- For a configuration that derive_qwen35_config returns and a context that is not zero,
-- Qwen35StateLayout::create returns a layout or throws a length error: of its checks, only those
-- on the sizes can fail.
pub create-derive_qwen35_config :
    (narrow : ℕ → ℕ) (catalog : Catalog) (config : Qwen35Config) (context : ℕ)
    → derive_qwen35_config narrow catalog ≡ ok config
    → 0 < context
    → returns_or_too_long (create config context) ≡ true
create-derive_qwen35_config narrow catalog config context h positive =
    create-returns catalog config context (derive_qwen35_config-IsDerived narrow catalog config h)
      positive
