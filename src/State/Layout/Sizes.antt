-- ===== src/State/Layout/Sizes.antt =====
-- cpp/execution/qwen35_state.cpp: the layout's sizes against plain products and sums.
use raftinfer.Base.{ℕ, ◌+◌, ◌-◌, ◌*◌, ◌≤◌, ◌≡◌, arith, size_max, u32_max, ok}
use raftinfer.State.Checked.{
  checked_mul, checked_bytes, checked_mul-exact, checked_add-exact, checked_u32-exact,
}
use raftinfer.State.Layout.{
  qkv_channel_count, convolution_floats, recurrent_floats, full_kv_floats, layer_bytes,
}

pub qkv_channel_count-eq :
    (k v d : ℕ) {q : ℕ} → qkv_channel_count k v d ≡ ok q → (q ≡ 2 * k * d + v * d) × (q ≤ u32_max)
unfolding qkv_channel_count
qkv_channel_count-eq k v d h = ground (
  arith,
  checked_mul-exact 2 k,
  checked_mul-exact (2 * k) d,
  checked_mul-exact v d,
  checked_add-exact (2 * k * d) (v * d),
  checked_u32-exact (2 * k * d + v * d),
)

pub convolution_floats-eq :
    (qkv width : ℕ) {n : ℕ} → convolution_floats qkv width ≡ ok n → n ≡ qkv * (width - 1)
unfolding convolution_floats
convolution_floats-eq qkv width h = ground (arith, checked_mul-exact qkv (width - 1))

pub recurrent_floats-eq : (v d : ℕ) {n : ℕ} → recurrent_floats v d ≡ ok n → n ≡ v * (d * d)
unfolding recurrent_floats
recurrent_floats-eq v d h = ground (arith, checked_mul-exact d d, checked_mul-exact v (d * d))

pub full_kv_floats-eq :
    (context k d : ℕ) {n : ℕ} → full_kv_floats context k d ≡ ok n → n ≡ 2 * context * (k * d)
unfolding full_kv_floats
full_kv_floats-eq context k d h = ground (
  arith,
  checked_mul-exact 2 context,
  checked_mul-exact k d,
  checked_mul-exact (2 * context) (k * d),
)

pub layer_bytes-eq :
    (layers floats : ℕ) {n : ℕ}
    → layer_bytes layers floats ≡ ok n
    → (n ≡ layers * floats * 4)
      × (n ≤ size_max)
      × (checked_mul layers floats ≡ ok (layers * floats))
      × (checked_bytes (layers * floats) ≡ ok n)
unfolding layer_bytes checked_bytes
layer_bytes-eq layers floats h =
    ground (arith, checked_mul-exact layers floats, checked_mul-exact (layers * floats) 4)
