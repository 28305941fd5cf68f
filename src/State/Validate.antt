-- ===== src/State/Validate.antt =====
-- cpp/execution/qwen35_state.cpp: require_valid_layout, which checks a layout before a host state is
-- built on it.
pub mod Accepts
pub mod Sound
use raftinfer.Base.{
  ℕ, List, [], ◌∷◌, Bool, true, false, not, ◌||◌, length, Result, ok, err, bytes, length_error,
  invalid_argument, throw_if, ◌>>=◌, ◌>>◌, ltb, leb, ◌==◌, if◌then◌else◌,
}
use raftinfer.State.Checked.{checked_mul, checked_add, checked_bytes}
use raftinfer.State.Layout.{
  Qwen35StateLayout, no_slot, inc32, is_empty, qkv_channel_count, convolution_floats,
  recurrent_floats, full_kv_floats, require_dimensions,
}

abbrev pub contains : ℕ → List ℕ → Bool
contains x [] = false
contains x (y ∷ ys) = y == x || contains x ys

abbrev pub bool_eq : Bool → Bool → Bool
bool_eq true b = b
bool_eq false b = not b

-- One round of the loop over the blocks; `seen_linear` and `seen_full` are the slots of the blocks
-- before this one, and the result is the two counters.
pub validate_block : Qwen35StateLayout → List ℕ → List ℕ → ℕ → ℕ → ℕ × ℕ → Result (ℕ × ℕ)
validate_block layout seen_linear seen_full linear_slot full_slot (linear_slots, full_slots) = do
  let has_linear = not (linear_slot == no_slot)
  let has_full = not (full_slot == no_slot)
  throw_if (bool_eq has_linear has_full)
      (invalid_argument (bytes "Qwen3.5 host state requires exactly one slot per block"))
  if has_linear
      then (do
        throw_if (leb layout.linear_layer_count linear_slot)
            (invalid_argument (bytes "Qwen3.5 linear slot out of range"))
        throw_if (contains linear_slot seen_linear)
            (invalid_argument (bytes "Qwen3.5 duplicate linear slot"))
        ok (inc32 linear_slots, full_slots))
      else (do
        throw_if (leb layout.full_layer_count full_slot)
            (invalid_argument (bytes "Qwen3.5 full slot out of range"))
        throw_if (contains full_slot seen_full)
            (invalid_argument (bytes "Qwen3.5 duplicate full slot"))
        ok (linear_slots, inc32 full_slots))

-- The loop. The two lists are of one length where it runs.
pub validate_slots : Qwen35StateLayout → List ℕ → List ℕ → List ℕ → List ℕ → ℕ × ℕ → Result (ℕ × ℕ)
validate_slots layout seen_linear seen_full [] fs counts = ok counts
validate_slots layout seen_linear seen_full (l ∷ ls) [] counts = ok counts
validate_slots layout seen_linear seen_full (l ∷ ls) (f ∷ fs) counts = do
  counts' ← validate_block layout seen_linear seen_full l f counts
  validate_slots layout (l ∷ seen_linear) (f ∷ seen_full) ls fs counts'

pub require_vector_capacity : ℕ → ℕ → Result (Unit {0})
require_vector_capacity size max_size =
    throw_if (ltb max_size size) (length_error (bytes "Qwen3.5 host state vector size overflow"))

-- The checks before the loop.
pub require_shape : Qwen35StateLayout → Result (Unit {0})
require_shape layout = do
  throw_if
      (layout.block_count == 0
        || is_empty layout.linear_slots_by_block
        || is_empty layout.full_slots_by_block)
      (invalid_argument (bytes "Qwen3.5 host state requires a nonempty layout"))
  throw_if
      (not (length layout.linear_slots_by_block == layout.block_count)
        || not (length layout.full_slots_by_block == layout.block_count))
      (invalid_argument (bytes "Qwen3.5 host state layout slot map mismatch"))
  require_dimensions layout.max_context_tokens layout.linear_convolution_width
      layout.linear_value_head_count layout.linear_key_head_count layout.linear_head_dimension
      layout.full_attention_kv_head_count layout.full_attention_head_dimension

pub require_sizes : Qwen35StateLayout → Result (Unit {0})
require_sizes layout = do
  expected_qkv ←
      qkv_channel_count layout.linear_key_head_count layout.linear_value_head_count
        layout.linear_head_dimension
  expected_convolution ← convolution_floats expected_qkv layout.linear_convolution_width
  expected_recurrent ← recurrent_floats layout.linear_value_head_count layout.linear_head_dimension
  expected_full_kv ←
      full_kv_floats layout.max_context_tokens layout.full_attention_kv_head_count
        layout.full_attention_head_dimension
  throw_if
      (not (layout.linear_qkv_channel_count == expected_qkv)
        || not (layout.linear_convolution_floats_per_layer == expected_convolution)
        || not (layout.linear_recurrent_floats_per_layer == expected_recurrent)
        || not (layout.full_kv_floats_per_layer == expected_full_kv))
      (invalid_argument (bytes "Qwen3.5 host state layout size mismatch"))

-- The checks behind the loop. `u32_max_size` and `float_max_size` are max_size() of the two vectors.
pub require_bytes : ℕ → ℕ → Qwen35StateLayout → Result (Unit {0})
require_bytes u32_max_size float_max_size layout = do
  convolution ← checked_mul layout.linear_layer_count layout.linear_convolution_floats_per_layer
  recurrent ← checked_mul layout.linear_layer_count layout.linear_recurrent_floats_per_layer
  full_kv ← checked_mul layout.full_layer_count layout.full_kv_floats_per_layer
  convolution_bytes ← checked_bytes convolution
  recurrent_bytes ← checked_bytes recurrent
  full_kv_bytes ← checked_bytes full_kv
  sum ← checked_add convolution_bytes recurrent_bytes
  total ← checked_add sum full_kv_bytes
  throw_if
      (not (layout.linear_convolution_bytes == convolution_bytes)
        || not (layout.linear_recurrent_bytes == recurrent_bytes)
        || not (layout.full_kv_bytes == full_kv_bytes))
      (invalid_argument (bytes "Qwen3.5 host state byte-size mismatch"))
  require_vector_capacity layout.full_layer_count u32_max_size
  require_vector_capacity convolution float_max_size
  require_vector_capacity recurrent float_max_size
  require_vector_capacity full_kv float_max_size

unfoldable pub require_valid_layout : ℕ → ℕ → Qwen35StateLayout → Result Qwen35StateLayout
unfolding require_shape require_sizes validate_slots validate_block require_bytes
    require_vector_capacity
require_valid_layout u32_max_size float_max_size layout = do
  require_shape layout
  require_sizes layout
  (linear_slots, full_slots) ←
      validate_slots layout [] [] layout.linear_slots_by_block layout.full_slots_by_block (0, 0)
  throw_if
      (not (linear_slots == layout.linear_layer_count)
        || not (full_slots == layout.full_layer_count))
      (invalid_argument (bytes "Qwen3.5 host state slot count mismatch"))
  require_bytes u32_max_size float_max_size layout
  ok layout
