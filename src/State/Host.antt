-- ===== src/State/Host.antt =====
-- cpp/execution/qwen35_state.cpp: Qwen35HostState. A `float` is its bit pattern, so 0 is 0.0F; a span
-- is its offset in the storage and its length.
pub mod Commit
pub mod Create
pub mod History
pub mod Spans
use raftinfer.Base.{
  ℕ, ◌+◌, ◌-◌, ◌*◌, ◌%◌, ◌^◌, List, [], ◌∷◌, map, Bool, true, false, not, ◌||◌, Option, none, some,
  length, get_elem?, replicate, Result, ok, err, bytes, Text, length_error, invalid_argument,
  out_of_range, logic_error, throw_if, ◌>>=◌, ◌>>◌, ltb, leb, ◌==◌, if◌then◌else◌,
}
use raftinfer.State.Checked.{checked_mul}
use raftinfer.State.Layout.{Qwen35StateLayout, no_slot}
use raftinfer.State.Validate.{require_valid_layout}

-- `unknown` is any other value of the enumeration's type.
pub data Qwen35HostStorage : Type 0 where
  full logical_only : Qwen35HostStorage
  unknown : ℕ → Qwen35HostStorage

pub record Qwen35HostState : Type 0 where
  pub layout : Qwen35StateLayout
  pub storage : Qwen35HostStorage
  pub position : ℕ
  pub full_kv_lengths : List ℕ
  pub linear_convolution : List ℕ
  pub linear_recurrent : List ℕ
  pub full_kv : List ℕ

-- The length of one of the three buffers that the constructor makes.
unfoldable pub buffer_size : Qwen35HostStorage → ℕ → ℕ → Result ℕ
buffer_size full layers floats = checked_mul layers floats
buffer_size _ layers floats = ok 0

unfoldable pub is_known : Qwen35HostStorage → Bool
is_known (unknown n) = false
is_known _ = true

-- The constructor. `u32_max_size` and `float_max_size` are max_size() of the two vectors.
unfoldable pub create : ℕ → ℕ → Qwen35StateLayout → Qwen35HostStorage → Result Qwen35HostState
create u32_max_size float_max_size layout storage = do
  layout' ← require_valid_layout u32_max_size float_max_size layout
  convolution ←
      buffer_size storage layout'.linear_layer_count layout'.linear_convolution_floats_per_layer
  recurrent ←
      buffer_size storage layout'.linear_layer_count layout'.linear_recurrent_floats_per_layer
  kv ← buffer_size storage layout'.full_layer_count layout'.full_kv_floats_per_layer
  throw_if (not (is_known storage)) (invalid_argument (bytes "unknown Qwen3.5 host storage mode"))
  ok (record {
    layout = layout';
    storage = storage;
    position = 0;
    full_kv_lengths = replicate layout'.full_layer_count 0;
    linear_convolution = replicate convolution 0;
    linear_recurrent = replicate recurrent 0;
    full_kv = replicate kv 0;
  })

unfoldable pub has_tensor_storage : Qwen35HostState → Bool
has_tensor_storage s = elim s.storage [ full ↦ true | _ ↦ false ]

-- `slots[layer]`, behind the range check of the caller; a slot that is none throws.
unfoldable pub slot_of : List ℕ → ℕ → Text → Text → Result ℕ
slot_of slots layer range_message kind_message = elim (get_elem? slots layer) [
  | none ↦ err (out_of_range range_message)
  | some slot ↦ if slot == no_slot then err (invalid_argument kind_message) else ok slot
]

-- slot_span
unfoldable pub slot_span : ℕ → ℕ → ℕ × ℕ
slot_span slot floats_per_slot = (slot * floats_per_slot % 2 ^ 64, floats_per_slot)

-- A read past the end of the vector would be undefined; it does not happen in a valid state.
unfoldable pub full_kv_length : Qwen35HostState → ℕ → Result (Option ℕ)
full_kv_length s layer = do
  slot ←
      slot_of s.layout.full_slots_by_block layer (bytes "Qwen3.5 full KV layer index out of range")
        (bytes "Qwen3.5 layer does not use full attention")
  ok (get_elem? s.full_kv_lengths slot)

unfoldable pub linear_convolution : Qwen35HostState → ℕ → Result (ℕ × ℕ)
linear_convolution s layer = do
  throw_if (not (has_tensor_storage s))
      (logic_error (bytes "Qwen3.5 logical-only host state has no convolution storage"))
  slot ←
      slot_of s.layout.linear_slots_by_block layer (bytes "Qwen3.5 linear layer index out of range")
        (bytes "Qwen3.5 layer does not use linear attention")
  ok (slot_span slot s.layout.linear_convolution_floats_per_layer)

unfoldable pub linear_recurrent : Qwen35HostState → ℕ → Result (ℕ × ℕ)
linear_recurrent s layer = do
  throw_if (not (has_tensor_storage s))
      (logic_error (bytes "Qwen3.5 logical-only host state has no recurrent storage"))
  slot ←
      slot_of s.layout.linear_slots_by_block layer (bytes "Qwen3.5 linear layer index out of range")
        (bytes "Qwen3.5 layer does not use linear attention")
  ok (slot_span slot s.layout.linear_recurrent_floats_per_layer)

unfoldable pub full_kv : Qwen35HostState → ℕ → Result (ℕ × ℕ)
full_kv s layer = do
  throw_if (not (has_tensor_storage s))
      (logic_error (bytes "Qwen3.5 logical-only host state has no full-attention KV storage"))
  slot ←
      slot_of s.layout.full_slots_by_block layer (bytes "Qwen3.5 full KV layer index out of range")
        (bytes "Qwen3.5 layer does not use full attention")
  ok (slot_span slot s.layout.full_kv_floats_per_layer)

-- The loop of `commit_tokens` that looks at the lengths before any of them changes.
pub require_room : ℕ → ℕ → List ℕ → Result (Unit {0})
require_room max_context count [] = ok tt
require_room max_context count (n ∷ lengths) = do
  throw_if (ltb max_context count || ltb (max_context - count) n)
      (length_error (bytes "Qwen3.5 full KV length exceeds max context"))
  require_room max_context count lengths

unfoldable pub commit_tokens : Qwen35HostState → ℕ → Result Qwen35HostState
unfolding require_room
commit_tokens s count = do
  throw_if
      (ltb s.layout.max_context_tokens count
        || ltb (s.layout.max_context_tokens - count) s.position)
      (length_error (bytes "Qwen3.5 state commit exceeds max context"))
  let next_position = (s.position + count) % 2 ^ 32
  require_room s.layout.max_context_tokens count s.full_kv_lengths
  ok (record s {
    position = next_position;
    full_kv_lengths = map (λ n. (n + count) % 2 ^ 32) s.full_kv_lengths;
  })

-- std::fill with zero
abbrev zero_fill : List ℕ → List ℕ
zero_fill = map (λ x. 0)

unfoldable pub reset : Qwen35HostState → Qwen35HostState
reset s = record s {
  position = 0;
  full_kv_lengths = zero_fill s.full_kv_lengths;
  linear_convolution = zero_fill s.linear_convolution;
  linear_recurrent = zero_fill s.linear_recurrent;
  full_kv = zero_fill s.full_kv;
}
