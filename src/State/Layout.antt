-- ===== src/State/Layout.antt =====
-- cpp/execution/qwen35_state.cpp: Qwen35StateLayout::create and require_valid_layout. A loop over the
-- blocks is a recursion on their list; `inc32` is `++` on a std::uint32_t.
pub mod Slots
pub mod Sizes
pub mod Created
pub mod Derived
use raftinfer.Base.{
  ℕ, ◌+◌, ◌-◌, ◌%◌, ◌^◌, List, [], ◌∷◌, Bool, true, false, not, ◌||◌, length, u32_max, Error,
  Result, ok, err, bytes, length_error, invalid_argument, throw_if, ◌>>=◌, ◌>>◌, ltb, leb, ◌==◌,
  if◌then◌else◌,
}
use raftinfer.Model.Config.{
  Qwen35Config, Qwen35BlockPlan, Qwen35BlockKind, linear_attention, full_attention,
}
use raftinfer.State.Checked.{checked_mul, checked_add, checked_u32, checked_bytes, require_nonzero}

-- kNoSlot
abbrev pub no_slot : ℕ
no_slot = u32_max

pub record Qwen35StateLayout : Type 0 where
  pub max_context_tokens : ℕ
  pub block_count : ℕ
  pub linear_layer_count : ℕ
  pub full_layer_count : ℕ
  pub linear_convolution_width : ℕ
  pub linear_qkv_channel_count : ℕ
  pub linear_value_head_count : ℕ
  pub linear_key_head_count : ℕ
  pub linear_head_dimension : ℕ
  pub full_attention_kv_head_count : ℕ
  pub full_attention_head_dimension : ℕ
  pub linear_convolution_floats_per_layer : ℕ
  pub linear_recurrent_floats_per_layer : ℕ
  pub full_kv_floats_per_layer : ℕ
  pub linear_convolution_bytes : ℕ
  pub linear_recurrent_bytes : ℕ
  pub full_kv_bytes : ℕ
  pub linear_slots_by_block : List ℕ
  pub full_slots_by_block : List ℕ

abbrev pub inc32 : ℕ → ℕ
inc32 n = (n + 1) % 2 ^ 32

abbrev pub is_linear : Qwen35BlockKind → Bool
is_linear linear_attention = true
is_linear full_attention = false

abbrev pub is_empty : List ℕ → Bool
is_empty [] = true
is_empty (x ∷ xs) = false

-- The sizes, as both functions compute them.
unfoldable pub qkv_channel_count : ℕ → ℕ → ℕ → Result ℕ
qkv_channel_count key_heads value_heads dimension = do
  two_keys ← checked_mul 2 key_heads
  keys ← checked_mul two_keys dimension
  values ← checked_mul value_heads dimension
  sum ← checked_add keys values
  checked_u32 sum

unfoldable pub convolution_floats : ℕ → ℕ → Result ℕ
convolution_floats qkv width = checked_mul qkv (width - 1)

unfoldable pub recurrent_floats : ℕ → ℕ → Result ℕ
recurrent_floats value_heads dimension = do
  square ← checked_mul dimension dimension
  checked_mul value_heads square

unfoldable pub full_kv_floats : ℕ → ℕ → ℕ → Result ℕ
full_kv_floats context kv_heads dimension = do
  positions ← checked_mul 2 context
  width ← checked_mul kv_heads dimension
  checked_mul positions width

unfoldable pub layer_bytes : ℕ → ℕ → Result ℕ
layer_bytes layers floats = do all ← checked_mul layers floats; checked_bytes all

-- The first loop of `create`: the numbers of linear and of full layers.
unfoldable pub count_layers : ℕ → List Qwen35BlockPlan → ℕ → ℕ → Result (ℕ × ℕ)
count_layers position [] linear full = ok (linear, full)
count_layers position (block ∷ rest) linear full = do
  throw_if (not (block.index == position))
      (invalid_argument (bytes "Qwen3.5 blocks must be in index order"))
  count_layers (inc32 position) rest (if is_linear block.kind then inc32 linear else linear)
      (if is_linear block.kind then full else inc32 full)

-- The second loop of `create`: each block gets the next slot of its own kind, and none of the other.
unfoldable pub assign_slots : List Qwen35BlockPlan → ℕ → ℕ → List ℕ × List ℕ
assign_slots [] linear full = ([], [])
assign_slots (block ∷ rest) linear full =
    let (ls, fs) =
      assign_slots rest (if is_linear block.kind then inc32 linear else linear)
        (if is_linear block.kind then full else inc32 full) in
    (
      (if is_linear block.kind then linear else no_slot) ∷ ls,
      (if is_linear block.kind then no_slot else full) ∷ fs,
    )

no_blocks : List Qwen35BlockPlan → Bool
no_blocks [] = true
no_blocks (b ∷ bs) = false

-- The dimensions that must not be zero; create and require_valid_layout test the same ones.
unfoldable pub require_dimensions : ℕ → ℕ → ℕ → ℕ → ℕ → ℕ → ℕ → Result (Unit {0})
require_dimensions context width value_heads key_heads dimension kv_heads kv_dimension = do
  require_nonzero context (bytes "Qwen3.5 max context tokens must be nonzero")
  require_nonzero width (bytes "Qwen3.5 linear convolution width must be nonzero")
  require_nonzero value_heads (bytes "Qwen3.5 linear value head count must be nonzero")
  require_nonzero key_heads (bytes "Qwen3.5 linear key head count must be nonzero")
  require_nonzero dimension (bytes "Qwen3.5 linear head dimension must be nonzero")
  require_nonzero kv_heads (bytes "Qwen3.5 full attention KV head count must be nonzero")
  require_nonzero kv_dimension (bytes "Qwen3.5 full attention head dimension must be nonzero")

-- Qwen35StateLayout::create
unfoldable pub create : Qwen35Config → ℕ → Result Qwen35StateLayout
unfolding no_blocks
create config context = do
  require_dimensions context config.linear_convolution_width config.linear_value_head_count
      config.linear_key_head_count config.linear_head_dimension config.full_attention_kv_head_count
      config.full_attention_head_dimension
  throw_if (ltb u32_max (length config.blocks))
      (length_error (bytes "Qwen3.5 block count overflow"))
  throw_if (no_blocks config.blocks)
      (invalid_argument (bytes "Qwen3.5 state layout requires blocks"))
  (linear, full) ← count_layers 0 config.blocks 0 0
  qkv ←
      qkv_channel_count config.linear_key_head_count config.linear_value_head_count
        config.linear_head_dimension
  convolution ← convolution_floats qkv config.linear_convolution_width
  recurrent ← recurrent_floats config.linear_value_head_count config.linear_head_dimension
  full_kv ←
      full_kv_floats context config.full_attention_kv_head_count
        config.full_attention_head_dimension
  convolution_bytes ← layer_bytes linear convolution
  recurrent_bytes ← layer_bytes linear recurrent
  kv_bytes ← layer_bytes full full_kv
  sum ← checked_add convolution_bytes recurrent_bytes
  total ← checked_add sum kv_bytes
  let slots = assign_slots config.blocks 0 0
  ok (record {
    max_context_tokens = context;
    block_count = length config.blocks;
    linear_layer_count = linear;
    full_layer_count = full;
    linear_convolution_width = config.linear_convolution_width;
    linear_qkv_channel_count = qkv;
    linear_value_head_count = config.linear_value_head_count;
    linear_key_head_count = config.linear_key_head_count;
    linear_head_dimension = config.linear_head_dimension;
    full_attention_kv_head_count = config.full_attention_kv_head_count;
    full_attention_head_dimension = config.full_attention_head_dimension;
    linear_convolution_floats_per_layer = convolution;
    linear_recurrent_floats_per_layer = recurrent;
    full_kv_floats_per_layer = full_kv;
    linear_convolution_bytes = convolution_bytes;
    linear_recurrent_bytes = recurrent_bytes;
    full_kv_bytes = kv_bytes;
    linear_slots_by_block = slots.0;
    full_slots_by_block = slots.1;
  })
