-- ===== src/State/Layout/Created.antt =====
-- cpp/execution/qwen35_state.cpp: the equations behind a layout that `create` has returned.
use raftinfer.Base.{
  ℕ, [], ◌∷◌, ◌<◌, ◌+◌, size_max, ◌≤◌, ◌≡◌, List, false, arith, length, u32_max, ok,
}
use raftinfer.Model.Config.{Qwen35Config, Qwen35BlockPlan}
use raftinfer.State.Checked.{checked_add-exact}
use raftinfer.State.Layout.Sizes.{layer_bytes-eq}
use raftinfer.State.Layout.{
  Qwen35StateLayout, no_blocks, count_layers, assign_slots, qkv_channel_count, convolution_floats,
  recurrent_floats, full_kv_floats, layer_bytes, require_dimensions, create,
}
use raftinfer.State.Layout.Slots.{linears, fulls, linears-add-fulls, count_layers-linears}

pub record Created (config : Qwen35Config) (context : ℕ) (layout : Qwen35StateLayout) : Type 0 where
  pub dimensions :
      require_dimensions layout.max_context_tokens layout.linear_convolution_width
        layout.linear_value_head_count layout.linear_key_head_count layout.linear_head_dimension
        layout.full_attention_kv_head_count layout.full_attention_head_dimension
      ≡ ok tt
  pub few : length config.blocks ≤ u32_max
  pub some_block : 0 < length config.blocks
  pub blocks : layout.block_count ≡ length config.blocks
  pub context_kept : layout.max_context_tokens ≡ context
  pub linear : layout.linear_layer_count ≡ linears config.blocks
  pub full : layout.full_layer_count ≡ fulls config.blocks
  pub qkv :
      qkv_channel_count layout.linear_key_head_count layout.linear_value_head_count
        layout.linear_head_dimension
      ≡ ok layout.linear_qkv_channel_count
  pub convolution :
      convolution_floats layout.linear_qkv_channel_count layout.linear_convolution_width
      ≡ ok layout.linear_convolution_floats_per_layer
  pub recurrent :
      recurrent_floats layout.linear_value_head_count layout.linear_head_dimension
      ≡ ok layout.linear_recurrent_floats_per_layer
  pub full_kv :
      full_kv_floats layout.max_context_tokens layout.full_attention_kv_head_count
        layout.full_attention_head_dimension
      ≡ ok layout.full_kv_floats_per_layer
  pub convolution_bytes :
      layer_bytes layout.linear_layer_count layout.linear_convolution_floats_per_layer
      ≡ ok layout.linear_convolution_bytes
  pub recurrent_bytes :
      layer_bytes layout.linear_layer_count layout.linear_recurrent_floats_per_layer
      ≡ ok layout.linear_recurrent_bytes
  pub full_kv_bytes :
      layer_bytes layout.full_layer_count layout.full_kv_floats_per_layer ≡ ok layout.full_kv_bytes
  pub total :
      layout.linear_convolution_bytes + layout.linear_recurrent_bytes + layout.full_kv_bytes
      ≤ size_max
  pub linear_slots : layout.linear_slots_by_block ≡ (assign_slots config.blocks 0 0).0
  pub full_slots : layout.full_slots_by_block ≡ (assign_slots config.blocks 0 0).1

no_blocks-length : (bs : List Qwen35BlockPlan) → no_blocks bs ≡ false → 0 < length bs
unfolding no_blocks
no_blocks-length [] h = cc
no_blocks-length (b ∷ bs) h = omega arith

module _ (config : Qwen35Config) (context : ℕ) {layout : Qwen35StateLayout}
    (h : create config context ≡ ok layout) where
  few : length config.blocks ≤ u32_max
  unfolding create
  few = ground arith

  counts :
      count_layers 0 config.blocks 0 0 ≡ ok (layout.linear_layer_count, layout.full_layer_count)
  unfolding create
  counts = ground arith

  total :
      layout.linear_convolution_bytes + layout.linear_recurrent_bytes + layout.full_kv_bytes
      ≤ size_max
  unfolding create
  total = ground (
    arith,
    layer_bytes-eq layout.linear_layer_count layout.linear_convolution_floats_per_layer
        {n = layout.linear_convolution_bytes},
    checked_add-exact layout.linear_convolution_bytes layout.linear_recurrent_bytes,
    checked_add-exact (layout.linear_convolution_bytes + layout.linear_recurrent_bytes)
        layout.full_kv_bytes,
  )

  counts-linears :
      (layout.linear_layer_count ≡ linears config.blocks)
      × (layout.full_layer_count ≡ fulls config.blocks)
  counts-linears =
      let whole = linears-add-fulls config.blocks in
      let both =
        count_layers-linears 0 config.blocks 0 0 (omega (arith, few)) (omega (arith, few)) counts in
      omega (arith, both)

  pub create-Created : Created config context layout
  unfolding create
  create-Created = record {
    dimensions = ground arith;
    few = few;
    some_block = no_blocks-length config.blocks (ground arith);
    blocks = ground arith;
    context_kept = ground arith;
    linear = counts-linears.0;
    full = counts-linears.1;
    qkv = ground arith;
    convolution = ground arith;
    recurrent = ground arith;
    full_kv = ground arith;
    convolution_bytes = ground arith;
    recurrent_bytes = ground arith;
    full_kv_bytes = ground arith;
    total = total;
    linear_slots = ground arith;
    full_slots = ground arith;
  }
