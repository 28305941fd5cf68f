-- ===== src/State/Tests.antt =====
-- The state at concrete inputs: a network of three blocks, and the theorems where their hypotheses hold.
use raftinfer.Base.{
  some, replicate, true, ℕ, ◌≡◌, refl, List, [], ◌∷◌, arith, ok, err, bytes, length_error,
}
use raftinfer.Model.Config.{Qwen35Config, linear_attention, full_attention}
use raftinfer.Model.Tests.{small_catalog, small_config, small_is_derived, unused}
use raftinfer.State.Checked
use raftinfer.State.Layout
use raftinfer.State.Layout.{Qwen35StateLayout, no_slot}
use raftinfer.State.Layout.Derived.{returns_or_too_long, create-derive_qwen35_config}
use raftinfer.State.Validate.{require_valid_layout}
use raftinfer.State.Validate.Accepts.{require_valid_layout-create}
use raftinfer.State.Validate.Sound.{SlotMaps, require_valid_layout-SlotMaps}
use raftinfer.State.Host
use raftinfer.State.Host.{
  Qwen35HostState, full, is_known, commit_tokens, reset, linear_convolution, linear_recurrent,
  full_kv, full_kv_length,
}
use raftinfer.State.Host.Commit.{IsValid, commit_tokens-advance, reset-IsValid}
use raftinfer.State.Host.Create.{create-IsValid}
use raftinfer.State.Host.History.{run, commit, run-count}
use raftinfer.State.Host.Spans.{OwnSpan, full_kv-OwnSpan}

abbrev pub config : Qwen35Config
config = record {
  vocabulary_size = 8;
  hidden_size = 4;
  intermediate_size = 8;
  context_length = 16;
  full_attention_head_count = 2;
  full_attention_kv_head_count = 1;
  full_attention_head_dimension = 2;
  linear_key_head_count = 1;
  linear_value_head_count = 2;
  linear_head_dimension = 2;
  linear_convolution_width = 2;
  rotary_dimension = 2;
  rms_norm_epsilon = 0x358637bd;
  rope_frequency_base = 0x4b189680;
  blocks =
      record { index = 0; kind = linear_attention }
      ∷ record { index = 1; kind = full_attention }
      ∷ record { index = 2; kind = linear_attention }
      ∷ [];
}

abbrev pub layout : Qwen35StateLayout
layout = record {
  max_context_tokens = 5;
  block_count = 3;
  linear_layer_count = 2;
  full_layer_count = 1;
  linear_convolution_width = 2;
  linear_qkv_channel_count = 8;
  linear_value_head_count = 2;
  linear_key_head_count = 1;
  linear_head_dimension = 2;
  full_attention_kv_head_count = 1;
  full_attention_head_dimension = 2;
  linear_convolution_floats_per_layer = 8;
  linear_recurrent_floats_per_layer = 8;
  full_kv_floats_per_layer = 20;
  linear_convolution_bytes = 64;
  linear_recurrent_bytes = 64;
  full_kv_bytes = 80;
  linear_slots_by_block = 0 ∷ no_slot ∷ 1 ∷ [];
  full_slots_by_block = no_slot ∷ 0 ∷ no_slot ∷ [];
}

-- What the functions of the layout call.
pub created : Layout.create config 5 ≡ ok layout
unfolding Layout.create Layout.require_dimensions Layout.count_layers Layout.qkv_channel_count
    Layout.convolution_floats Layout.recurrent_floats Layout.full_kv_floats Layout.layer_bytes
    Layout.assign_slots Checked.checked_mul Checked.checked_add Checked.checked_u32
    Checked.checked_bytes Checked.require_nonzero
created = refl

pub accepted : require_valid_layout 1000 1000 layout ≡ ok layout
accepted =
    require_valid_layout-create config 5 1000 1000 layout created (omega arith) (omega arith)
      (omega arith) (omega arith)

require_valid_layout-create_example : require_valid_layout 1 40 layout ≡ ok layout
require_valid_layout-create_example =
    require_valid_layout-create config 5 1 40 layout created (omega arith) (omega arith)
      (omega arith) (omega arith)

require_valid_layout-SlotMaps_example : (layout ≡ layout) × SlotMaps layout
require_valid_layout-SlotMaps_example =
    require_valid_layout-SlotMaps 1000 1000 layout layout accepted

abbrev zeros : ℕ → List ℕ
zeros n = replicate n 0

abbrev fresh : Qwen35HostState
fresh = record {
  layout = layout;
  storage = full;
  position = 0;
  full_kv_lengths = 0 ∷ [];
  linear_convolution = zeros 16;
  linear_recurrent = zeros 16;
  full_kv = zeros 20;
}

host_created : Host.create 1000 1000 layout full ≡ ok fresh
unfolding Host.create Host.buffer_size Host.is_known Checked.checked_mul
host_created = rw accepted refl

create-IsValid_example :
    IsValid fresh × (fresh.layout ≡ layout) × (fresh.position ≡ 0) × (is_known full ≡ true)
create-IsValid_example = create-IsValid 1000 1000 layout fresh full host_created

fresh-IsValid : IsValid fresh
fresh-IsValid = create-IsValid_example.0

commit_too_many :
    commit_tokens fresh 6 ≡ err (length_error (bytes "Qwen3.5 state commit exceeds max context"))
commit_too_many = commit_tokens-advance fresh 6 fresh-IsValid (omega arith)

reset-IsValid_example :
    IsValid (reset fresh)
    × ((reset fresh).position ≡ 0)
    × ((reset fresh).layout ≡ layout)
    × ((reset fresh).linear_convolution ≡ zeros 16)
    × ((reset fresh).linear_recurrent ≡ zeros 16)
    × ((reset fresh).full_kv ≡ zeros 20)
reset-IsValid_example = reset-IsValid fresh fresh-IsValid

run-count_example :
    let t = run fresh (commit 3 ∷ commit 4 ∷ commit 2 ∷ []) in
    IsValid t × (t.layout ≡ layout) × (t.position ≡ 5)
run-count_example =
    run-count fresh (commit 3 ∷ commit 4 ∷ commit 2 ∷ []) fresh-IsValid (omega arith)

span_runs :
    (linear_convolution fresh 0 ≡ ok (0, 8))
    × (linear_convolution fresh 2 ≡ ok (8, 8))
    × (full_kv fresh 1 ≡ ok (0, 20))
    × (linear_recurrent fresh 2 ≡ ok (8, 8))
unfolding linear_convolution linear_recurrent full_kv Host.has_tensor_storage Host.slot_of
    Host.slot_span
span_runs = (refl, refl, refl, refl)

full_kv-OwnSpan_example : OwnSpan 1 1 (0, 20) (0, 20) 20
full_kv-OwnSpan_example =
    full_kv-OwnSpan fresh 1 1 (0, 20) (0, 20) fresh-IsValid span_runs.2 span_runs.2

length_runs : full_kv_length fresh 1 ≡ ok (some 0)
unfolding full_kv_length Host.slot_of
length_runs = refl

create-derive_qwen35_config_example : returns_or_too_long (Layout.create small_config 16) ≡ true
create-derive_qwen35_config_example =
    create-derive_qwen35_config unused (small_catalog []) small_config 16 small_is_derived
      (omega arith)
