-- ===== src/State/Host/Create.antt =====
-- cpp/execution/qwen35_state.cpp: the constructor of Qwen35HostState and the invariant.
use raftinfer.Base.{ℕ, zero, ◌*◌, ◌≡◌, refl, true, arith, length-replicate, ok, >>=-eq-ok}
use raftinfer.State.Checked.{checked_mul-exact}
use raftinfer.State.Layout.{Qwen35StateLayout}
use raftinfer.State.Validate.{require_valid_layout}
use raftinfer.State.Validate.Sound.{SlotMaps, require_valid_layout-SlotMaps}
use raftinfer.State.Host.{
  Qwen35HostState, Qwen35HostStorage, full, logical_only, unknown, create, buffer_size, is_known,
  has_tensor_storage,
}
use raftinfer.State.Host.Commit.{IsValid}

module _ (u32_max_size float_max_size : ℕ) (layout : Qwen35StateLayout) (s : Qwen35HostState) where
  accepted :
      (storage : Qwen35HostStorage)
      → create u32_max_size float_max_size layout storage ≡ ok s
      → (s.layout ≡ layout) × SlotMaps layout
  unfolding create
  accepted storage h =
      let (layout', e, _) =
        >>=-eq-ok (require_valid_layout u32_max_size float_max_size layout) _ h in
      let (same, maps) =
        require_valid_layout-SlotMaps u32_max_size float_max_size layout layout' e in
      (ground (arith, same), maps)

  -- The constructor accepts no other storage mode than the two, and gives a valid state at position 0
  -- on the layout that it was given, with all buffers of their full size if tensors are stored.
  pub create-IsValid :
      (storage : Qwen35HostStorage)
      → create u32_max_size float_max_size layout storage ≡ ok s
      → IsValid s × (s.layout ≡ layout) × (s.position ≡ 0) × (is_known storage ≡ true)
  unfolding create has_tensor_storage buffer_size is_known
  create-IsValid full h =
      let (same, maps) = accepted full h in
      (
        record {
          maps = rw same maps;
          within = ground arith;
          lengths = ground arith;
          convolution = λ t. ground (
            arith,
            checked_mul-exact s.layout.linear_layer_count
                s.layout.linear_convolution_floats_per_layer,
            length-replicate
                (s.layout.linear_layer_count * s.layout.linear_convolution_floats_per_layer) zero,
          );
          recurrent = λ t. ground (
            arith,
            checked_mul-exact s.layout.linear_layer_count
                s.layout.linear_recurrent_floats_per_layer,
            length-replicate
                (s.layout.linear_layer_count * s.layout.linear_recurrent_floats_per_layer) zero,
          );
          kv = λ t. ground (
            arith,
            checked_mul-exact s.layout.full_layer_count s.layout.full_kv_floats_per_layer,
            length-replicate (s.layout.full_layer_count * s.layout.full_kv_floats_per_layer) zero,
          );
        },
        same,
        ground arith,
        refl,
      )
  create-IsValid logical_only h =
      let (same, maps) = accepted logical_only h in
      (
        record {
          maps = rw same maps;
          within = ground arith;
          lengths = ground arith;
          convolution = λ t. ground arith;
          recurrent = λ t. ground arith;
          kv = λ t. ground arith;
        },
        same,
        ground arith,
        refl,
      )
  create-IsValid (unknown n) h = absurd (ground arith)
